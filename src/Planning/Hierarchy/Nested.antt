-- ===== src/Planning/Hierarchy/Nested.antt =====
-- planning/hierarchical_planner.py with loop/agent_loop.py: sub-agents that are agent loops. `forward`
-- collects into a collector of its own, and puts into the queue of the stream that runs.
use mathlib.Core.List.{append-nil}
use kaos_agents.Prelude.{
  ◌≡◌, refl, ap, ◌∙◌, sym, ℕ, leb, false, Option, none, some, List, [], ◌∷◌, ◌++◌, String, map,
  filter, All,
}
use kaos_agents.Prelude.Reply.{Reply, replies, fails, cancelled}
use kaos_agents.Events.{KaosEvent}
use kaos_agents.Memory.Institutional.{KnowledgeBase}
use kaos_agents.AgentLoop.Types.{
  Act, Asked, queues, PlanResult, AgentLoop, TurnPlan, TurnInvocation,
}
use kaos_agents.AgentLoop.Forward.{Names, forward_turn, queued_items, stream_turn}
use kaos_agents.AgentLoop.Acts.{Collaborators}
use kaos_agents.AgentLoop.Streams.{IsHeard, yielded-map, stream_turn-eq-events}
use kaos_agents.Planning.Hierarchy.Gathering.{acts_of_all, Replies, execute-gathers}
use kaos_agents.Planning.Delegation.{
  SubAgentSpec, HierarchicalPlan, SubInvocation, SubCall, StreamMode, HierarchicalPlanner,
}
use kaos_agents.Planning.Hierarchy.{execute}

-- The agent loop that the factory makes from an envelope, and its prepared turn.
pub record SubTurn (P : Type 0) : Type 0 where
  pub env_name : String
  pub env_hash : String
  pub loop : AgentLoop P
  pub plan : TurnPlan
  pub id : String
  pub knowledge_base : Option KnowledgeBase

-- The usage of an invocation is always there; its tool executions are never filled in.
abbrev pub as_sub_invocation : {P : Type 0} → Reply (TurnInvocation P) → Reply SubInvocation
as_sub_invocation (replies t) =
    replies record { output = some t.output; usage = some t.usage; tool_executions = [] }
as_sub_invocation (fails message) = fails message
as_sub_invocation cancelled = cancelled

-- `sub_loop.invoke` in the scope of `collect_events`, while the parent is streamed.
unfoldable pub sub_call : Names → {P : Type 0} → (SubAgentSpec → SubTurn P) → SubAgentSpec → SubCall
unfolding forward_turn
sub_call names turn_of spec =
    let t = turn_of spec in
    let ended = forward_turn names t.loop t.plan (some []) t.id t.knowledge_base in
    record {
      env_name = t.env_name;
      env_hash = t.env_hash;
      queued = elim ended.1.scope.collector.queue [ none ↦ [] | some events ↦ events ];
      collected = [];
      reply = as_sub_invocation ended.0;
    }

module _ (names : Names) {P : Type 0} (turn_of : SubAgentSpec → SubTurn P) where
  abbrev pub sub_events : SubAgentSpec → List KaosEvent
  sub_events spec =
      let t = turn_of spec in
      (forward_turn names t.loop t.plan (some []) t.id t.knowledge_base).1.invocation.events

  abbrev pub all_events : List SubAgentSpec → List Act
  all_events [] = []
  all_events (spec ∷ specs) = map queues (sub_events spec) ++ all_events specs

  abbrev pub Heard : SubAgentSpec → Type 0
  Heard spec = Collaborators IsHeard (turn_of spec).loop (turn_of spec).plan

  -- What a sub-turn puts into the queue is what is left with its invocation.
  sub_call-queued :
      (spec : SubAgentSpec) → Heard spec → (sub_call names turn_of spec).queued ≡ sub_events spec
  unfolding sub_call stream_turn queued_items
  sub_call-queued spec heard =
      let t = turn_of spec in
      sym (yielded-map (sub_call names turn_of spec).queued [])
      ∙ stream_turn-eq-events names t.loop t.plan t.id t.knowledge_base heard

  acts_of_all-nested :
      (mode : StreamMode) (specs : List SubAgentSpec)
      → All Heard specs
      → acts_of_all mode (sub_call names turn_of) specs ≡ all_events specs
  unfolding sub_call filter
  acts_of_all-nested mode [] _ = refl
  acts_of_all-nested mode (spec ∷ specs) (heard, all) =
      rw (append-nil, sub_call-queued spec heard, acts_of_all-nested mode specs all) refl

  -- Where the sub-agents are agent loops whose collaborators put no event into the queue themselves,
  -- each of them replies, and the depth is below the maximal one, all the events that are left with the
  -- sub-agents' invocations go to the queue of the stream, one sub-agent after the other, and nothing
  -- else does or goes to the collector of the parent's turn, whatever the stream mode.
  pub execute-streams :
      (dumps : List (String × String) → String) (replied : SubAgentSpec → SubInvocation)
      → (current : ℕ) (p : HierarchicalPlan) (h : HierarchicalPlanner)
      → leb h.max_depth current ≡ false
      → All Heard p.sub_agents
      → All (Replies h.stream_mode (sub_call names turn_of) replied) p.sub_agents
      → (execute dumps current (sub_call names turn_of) p h).0 ≡ all_events p.sub_agents
  execute-streams dumps replied current p h below heard all =
      ap (λ (r : Asked PlanResult). r.0)
        (execute-gathers dumps (sub_call names turn_of) replied current p h below all)
      ∙ acts_of_all-nested h.stream_mode p.sub_agents heard
