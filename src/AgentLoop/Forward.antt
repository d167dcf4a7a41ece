-- ===== src/AgentLoop/Forward.antt =====
-- loop/agent_loop.py: `_run_8_step_turn`, `forward` and `stream`.
use kaos_agents.Prelude.{
  ℕ, false, Option, none, some, List, [], ◌∷◌, ◌++◌, String, map, if◌then◌else◌,
}
use kaos_agents.Prelude.Reply.{Reply, replies, fails, cancelled}
use kaos_agents.Events.{KaosEvent, EventCollector, zero_usage, next_span_id}
use kaos_agents.Memory.Institutional.{KnowledgeBase}
use kaos_agents.AgentLoop.Types.{TurnInvocation, TurnPlan, raised, interrupted, AgentLoop, finalize}
use kaos_agents.AgentLoop.State.{TurnState, Effect, ◌>>=◌, ◌>>◌, modify, on_invocation}
use kaos_agents.AgentLoop.Steps.{open_turn, ask_back, close_turn}
use kaos_agents.AgentLoop.Work.{plan_and_execute, run_termination_judge, maybe_promote_findings}

-- `_open_collector`: the queue is there where the turn is streamed.
abbrev pub open_collector : Option (List KaosEvent) → EventCollector
open_collector queue = record { events = []; span_stack = []; queue = queue }

abbrev pub new_invocation : {P : Type 0} → String → TurnPlan → String → TurnInvocation P
new_invocation id p agent_envelope_hash = record {
  id = id;
  session_id = p.session_id;
  run_id = p.run_id;
  turn_number = p.turn_number;
  agent_envelope_hash = agent_envelope_hash;
  plan = none;
  output = "";
  events = [];
  usage = zero_usage;
  cost_budget = record { total_usd = none; spent_usd = 0 };
  cost_usd = 0;
  escalations = [];
  error = none;
  finished = false;
  phase = none;
  clarification_required = false;
  selected_planner = none;
  termination_decision_kind = none;
  findings = [];
  promoted_findings = none;
}

-- What the turn draws and makes up: span ids, the start of an id, decimals, ids of entries.
pub record Names : Type 0 where
  pub new_span_id : ℕ → String
  pub short : String → String
  pub decimal : ℕ → String
  pub made_id : ℕ → String → String

module _ (names : Names) {P : Type 0} (a : AgentLoop P) (p : TurnPlan) where
  -- Steps 3 to 6.
  unfoldable pub do_work : Effect P
  do_work = do
    result ← plan_and_execute names.new_span_id a p
    run_termination_judge names.short a result
    maybe_promote_findings names.made_id a.promotion_policy p.intent

  -- `_run_8_step_turn`.
  unfoldable pub run_turn : Effect P
  unfolding do_work
  run_turn s =
      let turn_id = next_span_id names.new_span_id s.scope in
      let opened = open_turn names.new_span_id names.decimal p s in
      if p.intent.requires_clarification
      then (
        replies tt,
        ask_back names.new_span_id names.short a.escalation_policy p.intent turn_id opened,
      )
      else (do_work >> modify (close_turn p turn_id)) opened

  unfoldable pub start_state : Option (List KaosEvent) → String → Option KnowledgeBase → TurnState P
  start_state queue id knowledge_base = record {
    scope = record { emitter = p.emitter; collector = open_collector queue };
    invocation = new_invocation id p a.agent_envelope_hash;
    knowledge_base = knowledge_base;
  }

  -- What is done to the invocation after the turn: it is returned, or tagged onto the exception.
  unfoldable pub conclude_turn :
      Reply (Unit {0}) × TurnState P → Reply (TurnInvocation P) × TurnState P
  unfolding finalize on_invocation
  conclude_turn (replies _, s) =
      let done =
        on_invocation (λ t. finalize t.output none (record t { events = s.scope.collector.events }))
          s in
      (replies done.invocation, done)
  conclude_turn (fails message, s) = (
    fails message,
    on_invocation
        (λ t.
          finalize "" (some (raised message))
            (record t { events = s.scope.collector.events; error = some (raised message) }))
        s,
  )
  conclude_turn (cancelled, s) = (
    cancelled,
    on_invocation
        (λ t.
          finalize "" (some interrupted)
            (record t { events = s.scope.collector.events; error = some interrupted }))
        s,
  )

  -- `forward`, after `prepare_turn`.
  unfoldable pub forward_turn :
      Option (List KaosEvent)
      → String
      → Option KnowledgeBase
      → Reply (TurnInvocation P) × TurnState P
  unfolding run_turn start_state conclude_turn
  forward_turn queue id knowledge_base =
      conclude_turn (run_turn (start_state queue id knowledge_base))

  -- The queue of `stream` when its task has ended, with the sentinel.
  unfoldable pub queued_items : String → Option KnowledgeBase → List (Option KaosEvent)
  unfolding forward_turn
  queued_items id knowledge_base =
      let queue = (forward_turn (some []) id knowledge_base).1.scope.collector.queue in
      map some (elim queue [ none ↦ [] | some events ↦ events ]) ++ none ∷ []

-- The loop of `stream`: what is taken from the queue until the sentinel.
unfoldable pub yielded : List (Option KaosEvent) → List KaosEvent
yielded [] = []
yielded (none ∷ items) = []
yielded (some e ∷ items) = e ∷ yielded items

unfoldable pub stream_turn :
    Names → {P : Type 0} → AgentLoop P → TurnPlan → String → Option KnowledgeBase → List KaosEvent
unfolding queued_items yielded
stream_turn names a p id knowledge_base = yielded (queued_items names a p id knowledge_base)
