-- ===== src/AgentLoop/Streams.antt =====
-- loop/agent_loop.py, `stream`: what a consumer sees of a turn.
use kaos_agents.Prelude.{
  ◌≡◌, refl, ap, ◌∙◌, sym, Option, none, some, List, [], ◌∷◌, ◌++◌, String, map,
}
use kaos_agents.Prelude.Equality.{string_key}
use kaos_agents.Prelude.Reply.{Reply, replies, fails, cancelled}
use kaos_agents.Events.{Payload, Scope, KaosEvent, emit_event, collect, put}
use kaos_agents.Memory.Institutional.{KnowledgeBase}
use kaos_agents.AgentLoop.Types.{AgentLoop, TurnPlan, Act, emits, pushes, queues, finds}
use kaos_agents.AgentLoop.State.{TurnState, act, on_invocation}
use kaos_agents.AgentLoop.Forward.{
  Names, run_turn, start_state, conclude_turn, forward_turn, queued_items, yielded, stream_turn,
}
use kaos_agents.AgentLoop.Whole.{run_turn-Keeps}
use kaos_agents.AgentLoop.Acts.{finalize-events, Collaborators, Collaborators-Keep}

-- An act that puts nothing into the queue behind the collector's back.
abbrev pub IsHeard : Act → Type 0
IsHeard (queues e) = ⊥
IsHeard _ = Unit {0}

abbrev Mirrors : Scope → Type 0
Mirrors s = s.collector.queue ≡ some s.collector.events

collect-Mirrors :
    (x : KaosEvent) (s : Scope)
    → Mirrors s
    → Mirrors (record s { collector = collect x s.collector })
unfolding collect
collect-Mirrors x s m = ap (put x) m

emit_event-Mirrors : (x : Payload) (s : Scope) → Mirrors s → Mirrors (emit_event x s)
unfolding emit_event collect
emit_event-Mirrors x s m = ap (put _) m

act-Mirrors :
    {P : Type 0} (x : Act)
    → IsHeard x
    → (s : TurnState P) → Mirrors s.scope
    → Mirrors (act x s).scope
unfolding act
act-Mirrors (emits x) h s m = emit_event-Mirrors x s.scope m
act-Mirrors (pushes e) h s m = collect-Mirrors e s.scope m
act-Mirrors (queues e) h s m = elim h [ ]
act-Mirrors (finds f) h s m = m

pub yielded-map :
    (events : List KaosEvent) (rest : List (Option KaosEvent))
    → yielded (map some events ++ none ∷ rest) ≡ events
unfolding yielded
yielded-map [] rest = refl
yielded-map (e ∷ events) rest = ap (λ l. e ∷ l) (yielded-map events rest)

module _ (names : Names) {P : Type 0} (a : AgentLoop P) (p : TurnPlan) where
  run_turn-Mirrors :
      (s : TurnState P)
      → Collaborators IsHeard a p
      → Mirrors s.scope
      → Mirrors (run_turn names a p s).1.scope
  run_turn-Mirrors s c =
      run_turn-Keeps Mirrors emit_event-Mirrors (λ n t m. m) names P a p
        (Collaborators-Keep Mirrors P IsHeard act-Mirrors a p c) s

  -- The events that are left with the invocation are the collector's, whatever the turn ended with.
  conclude_turn-events :
      (r : Reply (Unit {0}) × TurnState P)
      → ((conclude_turn names a p r).1.invocation.events ≡ r.1.scope.collector.events)
        × ((conclude_turn names a p r).1.scope ≡ r.1.scope)
  unfolding conclude_turn on_invocation
  conclude_turn-events (replies x, s) = (finalize-events _ _ _, refl)
  conclude_turn-events (fails message, s) = (finalize-events _ _ _, refl)
  conclude_turn-events (cancelled, s) = (finalize-events _ _ _, refl)

  -- Where no collaborator puts an event into the queue itself, a consumer of the stream sees, in order,
  -- the events that are left with the turn's invocation, whether the turn returns, raises or is
  -- cancelled.
  pub stream_turn-eq-events :
      (id : String) (kb : Option KnowledgeBase)
      → Collaborators IsHeard a p
      → stream_turn names a p id kb ≡ (forward_turn names a p (some []) id kb).1.invocation.events
  unfolding stream_turn queued_items forward_turn start_state
  stream_turn-eq-events id kb c =
      let begin = start_state names a p (some []) id kb in
      let ended = run_turn names a p begin in
      let concluded = conclude_turn-events ended in
      let mirrors : Mirrors ended.1.scope = run_turn-Mirrors begin c refl in
      rw (concluded.1, mirrors) (yielded-map ended.1.scope.collector.events [] ∙ sym concluded.0)
