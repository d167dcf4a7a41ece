-- ===== src/AgentLoop/Brackets.antt =====
-- loop/agent_loop.py: the span of a turn that works.
use kaos_agents.Prelude.{
  ℕ, ◌<◌, ◌≡◌, refl, ap, ◌∙◌, Bool, true, false, Option, none, List, [], ◌∷◌, ◌++◌, String, arith,
  if◌then◌else◌,
}
use Prim.Native.String.{◌++◌ as append}
use kaos_agents.Prelude.Equality.{◌==◌, string_key, contains}
use kaos_agents.Prelude.Reply.{Reply, replies, fails, cancelled}
use kaos_agents.Events.{turn_summary, Payload, KaosEvent, turn, emit_event}
use kaos_agents.Events.Log.{emit_event-IsLog, span_complete-IsLog, payloads, starts, completes}
use kaos_agents.Memory.Institutional.{KnowledgeBase}
use kaos_agents.AgentLoop.Types.{AgentLoop, TurnPlan, TurnInvocation}
use kaos_agents.AgentLoop.State.{TurnState, and_then, modify, on_invocation, ◌>>◌}
use kaos_agents.AgentLoop.Usage.{sum_usage_from_collector}
use kaos_agents.Intent.{pattern_value}
use kaos_agents.AgentLoop.Steps.{turn_attributes, open_turn, close_turn}
use kaos_agents.AgentLoop.Forward.{
  Names, do_work, run_turn, start_state, conclude_turn, forward_turn,
}
use kaos_agents.AgentLoop.Keeps.{do_work-Keeps}
use kaos_agents.AgentLoop.Acts.{finalize-events, Collaborators, Collaborators-Keep}
use kaos_agents.AgentLoop.Script.{open_turn-IsLog}
use kaos_agents.AgentLoop.Within.{IsTame, IsWithin, act-IsWithin, own-IsWithin}

module _ (names : Names) {P : Type 0} (a : AgentLoop P) (p : TurnPlan) where
  abbrev opened_id : String
  opened_id = names.new_span_id p.emitter.drawn

  abbrev turn_start : Payload
  turn_start =
      starts turn opened_id none (append "turn." (names.decimal p.turn_number)) (turn_attributes p)

  -- The events of a turn that did not return: its span is still open.
  abbrev pub IsLeftOpen : TurnState P → Type 0
  IsLeftOpen s =
      ((middle : List Payload) × (payloads s.invocation.events ≡ turn_start ∷ middle))
      × ((above : List String) × (s.scope.collector.span_stack ≡ opened_id ∷ above))

  abbrev pub IsBracketed : Reply (TurnInvocation P) × TurnState P → Type 0
  IsBracketed (replies t, s) =
      ((middle : List Payload) × (payloads t.events
          ≡ turn_start ∷ middle ++ completes turn opened_id "" [] ∷ []))
      × (s.scope.collector.span_stack ≡ [])
  IsBracketed (fails message, s) = IsLeftOpen s
  IsBracketed (cancelled, s) = IsLeftOpen s

  conclude_turn-IsBracketed :
      (r : Reply (Unit {0}) × TurnState P)
      → IsWithin opened_id turn_start p.emitter.drawn r.1.scope
      → IsBracketed (conclude_turn names a p (and_then r (λ _. modify (close_turn p opened_id))))
  unfolding conclude_turn on_invocation close_turn contains
  conclude_turn-IsBracketed (replies x, s) w =
      let n = s.scope.emitter.drawn in
      let x =
        turn_summary s.invocation.output (pattern_value p.intent.pattern)
          (sum_usage_from_collector s.scope) in
      let summary =
        emit_event-IsLog (turn_start ∷ w.0.0) (opened_id ∷ w.1.0) n s.scope (w.0.1, w.1.1, refl)
          x in
      let closed =
        span_complete-IsLog _ (opened_id ∷ w.1.0) n (emit_event x s.scope) summary opened_id []
          w.1.0 refl refl turn "" [] in
      ((w.0.0 ++ x ∷ [], ap payloads (finalize-events _ _ _) ∙ closed.0), closed.1)
  conclude_turn-IsBracketed (fails message, s) w =
      ((w.0.0, ap payloads (finalize-events _ _ _) ∙ w.0.1), w.1)
  conclude_turn-IsBracketed (cancelled, s) w =
      ((w.0.0, ap payloads (finalize-events _ _ _) ∙ w.0.1), w.1)

  not_asking :
      (b : Bool) (m n : Reply (Unit {0}) × TurnState P)
      → b ≡ false
      → IsBracketed (conclude_turn names a p n)
      → IsBracketed (conclude_turn names a p (if b then m else n))
  not_asking true m n e h = cc
  not_asking false m n e h = h

  -- Where no collaborator emits or pushes a span of the turn's own id, and no later id is drawn equal to
  -- it: a turn whose intent is clear and which returns starts with the start of its span and ends with
  -- the completion of that span, and leaves no span open. One that raises or is cancelled starts with it
  -- too, but the span is still open in the end.
  pub forward_turn-IsBracketed :
      (queue : Option (List KaosEvent)) (id : String) (kb : Option KnowledgeBase)
      → p.intent.requires_clarification ≡ false
      → ((n : ℕ) → p.emitter.drawn < n → (opened_id == names.new_span_id n) ≡ false)
      → Collaborators (IsTame opened_id) a p
      → IsBracketed (forward_turn names a p queue id kb)
  unfolding forward_turn run_turn start_state
  forward_turn-IsBracketed queue id kb clear distinct tame =
      let begin = start_state names a p queue id kb in
      let opened = open_turn names.new_span_id names.decimal p begin in
      let log = open_turn-IsLog names p begin (refl, refl, refl) in
      let Within = IsWithin opened_id turn_start p.emitter.drawn in
      not_asking p.intent.requires_clarification _
        ((do_work names a p >> modify (close_turn p opened_id)) opened) clear
        (conclude_turn-IsBracketed (do_work names a p opened) (
          do_work-Keeps Within P names
            (own-IsWithin opened_id turn_start p.emitter.drawn names.new_span_id distinct P) a p
            (Collaborators-Keep Within P (IsTame opened_id)
              (act-IsWithin opened_id turn_start p.emitter.drawn) a p tame)
            opened ((_, log.0), ([], log.1), omega (arith, log.2))))
