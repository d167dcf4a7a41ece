-- ===== src/AgentLoop/Asking.antt =====
-- loop/agent_loop.py: a turn whose intent asks for a clarification.
use mathlib.Core.List.{append_assoc}
use kaos_agents.Prelude.{
  ℕ, ◌+◌, ◌≡◌, subst, ◌∙◌, refl, Bool, true, false, Option, none, some, List, [], ◌∷◌, ◌++◌, String,
  if◌then◌else◌,
}
use kaos_agents.Prelude.Equality.{◌==◌, string_key, contains}
use kaos_agents.Prelude.Reply.{Reply, replies, fails, cancelled}
use Prim.Native.String.{◌++◌ as append}
use kaos_agents.Intent.{pattern_value, clarification_message}
use kaos_agents.Events.Log.{
  payloads, starts, completes, errs, IsLog, span_start-IsLog, span_complete-IsLog, span_error-IsLog,
}
use kaos_agents.Events.{
  zero_usage, Payload, KaosEvent, Value, turn, step, string, number, intent_classified, span_start,
  span_error, last,
}
use kaos_agents.Memory.Institutional.{KnowledgeBase}
use kaos_agents.AgentLoop.Types.{AgentLoop, TurnPlan, TurnInvocation, finalize}
use kaos_agents.AgentLoop.State.{TurnState, on_scope, on_invocation}
use kaos_agents.AgentLoop.Steps.{emit_escalation_for_clarification, open_turn, ask_back}
use kaos_agents.AgentLoop.Billing.{IsUnbilled, asking-IsUnbilled}
use kaos_agents.AgentLoop.Forward.{Names, run_turn, start_state, conclude_turn, forward_turn}
use kaos_agents.AgentLoop.Script.{
  observes, opening_events, escalates, asking-IsLog, asking-escalations, asking-output,
  open_turn-IsLog,
}

module _ (names : Names) {P : Type 0} (a : AgentLoop P) (p : TurnPlan) (id : String) where
  abbrev turn_id : String
  turn_id = names.new_span_id p.emitter.drawn

  abbrev step_id : String
  step_id = names.new_span_id (p.emitter.drawn + 1)

  abbrev message : String
  message = clarification_message p.intent.ambiguities

  ask_back-IsLog :
      (ps : List Payload) (s : TurnState P) (n : ℕ)
      → s.scope.emitter.drawn ≡ n
      → (turn_id == names.new_span_id n) ≡ false
      → IsLog ps (turn_id ∷ []) n s.scope
      → IsLog
          ((((ps
                  ++ starts step
                      (names.new_span_id n)
                      (some turn_id)
                      "step.clarification_required"
                      (("reason", string message) ∷ [])
                    ∷ [])
                ++ escalates names.short p.intent s.invocation.id a.escalation_policy)
              ++ errs step (names.new_span_id n) "ClarificationRequired" message ∷ [])
            ++ completes turn turn_id "" [] ∷ [])
          []
          (n + 1)
          (ask_back names.new_span_id names.short a.escalation_policy p.intent turn_id s).scope
  unfolding ask_back on_scope on_invocation last contains
  ask_back-IsLog ps s n here =
      subst
        (λ m.
          (turn_id == names.new_span_id m) ≡ false
          → IsLog ps (turn_id ∷ []) m s.scope
          → IsLog
              ((((ps
                      ++ starts step (names.new_span_id m) (some turn_id)
                          "step.clarification_required" attributes
                        ∷ [])
                    ++ escalates names.short p.intent s.invocation.id a.escalation_policy)
                  ++ errs step (names.new_span_id m) "ClarificationRequired" message ∷ [])
                ++ completes turn turn_id "" [] ∷ [])
              [] (m + 1)
              (ask_back names.new_span_id names.short a.escalation_policy p.intent turn_id s).scope)
        here logged
    where
      attributes : List (String × Value)
      attributes = ("reason", string message) ∷ []

      logged :
          (turn_id == names.new_span_id s.scope.emitter.drawn) ≡ false
          → IsLog ps (turn_id ∷ []) s.scope.emitter.drawn s.scope
          → IsLog
              ((((ps
                      ++ starts step
                          (names.new_span_id s.scope.emitter.drawn)
                          (some turn_id)
                          "step.clarification_required"
                          attributes
                        ∷ [])
                    ++ escalates names.short p.intent s.invocation.id a.escalation_policy)
                  ++ errs step
                      (names.new_span_id s.scope.emitter.drawn)
                      "ClarificationRequired"
                      message
                    ∷ [])
                ++ completes turn turn_id "" [] ∷ [])
              []
              (s.scope.emitter.drawn + 1)
              (ask_back names.new_span_id names.short a.escalation_policy p.intent turn_id s).scope
      logged distinct log =
          let n = s.scope.emitter.drawn in
          let id = names.new_span_id n in
          let name : String = "step.clarification_required" in
          let stepped = on_scope (span_start names.new_span_id step name attributes) s in
          let asked =
            emit_escalation_for_clarification names.short a.escalation_policy p.intent message
              stepped in
          let started =
            span_start-IsLog ps (turn_id ∷ []) n s.scope log names.new_span_id step name
              attributes in
          let asking =
            asking-IsLog _ (turn_id ∷ id ∷ []) (n + 1) names.short p.intent stepped started
              a.escalation_policy in
          let erred = span_error step id "ClarificationRequired" message asked.scope in
          span_complete-IsLog _ (turn_id ∷ []) (n + 1) erred
            (span_error-IsLog _ (turn_id ∷ id ∷ []) (n + 1) asked.scope asking id (turn_id ∷ []) []
              refl (rw distinct refl) step "ClarificationRequired" message)
            turn_id [] [] refl refl turn "" []

  -- The events of such a turn, in order.
  abbrev pub clarification_events : List Payload
  clarification_events =
      starts turn turn_id none (append "turn." (names.decimal p.turn_number)) (
          ("session_id", string p.session_id)
          ∷ ("run_id", string p.run_id)
          ∷ ("turn_number", number p.turn_number)
          ∷ ("trigger_kind", string p.trigger_kind)
          ∷ [])
        ∷ intent_classified (pattern_value p.intent.pattern) p.intent.confidence
        ∷ observes p.intent_usage "intent"
      ++ (starts step step_id (some turn_id) "step.clarification_required"
            (("reason", string message) ∷ [])
          ∷ escalates names.short p.intent id a.escalation_policy)
      ++ (errs step step_id "ClarificationRequired" message ∷ completes turn turn_id "" [] ∷ [])

  abbrev pub AsksBack : Reply (TurnInvocation P) × TurnState P → Type 0
  AsksBack (replies t, s) =
      (payloads t.events ≡ clarification_events)
      × (payloads t.escalations ≡ escalates names.short p.intent id a.escalation_policy)
      × (s.scope.collector.span_stack ≡ [])
      × (t.output ≡ "")
      × (t.usage ≡ zero_usage)
      × (t.clarification_required ≡ true)
  AsksBack (fails m, s) = ⊥
  AsksBack (cancelled, s) = ⊥

  asks :
      (b : Bool) (m n : Reply (Unit {0}) × TurnState P)
      → b ≡ true
      → AsksBack (conclude_turn names a p m)
      → AsksBack (conclude_turn names a p (if b then m else n))
  asks true m n e h = h
  asks false m n e h = cc

  concluded :
      (s : TurnState P)
      → payloads s.scope.collector.events ≡ clarification_events
      → payloads s.invocation.escalations ≡ escalates names.short p.intent id a.escalation_policy
      → s.scope.collector.span_stack ≡ []
      → IsUnbilled s.invocation
      → s.invocation.output ≡ ""
      → s.invocation.clarification_required ≡ true
      → AsksBack (conclude_turn names a p (replies tt, s))
  unfolding conclude_turn finalize on_invocation
  concluded s events escalations stack u output flag =
      rw (u.3) (events, escalations, stack, output, u.0, flag)

  -- A turn whose intent asks for a clarification returns, whatever its planner, its judge and its policies
  -- are: it emits its own span around the intent, the usage of the intent's extraction if there is any, and
  -- a step's span that starts under the turn's and ends with an error, with the escalation between them
  -- exactly if the escalation policy escalates the intent; no span is left open, the escalation is kept in
  -- the invocation, and the output is empty and the usage zero. The two ids that it draws must differ.
  pub forward_turn-AsksBack :
      (queue : Option (List KaosEvent)) (kb : Option KnowledgeBase)
      → p.intent.requires_clarification ≡ true
      → (turn_id == step_id) ≡ false
      → AsksBack (forward_turn names a p queue id kb)
  unfolding forward_turn run_turn start_state open_turn on_scope ask_back on_invocation
  forward_turn-AsksBack queue kb unclear distinct =
      let begin = start_state names a p queue id kb in
      let opened = open_turn names.new_span_id names.decimal p begin in
      let opening = open_turn-IsLog names p begin (refl, refl, refl) in
      let asked =
        ask_back-IsLog (opening_events names p) opened (p.emitter.drawn + 1) opening.2 distinct
          opening in
      let ended =
        ask_back names.new_span_id names.short a.escalation_policy p.intent turn_id opened in
      asks p.intent.requires_clarification (replies tt, ended) _ unclear
        (concluded ended (asked.0 ∙ simp append_assoc)
          (asking-escalations names.short p.intent _ a.escalation_policy) asked.1
          (asking-IsUnbilled names.short a.escalation_policy p.intent message _
            (refl, refl, refl, refl))
          (asking-output names.short a.escalation_policy p.intent message _) refl)
