-- ===== src/AgentLoop/Steps.antt =====
-- loop/agent_loop.py: how a turn starts, asks back and ends. The ids of spans are drawn from uuid4; the
-- first twelve letters of an id and the decimals of a number are parameters too.
use kaos_agents.Prelude.{
  List, [], ℕ, true, Option, none, some, [], ◌∷◌, ◌++◌, String, if◌then◌else◌,
}
use Prim.Native.String.{◌++◌ as append}
use kaos_agents.Prelude.Equality.{string_key, nat_key}
use kaos_agents.Escalation.People.{
  EscalationPolicy, EscalationDecision, EscalationKind, kind_value, evaluate_intent,
}
use kaos_agents.Intent.{IntentResult, pattern_value, as_user_intent, clarification_message}
use kaos_agents.Events.{
  Value, turn, step, string, number, intent_classified, escalation_required, turn_summary,
  emit_event, event_of, span_start, span_complete, span_error, next_span_id,
}
use kaos_agents.AgentLoop.Usage.{or_else, emit_planner_usage, sum_usage_from_collector}
use kaos_agents.AgentLoop.Types.{TurnPlan, set_cost_usd}
use kaos_agents.AgentLoop.State.{TurnState, on_scope, on_invocation}

abbrev pub kind_or : String → Option EscalationKind → String
kind_or default none = default
kind_or default (some kind) = kind_value kind

module _ (short : String → String) {P : Type 0} where
  -- An event of the turn that is kept among its escalations too.
  unfoldable pub escalate :
      EscalationDecision → (default reason : String) → TurnState P → TurnState P
  unfolding emit_event event_of
  escalate d default reason s =
      let payload =
        escalation_required (kind_or default d.kind) (or_else d.reason reason) s.invocation.id
          (append "esc_" (short s.invocation.id)) in
      record s {
        scope = emit_event payload s.scope;
        invocation = record s.invocation {
          escalations = s.invocation.escalations ++ event_of s.scope.emitter payload ∷ [];
        };
      }

  -- `_emit_escalation_for_clarification`.
  unfoldable pub emit_escalation_for_clarification :
      Option EscalationPolicy → IntentResult → String → TurnState P → TurnState P
  emit_escalation_for_clarification none intent message s = s
  emit_escalation_for_clarification (some policy) intent message s =
      let decision = evaluate_intent (as_user_intent intent) policy in
      if decision.escalate then escalate decision "clarification_needed" message s else s

module _ (new_span_id : ℕ → String) (short : String → String) {P : Type 0} where
  -- Step 2, where the intent asks for a clarification: the turn ends.
  unfoldable pub ask_back :
      Option EscalationPolicy → IntentResult → String → TurnState P → TurnState P
  unfolding on_scope on_invocation
  ask_back policy intent turn_id s =
      let message = clarification_message intent.ambiguities in
      let step_id = next_span_id new_span_id s.scope in
      let stepped =
        on_scope
          (span_start new_span_id step "step.clarification_required"
            (("reason", string message) ∷ []))
          s in
      let asked = emit_escalation_for_clarification short policy intent message stepped in
      on_scope
        (λ scope.
          span_complete turn turn_id "" []
            (span_error step step_id "ClarificationRequired" message scope))
        (on_invocation (λ t. record t { phase = some "skeleton"; clarification_required = true })
          asked)

abbrev pub turn_attributes : TurnPlan → List (String × Value)
turn_attributes p =
    ("session_id", string p.session_id)
    ∷ ("run_id", string p.run_id)
    ∷ ("turn_number", number p.turn_number)
    ∷ ("trigger_kind", string p.trigger_kind)
    ∷ []

module _ (new_span_id : ℕ → String) (decimal : ℕ → String) {P : Type 0} where
  -- Step 1: the turn's span, the intent, and the usage of its extraction.
  unfoldable pub open_turn : TurnPlan → TurnState P → TurnState P
  unfolding on_scope
  open_turn p s =
      on_scope
        (λ scope. emit_planner_usage p.intent_usage "intent" (
          emit_event (intent_classified (pattern_value p.intent.pattern) p.intent.confidence) (
            span_start new_span_id turn (append "turn." (decimal p.turn_number)) (turn_attributes p)
              scope)))
        s

module _ {P : Type 0} where
  -- Steps 7 and 8.
  unfoldable pub close_turn : TurnPlan → String → TurnState P → TurnState P
  unfolding set_cost_usd
  close_turn p turn_id s =
      let usage = sum_usage_from_collector s.scope in
      record s {
        scope = span_complete turn turn_id "" [] (
            emit_event (turn_summary s.invocation.output (pattern_value p.intent.pattern) usage)
              s.scope);
        invocation = set_cost_usd usage.cost_usd (record s.invocation { usage = usage });
      }
