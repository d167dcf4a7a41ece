-- ===== src/AgentLoop/Script.antt =====
-- loop/agent_loop.py: what a turn emits at its start and where it asks back, as lists of payloads.
use mathlib.Core.List.{append-nil, map-append}
use kaos_agents.Prelude.{
  ℕ, ◌+◌, ◌≡◌, refl, sym, inl, inr, Bool, true, false, Option, none, some, List, [], ◌∷◌, ◌++◌,
  String, arith, Bool-cases, if◌then◌else◌,
}
use kaos_agents.Prelude.Equality.{string_key}
use Prim.Native.String.{◌++◌ as append}
use kaos_agents.Escalation.People.{EscalationPolicy, evaluate_intent}
use kaos_agents.Intent.{IntentResult, pattern_value, as_user_intent, clarification_message}
use kaos_agents.Events.Log.{payloads, starts, IsLog, emit_event-IsLog, span_start-IsLog}
use kaos_agents.Events.{
  InvocationUsage, Payload, KaosEvent, turn, intent_classified, usage_observed, escalation_required,
  emit_event, event_of, span_start, Scope, last,
}
use kaos_agents.AgentLoop.Types.{TurnPlan}
use kaos_agents.AgentLoop.State.{TurnState, on_scope}
use kaos_agents.AgentLoop.Usage.{or_else, is_zero, emit_planner_usage}
use kaos_agents.AgentLoop.Steps.{
  turn_attributes, kind_or, escalate, emit_escalation_for_clarification, open_turn,
}
use kaos_agents.AgentLoop.Forward.{Names}

-- What is emitted for a usage.
abbrev pub observes : Option InvocationUsage → String → List Payload
observes none label = []
observes (some usage) label = if is_zero usage then [] else usage_observed usage label ∷ []

pub emit_planner_usage-IsLog :
    (ps : List Payload) (stack : List String) (n : ℕ) (s : Scope)
    → IsLog ps stack n s
    → (usage : Option InvocationUsage) (label : String)
    → IsLog (ps ++ observes usage label) stack n (emit_planner_usage usage label s)
unfolding emit_planner_usage
emit_planner_usage-IsLog ps stack n s log none label = rw append-nil log
emit_planner_usage-IsLog ps stack n s log (some usage) label = elim (Bool-cases (is_zero usage)) [
  | inl nothing ↦ rw nothing (rw append-nil log)
  | inr observed ↦ rw observed (emit_event-IsLog ps stack n s log (usage_observed usage label))
]

-- What is emitted where a policy escalates, for the invocation of an id.
module _ (short : String → String) (intent : IntentResult) (id : String) where
  abbrev pub escalates : Option EscalationPolicy → List Payload
  escalates none = []
  escalates (some policy) =
      let decision = evaluate_intent (as_user_intent intent) policy in
      if decision.escalate
      then escalation_required (kind_or "clarification_needed" decision.kind)
          (or_else decision.reason (clarification_message intent.ambiguities)) id
          (append "esc_" (short id))
        ∷ []
      else []

module _ {P : Type 0} (ps : List Payload) (stack : List String) (n : ℕ) where
  pub if-IsLog :
      (b : Bool) (s t : TurnState P) (xs : List Payload)
      → IsLog ps stack n s.scope
      → IsLog (ps ++ xs) stack n t.scope
      → IsLog (ps ++ (if b then xs else [])) stack n (if b then t else s).scope
  if-IsLog true s t xs l m = m
  if-IsLog false s t xs l m = rw append-nil l

  pub asking-IsLog :
      (short : String → String) (intent : IntentResult) (s : TurnState P)
      → IsLog ps stack n s.scope
      → (policy : Option EscalationPolicy)
      → IsLog
          (ps ++ escalates short intent s.invocation.id policy)
          stack
          n
          (emit_escalation_for_clarification short policy intent
            (clarification_message intent.ambiguities)
            s).scope
  unfolding emit_escalation_for_clarification escalate
  asking-IsLog short intent s log none = rw append-nil log
  asking-IsLog short intent s log (some policy) =
      if-IsLog (evaluate_intent (as_user_intent intent) policy).escalate s _ _ log
        (emit_event-IsLog ps stack n s.scope log _)

pub if-escalations :
    {P : Type 0} (b : Bool) (s t : TurnState P) (xs : List Payload)
    → payloads t.invocation.escalations ≡ payloads s.invocation.escalations ++ xs
    → payloads (if b then t else s).invocation.escalations
      ≡ payloads s.invocation.escalations ++ (if b then xs else [])
if-escalations true s t xs e = e
if-escalations false s t xs e = sym (append-nil _)

pub asking-escalations :
    {P : Type 0} (short : String → String) (intent : IntentResult) (s : TurnState P)
    (policy : Option EscalationPolicy)
    → payloads
        (emit_escalation_for_clarification short policy intent
          (clarification_message intent.ambiguities)
          s).invocation.escalations
      ≡ payloads s.invocation.escalations ++ escalates short intent s.invocation.id policy
unfolding emit_escalation_for_clarification escalate event_of
asking-escalations short intent s none = sym (append-nil _)
asking-escalations short intent s (some policy) =
    if-escalations (evaluate_intent (as_user_intent intent) policy).escalate s _ _
      (map-append (λ (e : KaosEvent). e.payload) s.invocation.escalations _)

pub asking-output :
    {P : Type 0} (short : String → String) (policy : Option EscalationPolicy)
    (intent : IntentResult) (message : String) (s : TurnState P)
    → (emit_escalation_for_clarification short policy intent message s).invocation.output
      ≡ s.invocation.output
unfolding emit_escalation_for_clarification escalate
asking-output short none intent message s = refl
asking-output short (some policy) intent message s = ground arith

-- What a turn emits first.
abbrev pub opening_events : Names → TurnPlan → List Payload
opening_events names p =
    ([]
      ++ starts turn (names.new_span_id p.emitter.drawn) none
          (append "turn." (names.decimal p.turn_number)) (turn_attributes p)
        ∷ [])
    ++ intent_classified (pattern_value p.intent.pattern) p.intent.confidence ∷ []
    ++ observes p.intent_usage "intent"

module _ (names : Names) {P : Type 0} (p : TurnPlan) where
  pub open_turn-IsLog :
      (s : TurnState P)
      → IsLog [] [] p.emitter.drawn s.scope
      → IsLog
          (opening_events names p)
          (names.new_span_id p.emitter.drawn ∷ [])
          (p.emitter.drawn + 1)
          (open_turn names.new_span_id names.decimal p s).scope
  unfolding open_turn on_scope last
  open_turn-IsLog s log =
      let n = p.emitter.drawn in
      let name = append "turn." (names.decimal p.turn_number) in
      let started = span_start names.new_span_id turn name (turn_attributes p) s.scope in
      let x = intent_classified (pattern_value p.intent.pattern) p.intent.confidence in
      emit_planner_usage-IsLog _ (names.new_span_id p.emitter.drawn ∷ []) (n + 1)
        (emit_event x started)
        (emit_event-IsLog _ (names.new_span_id p.emitter.drawn ∷ []) (n + 1) started
          (span_start-IsLog [] [] n s.scope log names.new_span_id turn name (turn_attributes p)) x)
        p.intent_usage "intent"
