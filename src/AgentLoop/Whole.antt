-- ===== src/AgentLoop/Whole.antt =====
-- loop/agent_loop.py: what every event keeps, and so a whole turn.
use kaos_agents.Prelude.{
  ℕ, inl, inr, Bool, true, false, Option, none, some, List, String, Bool-cases, if◌then◌else◌, ◌+◌,
}
use kaos_agents.Prelude.Equality.{◌==◌, string_key}
use kaos_agents.Prelude.Reply.{Reply, replies}
use kaos_agents.Escalation.People.{EscalationPolicy, evaluate_intent}
use kaos_agents.Intent.{IntentResult, as_user_intent}
use kaos_agents.Events.{
  next_span_id, Payload, Scope, emit_event, span_start, span_complete, span_error, SpanSubject,
  Value,
}
use kaos_agents.AgentLoop.Types.{AgentLoop, TurnPlan, ToolExecution}
use kaos_agents.AgentLoop.State.{◌>>◌, modify, TurnState, on_scope, on_invocation}
use kaos_agents.AgentLoop.Report.{tool_call_span}
use kaos_agents.AgentLoop.Steps.{emit_escalation_for_clarification, ask_back, open_turn, close_turn}
use kaos_agents.AgentLoop.Forward.{Names, do_work, run_turn}
use kaos_agents.AgentLoop.Keeps.{
  bind-Keeps, KeepEvents, KeepCollaborators, do_work-Keeps, emit_planner_usage-Keeps,
  escalate-Keeps,
}

module _ (I : Scope → Type 0) (every : (x : Payload) (s : Scope) → I s → I (emit_event x s))
    (draws : (n : ℕ) (s : Scope)
      → I s
      → I (record s { emitter = record s.emitter { drawn = n } })) where
  span_start-Keeps :
      (new_span_id : ℕ → String) (subject : SpanSubject) (name : String)
      (attributes : List (String × Value)) (s : Scope)
      → I s
      → I (span_start new_span_id subject name attributes s)
  unfolding span_start
  span_start-Keeps new_span_id subject name attributes s i =
      every _ (record s { emitter = record s.emitter { drawn = s.emitter.drawn + 1 } })
        (draws (s.emitter.drawn + 1) s i)

  span_complete-Keeps :
      (subject : SpanSubject) (id name : String) (attributes : List (String × Value)) (s : Scope)
      → I s
      → I (span_complete subject id name attributes s)
  unfolding span_complete
  span_complete-Keeps subject id name attributes s i = every _ s i

  span_error-Keeps :
      (subject : SpanSubject) (id error message : String) (s : Scope)
      → I s
      → I (span_error subject id error message s)
  unfolding span_error
  span_error-Keeps subject id error message s i = every _ s i

  own-Keeps : (new_span_id : ℕ → String) (P : Type 0) → KeepEvents I P new_span_id
  unfolding tool_call_span
  own-Keeps new_span_id P = record { plain = λ x h s i. every x s i; calls = calls }
    where
      calls : (e : ToolExecution) (s : Scope) → I s → I (tool_call_span new_span_id e s)
      calls e s i = elim (Bool-cases (e.tool_name == "")) [
        | inl unnamed ↦ rw unnamed i
        | inr named ↦
            rw named (span_complete-Keeps _ _ _ _ _ (span_start-Keeps new_span_id _ _ _ s i))
      ]

  if-Keeps :
      {P : Type 0} (b : Bool) (s t : TurnState P)
      → I s.scope
      → I t.scope
      → I (if b then s else t).scope
  if-Keeps true s t i j = i
  if-Keeps false s t i j = j

  run-if-Keeps :
      {P : Type 0} (b : Bool) (m : TurnState P) (n : Reply (Unit {0}) × TurnState P)
      → I m.scope
      → I n.1.scope
      → I (if b then (replies tt, m) else n).1.scope
  run-if-Keeps true m n i j = i
  run-if-Keeps false m n i j = j

  module _ (names : Names) (P : Type 0) (a : AgentLoop P) (p : TurnPlan) where
    open_turn-Keeps :
        (s : TurnState P) → I s.scope → I (open_turn names.new_span_id names.decimal p s).scope
    unfolding open_turn on_scope
    open_turn-Keeps s i =
        emit_planner_usage-Keeps I P names (own-Keeps names.new_span_id P) p.intent_usage "intent" _
          (every _ _ (span_start-Keeps names.new_span_id _ _ _ s.scope i))

    asking-Keeps :
        (policy : Option EscalationPolicy) (intent : IntentResult) (message : String)
        (s : TurnState P)
        → I s.scope
        → I (emit_escalation_for_clarification names.short policy intent message s).scope
    unfolding emit_escalation_for_clarification
    asking-Keeps none intent message s i = i
    asking-Keeps (some policy) intent message s i =
        let decision = evaluate_intent (as_user_intent intent) policy in
        if-Keeps decision.escalate _ s
          (escalate-Keeps I P names (own-Keeps names.new_span_id P) decision "clarification_needed"
            message s i)
          i

    ask_back-Keeps :
        (turn_id : String) (s : TurnState P)
        → I s.scope
        → I (ask_back names.new_span_id names.short a.escalation_policy p.intent turn_id s).scope
    unfolding ask_back on_scope on_invocation
    ask_back-Keeps turn_id s i = span_complete-Keeps _ _ _ _ _ (
        span_error-Keeps _ _ _ _ _ (
          asking-Keeps a.escalation_policy p.intent _ _
            (span_start-Keeps names.new_span_id _ _ _ s.scope i)))

    close_turn-Keeps :
        (turn_id : String) (s : TurnState P) → I s.scope → I (close_turn p turn_id s).scope
    unfolding close_turn
    close_turn-Keeps turn_id s i = span_complete-Keeps _ _ _ _ _ (every _ s.scope i)

    pub run_turn-Keeps :
        KeepCollaborators I P a p → (s : TurnState P) → I s.scope → I (run_turn names a p s).1.scope
    unfolding run_turn
    run_turn-Keeps others s i =
        let turn_id = next_span_id names.new_span_id s.scope in
        let opened = open_turn-Keeps s i in
        run-if-Keeps p.intent.requires_clarification _
          ((do_work names a p >> modify (close_turn p turn_id)) _) (ask_back-Keeps turn_id _ opened)
          (bind-Keeps I P (do_work names a p) (λ _. modify (close_turn p turn_id))
            (do_work-Keeps I P names (own-Keeps names.new_span_id P) a p others)
            (λ _. close_turn-Keeps turn_id) _ opened)
