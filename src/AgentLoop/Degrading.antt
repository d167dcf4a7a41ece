-- ===== src/AgentLoop/Degrading.antt =====
-- loop/agent_loop.py, `_run_termination_judge`, with the judge of termination/judge.py: what it is asked and
-- what comes of its decision. How a decision is worded is a parameter.
use kaos_agents.Prelude.{
  ◌≡◌, refl, ◌∙◌, ◌⊎◌, inl, inr, Bool, false, not, ◌&&◌, Option, none, some, List, [], ◌∷◌, String,
  map, length, ◌+◌, arith, Bool-cases, Option-cases, if◌then◌else◌, length-append,
}
use kaos_agents.Prelude.Equality.{◌==◌, string_key, contains}
use kaos_agents.Prelude.Reply.{replies}
use kaos_agents.Termination.Judge
use kaos_agents.Termination.Judge.{
  DecisionKind, complete, incomplete, budget_exceeded, quality_failed, failure, loop_detected,
  degraded, TerminationJudge, Iteration, DegradationPolicy, maybe_degrade, evaluate, over_budget,
  failure_in, newest, watch, conclude, poor, forward,
}
use kaos_agents.Escalation.People.{
  EscalationPolicy, escalation_kind_key, evaluate_decision, evaluate_decision_lem,
  kind_from_decision,
}
use kaos_agents.Events.{
  KaosEvent, Payload, run_error, evidence_insufficient, grounding_refusal_triggered,
}
use kaos_agents.AgentLoop.Types.{AgentLoop, PlanResult, Verdict, RawDecision, JudgeCall, Asked}
use kaos_agents.AgentLoop.State.{TurnState, perform, on_invocation}
use kaos_agents.AgentLoop.Usage.{sum_usage_from_collector}
use kaos_agents.AgentLoop.Steps.{escalate}
use kaos_agents.AgentLoop.Work.{
  kind_text, output_after, unwrap_decision, ruling_of, escalate_verdict, heed, consult,
  run_termination_judge,
}

-- `kind.value`.
abbrev pub decision_value : DecisionKind → String
decision_value complete = "complete"
decision_value incomplete = "incomplete"
decision_value budget_exceeded = "budget_exceeded"
decision_value quality_failed = "quality_failed"
decision_value failure = "failure"
decision_value loop_detected = "loop_detected"
decision_value degraded = "degraded"
decision_value DecisionKind.escalate = "escalate"

-- What the judge tells apart in an event.
abbrev pub judged_event : Payload → Judge.Event
judged_event run_error = Judge.run_error
judged_event evidence_insufficient = Judge.evidence_insufficient
judged_event grounding_refusal_triggered = Judge.grounding_refusal_triggered
judged_event _ = Judge.other_event

-- The call of the judge: it is the first iteration, and no time is passed, which counts as 0.
unfoldable pub iteration_of : JudgeCall → Iteration
iteration_of c = record {
  cost_usd = c.usage.cost_usd;
  iteration = 1;
  wall_seconds = 0;
  partial_text = c.partial_text;
  events = map (λ (e : KaosEvent). judged_event e.payload) c.events;
  step_signature = some c.step_signature;
}

module _ (feedback : Judge.Decision → String) (j : TerminationJudge) where
  abbrev pub verdict_of : Judge.Decision → Verdict
  verdict_of d = record {
    kind = some (decision_value d.kind);
    partial_result = d.partial_result;
    should_escalate = d.should_escalate;
    feedback = feedback d;
  }

  -- The judge's answer, an invocation around its decision.
  unfoldable pub judged : JudgeCall → Asked (Option RawDecision)
  unfolding iteration_of
  judged c = (
    [],
    replies (
        some (record {
          own = record {
            kind = none;
            partial_result = none;
            should_escalate = false;
            feedback = "";
          };
          output = some (verdict_of (forward (iteration_of c) j).1);
        })),
  )

-- A partial result is the text that was judged.
abbrev IsPartial : String → Option String → Type 0
IsPartial text partial = (partial ≡ none) ⊎ (partial ≡ some text)

maybe_degrade-IsPartial :
    (kind : DecisionKind) (text : String) (p : DegradationPolicy)
    → IsPartial text (maybe_degrade kind text p).partial_result
unfolding maybe_degrade
maybe_degrade-IsPartial kind text p = elim (Bool-cases (evaluate kind text p)) [
  | inl accepted ↦ rw accepted (inr refl)
  | inr refused ↦ rw refused (inl refl)
]

conclude-IsPartial :
    (j : TerminationJudge) (text : String) → IsPartial text (conclude j text).partial_result
unfolding conclude
conclude-IsPartial j text = elim (Bool-cases (poor j text)) [
  | inl bad ↦ rw bad (maybe_degrade-IsPartial quality_failed text j.degrade)
  | inr good ↦ rw good (elim (Bool-cases (text == "")) [
    | inl empty ↦ rw empty (inl refl)
    | inr full ↦ rw full (inl refl)
  ])
]

failure_in-IsPartial :
    (text : String) (events : List Judge.Event) (d : Judge.Decision)
    → failure_in events ≡ some d
    → IsPartial text d.partial_result
unfolding failure_in
failure_in-IsPartial text [] d e = cc
failure_in-IsPartial text (Judge.run_error ∷ events) d e = inl (ground arith)
failure_in-IsPartial text (Judge.evidence_insufficient ∷ events) d e = inl (ground arith)
failure_in-IsPartial text (Judge.grounding_refusal_triggered ∷ events) d e = inl (ground arith)
failure_in-IsPartial text (Judge.other_event ∷ events) d e = failure_in-IsPartial text events d e

forward-IsPartial :
    (i : Iteration) (j : TerminationJudge) → IsPartial i.partial_text (forward i j).1.partial_result
unfolding forward
forward-IsPartial i j = elim (Bool-cases (over_budget j i)) [
  | inl over ↦ rw over (maybe_degrade-IsPartial budget_exceeded i.partial_text j.degrade)
  | inr within ↦ rw within (elim (Option-cases (failure_in (newest 20 i.events))) [
    | inr (d, failed) ↦
        rw failed (failure_in-IsPartial i.partial_text (newest 20 i.events) d failed)
    | inl fine ↦ rw fine (elim (Bool-cases (watch i.step_signature j.loop_detector).1) [
      | inl looping ↦ rw looping (inl refl)
      | inr moving ↦ rw moving (conclude-IsPartial j i.partial_text)
    ])
  ])
]

output_after-IsPartial :
    (text : String) (partial : Option String)
    → IsPartial text partial
    → output_after partial text ≡ text
unfolding output_after
output_after-IsPartial text partial (inl e) = rw e refl
output_after-IsPartial text partial (inr e) = rw e (ground arith)

-- Whether a policy asks a person about a decision.
abbrev pub is_escalated : Option EscalationPolicy → Verdict → Bool
is_escalated none v = false
is_escalated (some policy) v =
    v.should_escalate && not (contains policy.never (kind_from_decision (kind_text v)))

module _ (short : String → String) {P : Type 0} where
  escalate_verdict-escalations :
      (policy : Option EscalationPolicy) (v : Verdict) (s : TurnState P)
      → let after = escalate_verdict short policy v s in
        (after.invocation.output ≡ s.invocation.output)
        × (after.invocation.termination_decision_kind ≡ s.invocation.termination_decision_kind)
        × (length after.invocation.escalations
            ≡ length s.invocation.escalations + (if is_escalated policy v then 1 else 0))
  unfolding escalate_verdict escalate
  escalate_verdict-escalations none v s = (refl, refl, omega arith)
  escalate_verdict-escalations (some policy) v s =
      let same = evaluate_decision_lem (ruling_of v) policy policy.always in
      elim (Bool-cases (v.should_escalate && (evaluate_decision (ruling_of v) policy).escalate)) [
        | inl asked ↦ rw asked (refl, refl, rw length-append (ground (arith, same)))
        | inr settled ↦ rw settled (refl, refl, ground (arith, same))
      ]

  module _ (feedback : Judge.Decision → String) (j : TerminationJudge) (a : AgentLoop P)
      (there : a.termination_judge ≡ some (judged feedback j)) (r : PlanResult)
      (s : TurnState P) where
    -- The call of this turn.
    abbrev pub judge_call : JudgeCall
    judge_call = record {
      usage = sum_usage_from_collector s.scope;
      events = s.scope.collector.events;
      partial_text = s.invocation.output;
      step_signature = r.text;
    }

    abbrev pub decided : Verdict
    decided = verdict_of feedback j (forward (iteration_of judge_call) j).1

    -- Asking the judge does not raise, leaves the output as it is, also where the judge degrades the
    -- run, leaves the kind of the decision in the extras, and adds an escalation exactly if the decision
    -- should be escalated and the policy, if there is one, does not suppress its kind.
    pub run_termination_judge-output :
        let after = run_termination_judge short a (some r) s in
        (after.0 ≡ replies tt)
        × (after.1.invocation.output ≡ s.invocation.output)
        × (after.1.invocation.termination_decision_kind ≡ decided.kind)
        × (length after.1.invocation.escalations
            ≡ length s.invocation.escalations
              + (if is_escalated a.escalation_policy decided then 1 else 0))
    unfolding run_termination_judge consult judged heed on_invocation perform unwrap_decision
    run_termination_judge-output =
        let kept =
          output_after-IsPartial s.invocation.output decided.partial_result
            (forward-IsPartial (iteration_of judge_call) j) in
        let heard = record s {
          invocation = record s.invocation {
            termination_decision_kind = some (kind_text decided);
            output = output_after decided.partial_result s.invocation.output;
          };
        } in
        let after = escalate_verdict-escalations a.escalation_policy decided heard in
        rw (there, run_termination_judge) (refl, after.0 ∙ kept, after.1, after.2)
