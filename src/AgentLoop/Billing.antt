-- ===== src/AgentLoop/Billing.antt =====
-- loop/agent_loop.py: the usage of a turn, before and after its end.
use kaos_agents.Prelude.{
  ℕ, zero, suc, ◌≡◌, inl, inr, Bool, true, false, ◌&&◌, Option, none, some, List, [], ◌∷◌, String,
  Option-cases, if◌then◌else◌,
}
use kaos_agents.Prelude.Equality.{string_key}
use kaos_agents.Prelude.Reply.{Reply, replies, fails, cancelled}
use kaos_agents.Prelude.Result.{Result, ok, err}
use kaos_agents.Escalation.People.{EscalationPolicy, evaluate_decision, evaluate_intent}
use kaos_agents.Intent.{IntentResult, as_user_intent}
use kaos_agents.Events.{zero_usage}
use kaos_agents.Memory.Institutional.{
  PromotionPolicy, Namespace, KnowledgeBase, MatterIsolationError,
}
use kaos_agents.AgentLoop.Types.{
  AgentLoop, Planner, TurnPlan, PlanResult, Verdict, TurnInvocation, Act, emits, pushes, queues,
  finds,
}
use kaos_agents.AgentLoop.State.{
  TurnState, M, perform, act, and_then, ◌>>=◌, ask, modify, on_scope, on_invocation,
}
use kaos_agents.AgentLoop.Steps.{escalate, emit_escalation_for_clarification}
use kaos_agents.AgentLoop.Work.{
  choose_planner, work_with, plan_and_execute, ruling_of, escalate_verdict, heed, consult,
  unwrap_decision, run_termination_judge, settle, promote_into, maybe_promote_findings,
}
use kaos_agents.AgentLoop.Forward.{Names, do_work}

-- No usage was set yet, and the record is not finished.
abbrev pub IsUnbilled : {P : Type 0} → TurnInvocation P → Type 0
IsUnbilled t =
    (t.usage ≡ zero_usage) × (t.cost_usd ≡ 0) × (t.cost_budget.spent_usd ≡ 0) × (t.finished ≡ false)

module _ {P : Type 0} where
  perform-IsUnbilled :
      (acts : List Act) (s : TurnState P)
      → IsUnbilled s.invocation
      → IsUnbilled (perform acts s).invocation
  unfolding perform act
  perform-IsUnbilled [] s u = u
  perform-IsUnbilled (emits x ∷ acts) s u = perform-IsUnbilled acts (act (emits x) s) u
  perform-IsUnbilled (pushes e ∷ acts) s u = perform-IsUnbilled acts (act (pushes e) s) u
  perform-IsUnbilled (queues e ∷ acts) s u = perform-IsUnbilled acts (act (queues e) s) u
  perform-IsUnbilled (finds f ∷ acts) s u = perform-IsUnbilled acts (act (finds f) s) u

  bind-IsUnbilled :
      {A B : Type 0} (m : M P A) (f : A → M P B)
      → ((s : TurnState P) → IsUnbilled s.invocation → IsUnbilled (m s).1.invocation)
      → ((x : A) (s : TurnState P) → IsUnbilled s.invocation → IsUnbilled (f x s).1.invocation)
      → (s : TurnState P) → IsUnbilled s.invocation
      → IsUnbilled ((m >>= f) s).1.invocation
  bind-IsUnbilled {A} {B} m f h k s u = next (m s) (h s u)
    where
      next :
          (r : Reply A × TurnState P)
          → IsUnbilled r.1.invocation
          → IsUnbilled (and_then r f).1.invocation
      next (replies x, t) v = k x t v
      next (fails message, t) v = v
      next (cancelled, t) v = v

  work_with-IsUnbilled :
      (new_span_id : ℕ → String) (planner : Option (Planner P)) (selected : Option String)
      (a : AgentLoop P) (p : TurnPlan) (s : TurnState P)
      → IsUnbilled s.invocation
      → IsUnbilled (work_with new_span_id planner selected a p s).1.invocation
  unfolding work_with on_scope on_invocation
  work_with-IsUnbilled new_span_id none selected a p s u = u
  work_with-IsUnbilled new_span_id (some planner) selected a p s u =
      bind-IsUnbilled (ask (planner.plan p.intent)) _ (perform-IsUnbilled (planner.plan p.intent).0)
        (λ made t v.
          bind-IsUnbilled (ask (planner.execute made)) _
            (perform-IsUnbilled (planner.execute made).0) (λ result w i. i) _ v)
        _ u

  if-IsUnbilled :
      (b : Bool) (s t : TurnState P)
      → IsUnbilled s.invocation
      → IsUnbilled t.invocation
      → IsUnbilled (if b then s else t).invocation
  if-IsUnbilled true s t u v = u
  if-IsUnbilled false s t u v = v

  escalate_verdict-IsUnbilled :
      (short : String → String) (policy : Option EscalationPolicy) (v : Verdict) (s : TurnState P)
      → IsUnbilled s.invocation
      → IsUnbilled (escalate_verdict short policy v s).invocation
  unfolding escalate_verdict escalate
  escalate_verdict-IsUnbilled short none v s u = u
  escalate_verdict-IsUnbilled short (some policy) v s u =
      if-IsUnbilled (v.should_escalate && (evaluate_decision (ruling_of v) policy).escalate) _ s u u

  run_termination_judge-IsUnbilled :
      (short : String → String) (a : AgentLoop P) (result : Option PlanResult) (s : TurnState P)
      → IsUnbilled s.invocation
      → IsUnbilled (run_termination_judge short a result s).1.invocation
  unfolding run_termination_judge consult heed on_invocation
  run_termination_judge-IsUnbilled short a none s u = u
  run_termination_judge-IsUnbilled short a (some result) s u =
      elim (Option-cases a.termination_judge) [
        | inl absent ↦ rw (absent, run_termination_judge) u
        | inr (judge, there) ↦
            rw (there, run_termination_judge)
              (bind-IsUnbilled (ask (judge _))
                (λ raw. modify (heed short a.escalation_policy (unwrap_decision raw)))
                (perform-IsUnbilled _)
                (λ raw t v.
                  escalate_verdict-IsUnbilled short a.escalation_policy (unwrap_decision raw) _ v)
                s u)
      ]

  promote_into-IsUnbilled :
      (made_id : ℕ → String → String) (policy : Option PromotionPolicy) (kb : Option KnowledgeBase)
      (ns : Option Namespace) (s : TurnState P)
      → IsUnbilled s.invocation
      → IsUnbilled (promote_into made_id policy kb ns s).1.invocation
  promote_into-IsUnbilled made_id none kb ns s u = u
  promote_into-IsUnbilled made_id (some policy) none ns s u = u
  promote_into-IsUnbilled made_id (some policy) (some kb) none s u = u
  promote_into-IsUnbilled made_id (some policy) (some kb) (some ns) s u = settled _
    where
      settled :
          (r : KnowledgeBase × Result MatterIsolationError ℕ) → IsUnbilled (settle r s).1.invocation
      settled (kb, ok zero) = u
      settled (kb, ok (suc n)) = u
      settled (kb, err e) = u

  pub do_work-IsUnbilled :
      (names : Names) (a : AgentLoop P) (p : TurnPlan) (s : TurnState P)
      → IsUnbilled s.invocation
      → IsUnbilled (do_work names a p s).1.invocation
  unfolding do_work plan_and_execute maybe_promote_findings
  do_work-IsUnbilled names a p =
      bind-IsUnbilled (plan_and_execute names.new_span_id a p) _
        (work_with-IsUnbilled names.new_span_id (choose_planner a p.intent).0
          (choose_planner a p.intent).1 a p)
        (λ result.
          bind-IsUnbilled (run_termination_judge names.short a result) _
            (run_termination_judge-IsUnbilled names.short a result)
            (λ _ t.
              promote_into-IsUnbilled names.made_id a.promotion_policy t.knowledge_base
                p.intent.matter_client t))

  pub asking-IsUnbilled :
      (short : String → String) (policy : Option EscalationPolicy) (intent : IntentResult)
      (message : String) (s : TurnState P)
      → IsUnbilled s.invocation
      → IsUnbilled (emit_escalation_for_clarification short policy intent message s).invocation
  unfolding emit_escalation_for_clarification escalate
  asking-IsUnbilled short none intent message s u = u
  asking-IsUnbilled short (some policy) intent message s u =
      if-IsUnbilled (evaluate_intent (as_user_intent intent) policy).escalate _ s u u
