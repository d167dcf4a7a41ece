-- ===== src/AgentLoop/Keeps.antt =====
-- loop/agent_loop.py: what every step of a turn that works keeps of its scope.
use kaos_agents.Prelude.{
  zero, suc, ℕ, ◌≡◌, refl, inl, inr, ◌&&◌, Option, none, some, List, [], ◌∷◌, String, Bool-cases,
  Option-cases,
}
use kaos_agents.Prelude.Equality.{string_key}
use kaos_agents.Prelude.Reply.{Reply, replies, fails, cancelled}
use kaos_agents.Prelude.Result.{Result, ok, err}
use kaos_agents.Escalation.People.{evaluate_decision, EscalationPolicy, EscalationDecision}
use kaos_agents.Events.{
  Payload, span, Scope, emit_event, InvocationUsage, usage_observed, citation_found,
}
use kaos_agents.Intent.{IntentResult}
use kaos_agents.Memory.Institutional.{
  PromotionPolicy, Namespace, KnowledgeBase, MatterIsolationError,
}
use kaos_agents.AgentLoop.Types.{
  AgentLoop, Planner, TurnPlan, PlanResult, JudgeCall, Act, Asked, RawDecision, ToolExecution,
  Verdict,
}
use kaos_agents.AgentLoop.State.{
  ask, modify, TurnState, M, perform, and_then, ◌>>=◌, on_scope, on_invocation,
}
use kaos_agents.AgentLoop.Usage.{sum_usage_from_collector, is_zero, emit_planner_usage}
use kaos_agents.AgentLoop.Report.{
  result_text, tool_call_span, emit_tool_call_spans, emit_citations, report_result,
}
use kaos_agents.AgentLoop.Steps.{escalate}
use kaos_agents.AgentLoop.Forward.{Names, do_work}
use kaos_agents.AgentLoop.Work.{
  promote_into, work_with, consult, escalate_verdict, ruling_of, unwrap_decision, choose_planner,
  plan_and_execute, heed, run_termination_judge, settle, maybe_promote_findings,
}

-- Everything but a span.
abbrev pub IsPlain : Payload → Type 0
IsPlain (span s) = ⊥
IsPlain _ = Unit {0}

module _ (I : Scope → Type 0) (P : Type 0) where
  -- Whatever the step ends with.
  abbrev pub Keeps : {A : Type 0} → M P A → Type 0
  Keeps m = (s : TurnState P) → I s.scope → I (m s).1.scope

  abbrev pub KeepsActs : List Act → Type 0
  KeepsActs acts = (s : TurnState P) → I s.scope → I (perform acts s).scope

  -- The turn's collaborators.
  pub record KeepCollaborators (a : AgentLoop P) (p : TurnPlan) : Type 0 where
    pub plans :
        (planner : Planner P)
        → (choose_planner a p.intent).0 ≡ some planner
        → KeepsActs (planner.plan p.intent).0
    pub executes :
        (planner : Planner P)
        → (choose_planner a p.intent).0 ≡ some planner
        → (made : P) → KeepsActs (planner.execute made).0
    pub judges :
        (judge : JudgeCall → Asked (Option RawDecision))
        → a.termination_judge ≡ some judge
        → (c : JudgeCall) → KeepsActs (judge c).0

  pub bind-Keeps :
      {A B : Type 0} (m : M P A) (f : A → M P B)
      → Keeps m
      → ((x : A) → Keeps (f x))
      → Keeps (m >>= f)
  bind-Keeps {A} {B} m f h k s i = next (m s) (h s i)
    where
      next : (r : Reply A × TurnState P) → I r.1.scope → I (and_then r f).1.scope
      next (replies x, t) j = k x t j
      next (fails message, t) j = j
      next (cancelled, t) j = j

  -- The events that the turn itself emits while it works.
  pub record KeepEvents (new_span_id : ℕ → String) : Type 0 where
    pub plain : (x : Payload) → IsPlain x → (s : Scope) → I s → I (emit_event x s)
    pub calls : (e : ToolExecution) (s : Scope) → I s → I (tool_call_span new_span_id e s)

  module _ (names : Names) (own : KeepEvents names.new_span_id) where
    pub emit_planner_usage-Keeps :
        (usage : Option InvocationUsage) (label : String) (s : Scope)
        → I s
        → I (emit_planner_usage usage label s)
    unfolding emit_planner_usage
    emit_planner_usage-Keeps none label s i = i
    emit_planner_usage-Keeps (some usage) label s i = elim (Bool-cases (is_zero usage)) [
      | inl nothing ↦ rw nothing i
      | inr observed ↦ rw observed (own.plain (usage_observed usage label) tt s i)
    ]

    emit_tool_call_spans-Keeps :
        (executions : List ToolExecution) (s : Scope)
        → I s
        → I (emit_tool_call_spans names.new_span_id executions s)
    unfolding emit_tool_call_spans
    emit_tool_call_spans-Keeps [] s i = i
    emit_tool_call_spans-Keeps (e ∷ es) s i = emit_tool_call_spans-Keeps es _ (own.calls e s i)

    emit_citations-Keeps : (claims : List String) (s : Scope) → I s → I (emit_citations claims s)
    unfolding emit_citations
    emit_citations-Keeps [] s i = i
    emit_citations-Keeps (c ∷ cs) s i =
        emit_citations-Keeps cs _ (own.plain (citation_found c) tt s i)

    report_result-Keeps :
        (citations : String → List String) (r : PlanResult) (s : Scope)
        → I s
        → I (report_result names.new_span_id citations r s)
    unfolding report_result
    report_result-Keeps citations r s i = emit_citations-Keeps (citations (result_text r)) _ (
        emit_tool_call_spans-Keeps r.tool_executions _
          (emit_planner_usage-Keeps r.usage "planner" s i))

    pub escalate-Keeps :
        (d : EscalationDecision) (default reason : String) (s : TurnState P)
        → I s.scope
        → I (escalate names.short d default reason s).scope
    unfolding escalate
    escalate-Keeps d default reason s i = own.plain _ tt s.scope i

    escalate_verdict-Keeps :
        (policy : Option EscalationPolicy) (v : Verdict) (s : TurnState P)
        → I s.scope
        → I (escalate_verdict names.short policy v s).scope
    unfolding escalate_verdict
    escalate_verdict-Keeps none v s i = i
    escalate_verdict-Keeps (some policy) v s i =
        let decision = evaluate_decision (ruling_of v) policy in
        elim (Bool-cases (v.should_escalate && decision.escalate)) [
          | inl asked ↦ rw asked (escalate-Keeps decision "domain_specific" v.feedback s i)
          | inr settled ↦ rw settled i
        ]

    module _ (a : AgentLoop P) (p : TurnPlan) (others : KeepCollaborators a p) where
      work_with-Keeps :
          (planner : Option (Planner P)) (selected : Option String)
          → (choose_planner a p.intent).0 ≡ planner
          → Keeps (work_with names.new_span_id planner selected a p)
      unfolding work_with on_scope on_invocation
      work_with-Keeps none selected chosen s i = i
      work_with-Keeps (some planner) selected chosen s i =
          bind-Keeps (ask (planner.plan p.intent)) _ (others.plans planner chosen)
            (λ made t j.
              bind-Keeps (ask (planner.execute made)) _ (others.executes planner chosen made)
                (λ result u k. report_result-Keeps a.citations result u.scope k) _ j)
            _ i

      plan_and_execute-Keeps : Keeps (plan_and_execute names.new_span_id a p)
      unfolding plan_and_execute
      plan_and_execute-Keeps =
          work_with-Keeps (choose_planner a p.intent).0 (choose_planner a p.intent).1 refl

      run_termination_judge-Keeps :
          (result : Option PlanResult) → Keeps (run_termination_judge names.short a result)
      unfolding run_termination_judge consult heed on_invocation
      run_termination_judge-Keeps none s i = i
      run_termination_judge-Keeps (some result) s i = elim (Option-cases a.termination_judge) [
        | inl absent ↦ rw (absent, run_termination_judge) i
        | inr (judge, there) ↦
            rw (there, run_termination_judge)
              (bind-Keeps
                (ask (
                  judge (record {
                    usage = sum_usage_from_collector s.scope;
                    events = s.scope.collector.events;
                    partial_text = s.invocation.output;
                    step_signature = result.text;
                  })))
                (λ raw. modify (heed names.short a.escalation_policy (unwrap_decision raw)))
                (others.judges judge there _)
                (λ raw t j. escalate_verdict-Keeps a.escalation_policy (unwrap_decision raw) _ j) s
                i)
      ]

    settle-Keeps : (r : KnowledgeBase × Result MatterIsolationError ℕ) → Keeps (settle r)
    settle-Keeps (kb, ok zero) s i = i
    settle-Keeps (kb, ok (suc n)) s i = i
    settle-Keeps (kb, err e) s i = i

    promote_into-Keeps :
        (policy : Option PromotionPolicy) (kb : Option KnowledgeBase) (ns : Option Namespace)
        → Keeps (promote_into names.made_id policy kb ns)
    promote_into-Keeps none kb ns s i = i
    promote_into-Keeps (some policy) none ns s i = i
    promote_into-Keeps (some policy) (some kb) none s i = i
    promote_into-Keeps (some policy) (some kb) (some ns) s i = settle-Keeps _ s i

    maybe_promote_findings-Keeps :
        (policy : Option PromotionPolicy) (intent : IntentResult)
        → Keeps (maybe_promote_findings names.made_id policy intent)
    unfolding maybe_promote_findings
    maybe_promote_findings-Keeps policy intent s i =
        promote_into-Keeps policy s.knowledge_base intent.matter_client s i

    pub do_work-Keeps :
        (a : AgentLoop P) (p : TurnPlan) → KeepCollaborators a p → Keeps (do_work names a p)
    unfolding do_work
    do_work-Keeps a p others =
        bind-Keeps (plan_and_execute names.new_span_id a p) _ (plan_and_execute-Keeps a p others)
          (λ result.
            bind-Keeps (run_termination_judge names.short a result) _
              (run_termination_judge-Keeps a p others result)
              (λ _. maybe_promote_findings-Keeps a.promotion_policy p.intent))
