-- ===== src/AgentLoop/Work.antt =====
-- loop/agent_loop.py: what a turn asks of its planner, of its judge and of the promotion of findings.
use kaos_agents.Prelude.{
  suc, zero, ◌+◌, ℕ, zero, suc, ◌+◌, leb, false, not, ◌&&◌, ◌||◌, Option, none, some, List, [], ◌∷◌,
  String, if◌then◌else◌,
}
use Prim.Native.String.{count}
use kaos_agents.Prelude.Equality.{◌==◌, string_key, nat_key}
use kaos_agents.Prelude.Reply.{fails, replies, fails}
use kaos_agents.Prelude.Result.{Result, ok, err}
use kaos_agents.Escalation.People.{EscalationPolicy, Ruling, evaluate_decision}
use kaos_agents.Intent.{IntentResult, chat, plan, research}
use kaos_agents.Memory.Institutional.{
  Namespace, KnowledgeBase, Finding, PromotionPolicy, consider, MatterIsolationError,
}
use kaos_agents.AgentLoop.Usage.{sum_usage_from_collector}
use kaos_agents.AgentLoop.Report.{result_text, report_result}
use kaos_agents.AgentLoop.Steps.{escalate}
use kaos_agents.Prelude.Result.{Result, ok, err}
use kaos_agents.Memory.Institutional.{
  Namespace, KnowledgeBase, Finding, PromotionPolicy, consider, MatterIsolationError,
}
use kaos_agents.AgentLoop.Types.{
  Asked, JudgeCall, TurnPlan, PlanResult, Planner, Verdict, RawDecision, AgentLoop,
}
use kaos_agents.AgentLoop.State.{
  get, TurnState, M, Effect, ◌>>=◌, ◌>>◌, pure, modify, on_scope, on_invocation, ask,
}

unfoldable pub unwrap_decision : Option RawDecision → Verdict
unwrap_decision none = record {
  kind = none;
  partial_result = none;
  should_escalate = false;
  feedback = "";
}
unwrap_decision (some raw) = elim raw.output [
  | none ↦ raw.own
  | some output ↦ elim output.kind [
    | some kind ↦ output
    | none ↦ elim raw.own.kind [ some kind ↦ raw.own | none ↦ output ]
  ]
]

abbrev pub kind_text : Verdict → String
kind_text v = elim v.kind [ none ↦ "" | some kind ↦ kind ]

-- Whether a partial result takes the place of the output, and what the output is then.
unfoldable pub output_after : Option String → String → String
output_after none output = output
output_after (some partial) output =
    if not (partial == "") && (output == "" || leb (count output) (count partial))
    then partial
    else output

module _ {P : Type 0} where
  -- `_select_planner_for_intent`.
  unfoldable pub select_planner_for_intent : AgentLoop P → IntentResult → Planner P
  select_planner_for_intent a intent = elim intent.pattern [
    | chat ↦ a.react_planner
    | plan ↦ a.plan_execute_planner
    | research ↦ a.hierarchical_planner
  ]

  -- The planner of the turn, and the name that is left in the extras.
  unfoldable pub choose_planner : AgentLoop P → IntentResult → Option (Planner P) × Option String
  choose_planner a intent = elim a.planner [
    | some given ↦ (some given, none)
    | none ↦
        let selected = select_planner_for_intent a intent in
        if a.auto_select_planner then (some selected, some selected.type_name) else (none, none)
  ]

module _ (new_span_id : ℕ → String) {P : Type 0} where
  -- Step 3 with the planner that was chosen, with `invocation.output` set at its end.
  unfoldable pub work_with :
      Option (Planner P) → Option String → AgentLoop P → TurnPlan → M P (Option PlanResult)
  unfolding result_text on_scope on_invocation
  work_with none selected a p = do
    modify (on_invocation (λ t. record t { phase = some "skeleton"; output = "" }))
    pure none
  work_with (some planner) selected a p = do
    modify (on_invocation (λ t. record t { selected_planner = selected }))
    made ← ask (planner.plan p.intent)
    modify (on_invocation (λ t. record t { plan = some made }))
    result ← ask (planner.execute made)
    modify (on_scope (report_result new_span_id a.citations result))
    modify (on_invocation (λ t. record t { output = result_text result }))
    pure (some result)

  unfoldable pub plan_and_execute : AgentLoop P → TurnPlan → M P (Option PlanResult)
  unfolding choose_planner work_with
  plan_and_execute a p = work_with (choose_planner a p.intent).0 (choose_planner a p.intent).1 a p

-- What an escalation policy reads in a decision.
abbrev pub ruling_of : Verdict → Ruling
ruling_of v = record {
  should_escalate = v.should_escalate;
  kind = kind_text v;
  feedback = v.feedback;
}

module _ (short : String → String) {P : Type 0} where
  -- The escalation of `_run_termination_judge`.
  unfoldable pub escalate_verdict : Option EscalationPolicy → Verdict → TurnState P → TurnState P
  escalate_verdict none v s = s
  escalate_verdict (some policy) v s =
      let decision = evaluate_decision (ruling_of v) policy in
      if v.should_escalate && decision.escalate
      then escalate short decision "domain_specific" v.feedback s
      else s

  -- What `_run_termination_judge` does with a decision.
  unfoldable pub heed : Option EscalationPolicy → Verdict → TurnState P → TurnState P
  unfolding on_invocation escalate_verdict
  heed policy v s = escalate_verdict policy v (
      on_invocation
        (λ t. record t {
          termination_decision_kind = some (kind_text v);
          output = output_after v.partial_result t.output;
        })
        s)

  unfoldable pub consult :
      (JudgeCall → Asked (Option RawDecision)) → Option EscalationPolicy → PlanResult → Effect P
  consult judge policy result = do
    s ← get
    raw ← ask (
        judge (record {
          usage = sum_usage_from_collector s.scope;
          events = s.scope.collector.events;
          partial_text = s.invocation.output;
          step_signature = result.text;
        }))
    modify (heed policy (unwrap_decision raw))

  -- Step 4.
  unfoldable pub run_termination_judge : AgentLoop P → Option PlanResult → Effect P
  unfolding consult
  run_termination_judge a none s = (replies tt, s)
  run_termination_judge a (some result) s = elim a.termination_judge [
    | none ↦ (replies tt, s)
    | some judge ↦ consult judge a.escalation_policy result s
  ]

-- The end of `_maybe_promote_findings`.
abbrev pub settle : {P : Type 0} → KnowledgeBase × Result MatterIsolationError ℕ → Effect P
settle (kb, ok zero) s = (replies tt, record s { knowledge_base = some kb })
settle (kb, ok (suc n)) s = (
  replies tt,
  record s {
    knowledge_base = some kb;
    invocation = record s.invocation { promoted_findings = some (suc n) };
  },
)
settle (kb, err e) s = (fails "MatterIsolationError", record s { knowledge_base = some kb })

module _ (made_id : ℕ → String → String) where
  -- The loop of `_maybe_promote_findings`, which counts the findings that are promoted.
  unfoldable pub promote_all :
      List Finding
      → Namespace
      → PromotionPolicy
      → KnowledgeBase
      → (promoted_count : ℕ) → KnowledgeBase × Result MatterIsolationError ℕ
  promote_all [] ns policy kb n = (kb, ok n)
  promote_all (f ∷ findings) ns policy kb n = elim (consider made_id f ns none policy kb) [
    | err e ↦ (kb, err e)
    | ok (promoted, after) ↦ promote_all findings ns policy after (if promoted then n + 1 else n)
  ]

  -- A part that is missing ends it at once.
  abbrev pub promote_into :
      {P : Type 0} → Option PromotionPolicy → Option KnowledgeBase → Option Namespace → Effect P
  promote_into (some policy) (some kb) (some ns) s =
      settle (promote_all s.invocation.findings ns policy kb 0) s
  promote_into _ _ _ s = (replies tt, s)

  -- `_maybe_promote_findings`.
  unfoldable pub maybe_promote_findings :
      {P : Type 0} → Option PromotionPolicy → IntentResult → Effect P
  unfolding promote_all
  maybe_promote_findings policy intent s =
      promote_into policy s.knowledge_base intent.matter_client s
