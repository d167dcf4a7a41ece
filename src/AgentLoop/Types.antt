-- ===== src/AgentLoop/Types.antt =====
-- core/invocation.py, core/plan.py and planning/planner.py: the record of a turn, its plan, and what it
-- asks others. Times are left out, the fields of `extras` stand among the record's own, and what a
-- turn never sets (its children, the trigger, the working memory) is left out.
use kaos_agents.Prelude.{ℕ, ◌+◌, Bool, true, Option, List, String, if◌then◌else◌}
use kaos_agents.Prelude.Reply.{Reply}
use kaos_agents.Escalation.{CostBudget}
use kaos_agents.Escalation.People.{EscalationPolicy}
use kaos_agents.Intent.{IntentResult}
use kaos_agents.Events.{InvocationUsage, Payload, KaosEvent, EventEmitter}
use kaos_agents.Memory.Institutional.{Finding, PromotionPolicy}

-- What a turn ended with, if not with its result.
pub data TurnError : Type 0 where
  raised : String → TurnError
  interrupted : TurnError

-- `P` is the type of plans.
pub record TurnInvocation (P : Type 0) : Type 0 where
  pub id : String
  pub session_id : String
  pub run_id : String
  pub turn_number : ℕ
  pub agent_envelope_hash : String
  pub plan : Option P
  pub output : String
  pub events : List KaosEvent
  pub usage : InvocationUsage
  pub cost_budget : CostBudget
  pub cost_usd : ℕ
  pub escalations : List KaosEvent
  pub error : Option TurnError
  pub finished : Bool
  pub phase : Option String
  pub clarification_required : Bool
  pub selected_planner : Option String
  pub termination_decision_kind : Option String
  pub findings : List Finding
  pub promoted_findings : Option ℕ

module _ {P : Type 0} where
  -- `__setattr__` of `cost_usd`.
  unfoldable pub set_cost_usd : ℕ → TurnInvocation P → TurnInvocation P
  set_cost_usd amount t = record t {
    cost_usd = amount;
    cost_budget = record t.cost_budget { spent_usd = amount };
  }

  -- `__setattr__` of `cost_budget`.
  unfoldable pub set_cost_budget : CostBudget → TurnInvocation P → TurnInvocation P
  set_cost_budget budget t = record t { cost_budget = budget; cost_usd = budget.spent_usd }

  -- `TurnInvocation.spend`.
  unfoldable pub spend_usd : ℕ → TurnInvocation P → TurnInvocation P
  unfolding set_cost_budget
  spend_usd amount t =
      set_cost_budget (record t.cost_budget { spent_usd = t.cost_budget.spent_usd + amount }) t

  unfoldable pub finalize : String → Option TurnError → TurnInvocation P → TurnInvocation P
  finalize output error t =
      if t.finished then t else record t { output = output; error = error; finished = true }

pub record TurnPlan : Type 0 where
  pub session_id : String
  pub run_id : String
  pub turn_number : ℕ
  pub trigger_kind : String
  pub emitter : EventEmitter
  pub intent : IntentResult
  pub intent_usage : Option InvocationUsage

-- What a collaborator does to the turn while it runs: an event through the turn's emitter, another's
-- event pushed to the collector or put into the queue alone, or a finding left in the extras.
pub data Act : Type 0 where
  emits : Payload → Act
  pushes : KaosEvent → Act
  queues : KaosEvent → Act
  finds : Finding → Act

-- A call's acts, and what it gives in the end.
abbrev pub Asked : Type 0 → Type 0
Asked A = List Act × Reply A

pub record ToolExecution : Type 0 where
  pub tool_name : String
  pub call_id : String
  pub arguments : List String
  pub is_error : Bool
  pub result_summary : String
  pub structured_content : List (String × String)

-- `printed` is `str(...)` of it, and `usage` is what `_emit_planner_usage` reads, if that can be read.
pub record PlanResult : Type 0 where
  pub text : String
  pub output : String
  pub printed : String
  pub usage : Option InvocationUsage
  pub tool_executions : List ToolExecution

pub record Planner (P : Type 0) : Type 0 where
  pub type_name : String
  pub plan : IntentResult → Asked P
  pub execute : P → Asked PlanResult

-- What is read in a decision, the defaults filled in, and whether it has a kind at all.
pub record Verdict : Type 0 where
  pub kind : Option String
  pub partial_result : Option String
  pub should_escalate : Bool
  pub feedback : String

-- What the judge returns: the value's own attributes, and those of its output.
pub record RawDecision : Type 0 where
  pub own : Verdict
  pub output : Option Verdict

-- The iteration is 1.
pub record JudgeCall : Type 0 where
  pub usage : InvocationUsage
  pub events : List KaosEvent
  pub partial_text : String
  pub step_signature : String

pub record AgentLoop (P : Type 0) : Type 0 where
  pub planner : Option (Planner P)
  pub auto_select_planner : Bool
  pub react_planner : Planner P
  pub plan_execute_planner : Planner P
  pub hierarchical_planner : Planner P
  pub termination_judge : Option (JudgeCall → Asked (Option RawDecision))
  pub escalation_policy : Option EscalationPolicy
  pub promotion_policy : Option PromotionPolicy
  pub agent_envelope_hash : String
  pub citations : String → List String
