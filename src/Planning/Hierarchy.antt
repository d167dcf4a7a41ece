-- ===== src/Planning/Hierarchy.antt =====
-- planning/hierarchical_planner.py: the execution of a plan of sub-agents, one after the other, and the
-- aggregation of their outputs, whose JSON is a parameter.
pub mod Gathering
pub mod Nested
mod Examples
use kaos_agents.Prelude.{
  ℕ, ◌+◌, leb, Bool, true, false, Option, none, some, List, [], ◌∷◌, ◌++◌, String, map, filter,
  length, if◌then◌else◌,
}
use Prim.Native.String.{◌++◌ as append}
use kaos_agents.Prelude.Equality.{◌==◌, string_key}
use kaos_agents.Prelude.Dict.{insert}
use kaos_agents.Prelude.Reply.{Reply, replies, fails, cancelled}
use kaos_agents.Intent.{IntentResult}
use kaos_agents.Events.{
  InvocationUsage, zero_usage, add_usage, KaosEvent, Payload, span, Span, subagent, complete,
  SpanSubject, SpanPhase, intent_classified, usage_observed, turn_summary, citation_found,
  value_event, stream_delta, evidence_insufficient, grounding_refusal_triggered,
}
use kaos_agents.AgentLoop.Types.{Asked, queues, pushes, PlanResult, ToolExecution}
use kaos_agents.AgentLoop.Usage.{or_else}
use kaos_agents.Planning.Delegation.{
  StreamMode, value_only, full, summary_only, Aggregation, concat, first, json, SubAgentSpec,
  HierarchicalPlan, SubInvocation, SubCall, AgentEnvelope, HierarchicalPlanner, decompose,
  should_forward,
}

pub record Gathered : Type 0 where
  pub sub_outputs : List String
  pub sub_names : List String
  pub total_usage : InvocationUsage
  pub all_tool_executions : List ToolExecution

abbrev pub nothing_gathered : Gathered
nothing_gathered = record {
  sub_outputs = [];
  sub_names = [];
  total_usage = zero_usage;
  all_tool_executions = [];
}

abbrev pub extract_output : SubInvocation → String
extract_output i = elim i.output [ none ↦ "" | some output ↦ output ]

abbrev pub extract_usage : SubInvocation → InvocationUsage
extract_usage i = elim i.usage [ none ↦ zero_usage | some usage ↦ usage ]

unfoldable pub gather : SubAgentSpec → SubCall → SubInvocation → Gathered → Gathered
unfolding add_usage
gather spec c i g = record {
  sub_outputs = g.sub_outputs ++ extract_output i ∷ [];
  sub_names = g.sub_names ++ or_else spec.sub_agent_name (or_else c.env_name c.env_hash) ∷ [];
  total_usage = add_usage g.total_usage (extract_usage i);
  all_tool_executions = g.all_tool_executions ++ i.tool_executions;
}

module _ (mode : StreamMode) (call : SubAgentSpec → SubCall) where
  -- One pass of the loop, with the rest of the loop.
  abbrev pub after_call :
      SubAgentSpec → Reply SubInvocation → (Gathered → Asked Gathered) → Gathered → Asked Gathered
  after_call spec (replies i) rest g =
      let c = call spec in
      let later = rest (gather spec c i g) in
      (
        (map queues c.queued ++ map pushes (filter (should_forward mode) c.collected)) ++ later.0,
        later.1,
      )
  after_call spec (fails message) rest g = (map queues (call spec).queued, fails message)
  after_call spec cancelled rest g = (map queues (call spec).queued, cancelled)

  -- The loop of `_run_sub_agents`.
  unfoldable pub run_each : List SubAgentSpec → Gathered → Asked Gathered
  unfolding should_forward gather
  run_each [] g = ([], replies g)
  run_each (spec ∷ specs) g = after_call spec (call spec).reply (run_each specs) g

-- The first output that is not empty.
abbrev pub first_output : List String → String
first_output [] = ""
first_output (out ∷ outputs) = let rest = first_output outputs in if out == "" then rest else out

-- `"\n".join` of those that are not empty.
abbrev pub joined : List String → String
joined [] = ""
joined (out ∷ outputs) =
    let rest = joined outputs in
    if out == "" then rest else if rest == "" then out else append out (append "\n" rest)

-- `dict(zip(...))`: of outputs under one name the last is kept.
unfoldable pub zipped : List (String × String) → List String → List String → List (String × String)
unfolding insert
zipped d (n ∷ names) (o ∷ outputs) = zipped (insert n o d) names outputs
zipped d _ _ = d

abbrev pub strategy_of : HierarchicalPlan → HierarchicalPlanner → Aggregation
strategy_of p h = elim p.aggregation_strategy [ none ↦ h.aggregation | some strategy ↦ strategy ]

module _ (dumps : List (String × String) → String) where
  -- `_aggregate`.
  unfoldable pub aggregate : Aggregation → List String → List String → String
  unfolding zipped
  aggregate first outputs names = first_output outputs
  aggregate json outputs names = dumps (zipped [] names outputs)
  aggregate concat outputs names = joined outputs

  abbrev pub plan_result : String → Gathered → PlanResult
  plan_result text g = record {
    text = text;
    output = text;
    printed = text;
    usage = some g.total_usage;
    tool_executions = g.all_tool_executions;
  }

  abbrev pub conclude_plan : Aggregation → Asked Gathered → Asked PlanResult
  conclude_plan strategy (acts, replies g) =
      (acts, replies (plan_result (aggregate strategy g.sub_outputs g.sub_names) g))
  conclude_plan strategy (acts, fails message) = (acts, fails message)
  conclude_plan strategy (acts, cancelled) = (acts, cancelled)

  -- `_run_sub_agents`, from the sub-agents and the strategy of the plan.
  unfoldable pub run_specs :
      StreamMode → (SubAgentSpec → SubCall) → Aggregation → List SubAgentSpec → Asked PlanResult
  unfolding run_each aggregate
  run_specs mode call strategy [] = ([], replies (plan_result "" nothing_gathered))
  run_specs mode call strategy (spec ∷ specs) =
      conclude_plan strategy (run_each mode call (spec ∷ specs) nothing_gathered)

  unfoldable pub run_sub_agents :
      (SubAgentSpec → SubCall) → HierarchicalPlan → HierarchicalPlanner → Asked PlanResult
  unfolding run_specs
  run_sub_agents call p h = run_specs h.stream_mode call (strategy_of p h) p.sub_agents

  -- `execute` at a depth of delegation.
  unfoldable pub execute :
      ℕ → (SubAgentSpec → SubCall) → HierarchicalPlan → HierarchicalPlanner → Asked PlanResult
  unfolding run_sub_agents
  execute current call p h =
      if leb h.max_depth current
      then ([], fails "RuntimeError: delegation exceeded max_depth")
      else run_sub_agents call p h
