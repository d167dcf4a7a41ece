-- ===== src/Planning/Route.antt =====
-- planning/route.py: what follows a judged step. A confidence is a natural number on some scale in
-- place of a float in [0, 1]; the reason is left out, which only words the decision.
pub mod Decisions
mod Examples
use kaos_agents.Prelude.{
  ℕ, leb, ltb, Bool, true, false, not, ◌&&◌, Option, none, some, String, if◌then◌else◌,
}
use kaos_agents.Planning.Budget.{PlanBudget, should_stop}

pub data Decision : Type 0 where
  continue_plan replan escalate stop_success stop_budget stop_failure : Decision

pub record Judgment : Type 0 where
  pub matched : Bool
  pub confidence : ℕ

pub record RouteResult : Type 0 where
  pub decision : Decision
  pub step_id : Option String

-- The two checks of the judgment that end in REPLAN, and the last return.
pub weigh : ℕ → Judgment → Decision
weigh threshold j =
    if j.matched && leb threshold j.confidence
    then continue_plan
    else if not j.matched
    then if leb threshold j.confidence then replan else continue_plan
    else if ltb j.confidence threshold
    then replan
    else continue_plan

unfoldable pub decide : ℕ → Judgment → PlanBudget → ℕ → ℕ → Decision
unfolding weigh
decide now j budget replan_count threshold = elim (should_stop now budget) [
  | some reason ↦ stop_budget
  | none ↦ if leb budget.max_replans_allowed replan_count then stop_failure else weigh threshold j
]

unfoldable pub route : ℕ → Judgment → PlanBudget → ℕ → ℕ → Option String → RouteResult
unfolding decide
route now j budget replan_count threshold step_id = record {
  decision = decide now j budget replan_count threshold;
  step_id = step_id;
}
