-- ===== src/Planning/Route/Examples.antt =====
-- A rejection without confidence, and the theorems on the decision.
use kaos_agents.Prelude.{false}
use kaos_agents.Planning.Budget.{PlanBudget}
use kaos_agents.Planning.Route.{Judgment}

abbrev budget : PlanBudget
budget = record {
  max_cost_usd = 100;
  max_tokens_allowed = 1000;
  max_steps_allowed = 20;
  max_replans_allowed = 3;
  max_wall_clock_seconds = 120;
  cost_usd = 10;
  tokens_used = 50;
  steps_executed = 4;
  replans = 1;
  start_time = 0;
}

abbrev doubtful : Judgment
doubtful = record { matched = false; confidence = 30 }
