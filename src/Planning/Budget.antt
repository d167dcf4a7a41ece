-- ===== src/Planning/Budget.antt =====
-- types/plan.py, `PlanBudget`: the limits of a plan's execution. Costs count the smallest unit of the
-- currency that is used, and times count clock ticks, in place of floats.
pub mod Stops
use kaos_agents.Prelude.{
  ℕ, ◌+◌, leb, Bool, true, false, Option, none, some, List, [], ◌∷◌, if◌then◌else◌,
}

pub data StopReason : Type 0 where
  success max_cost max_tokens max_steps max_replans max_wall_clock failure needs_replan : StopReason
  escalated pivoted : StopReason

pub record PlanBudget : Type 0 where
  pub max_cost_usd : ℕ
  pub max_tokens_allowed : ℕ
  pub max_steps_allowed : ℕ
  pub max_replans_allowed : ℕ
  pub max_wall_clock_seconds : ℕ
  pub cost_usd : ℕ
  pub tokens_used : ℕ
  pub steps_executed : ℕ
  pub replans : ℕ
  pub start_time : ℕ

-- `now - start_time >= max` with the subtraction moved to the other side.
unfoldable pub should_stop : ℕ → PlanBudget → Option StopReason
should_stop now b =
    if leb b.max_cost_usd b.cost_usd
    then some max_cost
    else if leb b.max_tokens_allowed b.tokens_used
    then some max_tokens
    else if leb b.max_steps_allowed b.steps_executed
    then some max_steps
    else if leb b.max_replans_allowed b.replans
    then some max_replans
    else if leb (b.start_time + b.max_wall_clock_seconds) now
    then some max_wall_clock
    else none

-- The counters; what is forwarded to an optimizer's trial is left out.
unfoldable pub record_step : ℕ → ℕ → PlanBudget → PlanBudget
record_step cost_usd tokens b = record b {
  steps_executed = b.steps_executed + 1;
  cost_usd = b.cost_usd + cost_usd;
  tokens_used = b.tokens_used + tokens;
}

unfoldable pub record_replan : PlanBudget → PlanBudget
record_replan b = record b { replans = b.replans + 1 }

-- What a plan's execution does to its budget.
pub data Charge : Type 0 where
  charges_step : ℕ → ℕ → Charge
  charges_replan : Charge

unfoldable pub charge : Charge → PlanBudget → PlanBudget
charge (charges_step cost_usd tokens) b = record_step cost_usd tokens b
charge charges_replan b = record_replan b

unfoldable pub charge_all : List Charge → PlanBudget → PlanBudget
charge_all [] b = b
charge_all (c ∷ cs) b = charge_all cs (charge c b)
