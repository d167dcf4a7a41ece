-- ===== src/Planning/Route/Decisions.antt =====
-- planning/route.py: when each decision is taken.
use kaos_agents.Prelude.{ℕ, ◌<◌, ◌≡◌, ◌≢◌, ◌↔◌, leb, Option, none, String, arith}
use kaos_agents.Planning.Budget.{PlanBudget, should_stop}
use kaos_agents.Planning.Route.{continue_plan, replan, Judgment, route}

module _ (now : ℕ) (j : Judgment) (budget : PlanBudget) (replan_count threshold : ℕ)
    (step_id : Option String) where
  -- The plan goes on exactly if the budget does not say stop, replans are left, and the judgment is a
  -- confident match or a rejection below the threshold of confidence.
  pub route_continue :
      ((route now j budget replan_count threshold step_id).decision ≡ continue_plan)
      ↔ (should_stop now budget ≡ none)
        × (replan_count < budget.max_replans_allowed)
        × (j.matched ≡ leb threshold j.confidence)
  unfolding route
  route_continue = ground arith

  -- The plan is made anew exactly if the budget does not say stop, replans are left, and the judgment
  -- is a confident rejection or a match below the threshold of confidence.
  pub route_replan :
      ((route now j budget replan_count threshold step_id).decision ≡ replan)
      ↔ (should_stop now budget ≡ none)
        × (replan_count < budget.max_replans_allowed)
        × (j.matched ≢ leb threshold j.confidence)
  unfolding route
  route_replan = ground arith
