-- ===== src/Planning/Budget/Stops.antt =====
-- types/plan.py, `PlanBudget.should_stop`: when a budget says stop.
use kaos_agents.Prelude.{
  ℕ, ◌+◌, ◌≤◌, ◌<◌, length, ◌≡◌, ◌≢◌, refl, none, List, [], ◌∷◌, arith, ◌⊎◌, ◌↔◌,
}
use kaos_agents.Planning.Budget.{
  PlanBudget, should_stop, record_step, record_replan, Charge, charges_step, charges_replan, charge,
  charge_all,
}

-- A limit is reached.
abbrev pub IsSpent : ℕ → PlanBudget → Type 0
IsSpent now b =
    (b.max_cost_usd ≤ b.cost_usd)
    ⊎ (b.max_tokens_allowed ≤ b.tokens_used)
    ⊎ (b.max_steps_allowed ≤ b.steps_executed)
    ⊎ (b.max_replans_allowed ≤ b.replans)
    ⊎ (b.start_time + b.max_wall_clock_seconds ≤ now)

pub should_stop-IsSpent : (now : ℕ) (b : PlanBudget) → (should_stop now b ≢ none) ↔ IsSpent now b
unfolding should_stop
should_stop-IsSpent now b = ground arith

charge-IsSpent : (c : Charge) (now : ℕ) (b : PlanBudget) → IsSpent now b → IsSpent now (charge c b)
unfolding charge record_step record_replan
charge-IsSpent (charges_step cost tokens) now b h = ground arith
charge-IsSpent charges_replan now b h = ground arith

charge_all-IsSpent :
    (cs : List Charge) (now : ℕ) (b : PlanBudget) → IsSpent now b → IsSpent now (charge_all cs b)
unfolding charge_all
charge_all-IsSpent [] now b h = h
charge_all-IsSpent (c ∷ cs) now b h =
    charge_all-IsSpent cs now (charge c b) (charge-IsSpent c now b h)

IsSpent-later : (now later : ℕ) (b : PlanBudget) → now ≤ later → IsSpent now b → IsSpent later b
IsSpent-later now later b e h = ground arith

-- A budget that says stop says stop at every later time, whatever is charged to it in between.
pub should_stop-charge_all :
    (cs : List Charge) (now later : ℕ) (b : PlanBudget)
    → now ≤ later
    → should_stop now b ≢ none
    → should_stop later (charge_all cs b) ≢ none
should_stop-charge_all cs now later b e h =
    (should_stop-IsSpent later (charge_all cs b)).1 (
      charge_all-IsSpent cs later b (IsSpent-later now later b e ((should_stop-IsSpent now b).0 h)))

charge_all-counts :
    (cs : List Charge) (b : PlanBudget)
    → let t = charge_all cs b in
      (t.steps_executed + t.replans ≡ b.steps_executed + b.replans + length cs)
      × (t.max_steps_allowed ≡ b.max_steps_allowed)
      × (t.max_replans_allowed ≡ b.max_replans_allowed)
unfolding charge_all charge record_step record_replan
charge_all-counts [] b = (omega arith, refl, refl)
charge_all-counts (charges_step cost tokens ∷ cs) b =
    let (e, s, r) = charge_all-counts cs (record_step cost tokens b) in (omega (arith, e), s, r)
charge_all-counts (charges_replan ∷ cs) b =
    let (e, s, r) = charge_all-counts cs (record_replan b) in (omega (arith, e), s, r)

pub should_stop_below :
    (now : ℕ) (t : PlanBudget)
    → should_stop now t ≡ none
    → (t.steps_executed < t.max_steps_allowed) × (t.replans < t.max_replans_allowed)
unfolding should_stop
should_stop_below now t h = ground arith

-- While a budget does not say stop, fewer steps and replans have been charged to it than its limits
-- on both allow together, so an execution that asks it before each charge comes to an end.
pub charge_all-length :
    (cs : List Charge) (now : ℕ) (b : PlanBudget)
    → should_stop now (charge_all cs b) ≡ none
    → length cs < b.max_steps_allowed + b.max_replans_allowed
charge_all-length cs now b h =
    let (e, s, r) = charge_all-counts cs b in
    let (steps, replans) = should_stop_below now (charge_all cs b) h in
    omega (arith, e, s, r, steps, replans)
