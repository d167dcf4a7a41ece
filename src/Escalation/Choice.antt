-- ===== src/Escalation/Choice.antt =====
-- runtime/escalation.py: when a run goes over to a stronger model, and how spending bears on it.
use kaos_agents.Prelude.{ℕ, ◌≤◌, ◌≡◌, ◌⊎◌, ◌↔◌, false, arith}
use native.Mathlib.Nat.{add-mul}
use kaos_agents.Escalation.{
  CostBudget, exceeded, fraction_reaches, spend, StepOutcome, low_confidence, refusal,
  invariant_violation, upgrade, DefaultEscalationPolicy, choose,
}

-- The outcomes that ask for a stronger model.
abbrev pub Fails : StepOutcome → Type 0
Fails outcome = (outcome ≡ low_confidence) ⊎ (outcome ≡ refusal) ⊎ (outcome ≡ invariant_violation)

-- A stronger model is chosen exactly if the attempts allow it, money is left, the step failed by its
-- own result, the part that is spent is below the high-water mark, and below one half if the step
-- was only of low confidence.
pub choose_upgrade :
    (b : CostBudget) (outcome : StepOutcome) (attempt : ℕ) (p : DefaultEscalationPolicy)
    → (choose b outcome attempt p ≡ upgrade)
      ↔ (attempt ≤ p.max_attempts_per_step)
        × (exceeded b ≡ false)
        × Fails outcome
        × (fraction_reaches p.high_water_num p.high_water_den b ≡ false)
        × (outcome ≡ low_confidence → fraction_reaches 1 2 b ≡ false)
unfolding choose
choose_upgrade b outcome attempt p = ground arith

exceeded-spend : (n : ℕ) (b : CostBudget) → exceeded (spend n b) ≡ false → exceeded b ≡ false
unfolding exceeded spend
exceeded-spend n b h = ground arith

fraction_reaches-spend :
    (num den n : ℕ) (b : CostBudget)
    → fraction_reaches num den (spend n b) ≡ false
    → fraction_reaches num den b ≡ false
unfolding fraction_reaches spend
fraction_reaches-spend num den n b h = ground (arith, add-mul b.spent_usd n den)

-- If a stronger model is chosen after some more money is spent, it would have been chosen before.
pub choose-spend :
    (n : ℕ) (b : CostBudget) (outcome : StepOutcome) (attempt : ℕ) (p : DefaultEscalationPolicy)
    → choose (spend n b) outcome attempt p ≡ upgrade
    → choose b outcome attempt p ≡ upgrade
choose-spend n b outcome attempt p h =
    let (tries, left, failed, below, half) = (choose_upgrade (spend n b) outcome attempt p).0 h in
    (choose_upgrade b outcome attempt p).1 (
      tries,
      exceeded-spend n b left,
      failed,
      fraction_reaches-spend p.high_water_num p.high_water_den n b below,
      λ e. fraction_reaches-spend 1 2 n b (half e),
    )
