-- ===== src/Escalation.antt =====
-- types/budget.py and runtime/escalation.py: the money that a run may spend, and when it goes over to a
-- stronger model. Amounts count a smallest unit; a total of `none` is infinite. A fraction spent is
-- compared by cross-multiplication with the high-water mark, a fraction of two natural numbers.
pub mod Choice
pub mod People
mod Examples
use kaos_agents.Prelude.{
  ℕ, ◌+◌, ◌-◌, ◌*◌, leb, ltb, Bool, true, false, ◌||◌, Option, none, some, if◌then◌else◌,
}

pub record CostBudget : Type 0 where
  pub total_usd : Option ℕ
  pub spent_usd : ℕ

-- `__post_init__`, where `none` is the ValueError; amounts below 0 are not represented.
unfoldable pub new : Option ℕ → ℕ → Option CostBudget
new none spent = some record { total_usd = none; spent_usd = spent }
new (some total) spent =
    if leb total 0 then none else some record { total_usd = some total; spent_usd = spent }

-- `none` is infinite.
unfoldable pub remaining_usd : CostBudget → Option ℕ
remaining_usd b = elim b.total_usd [ none ↦ none | some total ↦ some (total - b.spent_usd) ]

unfoldable pub exceeded : CostBudget → Bool
exceeded b = elim b.total_usd [ none ↦ false | some total ↦ leb total b.spent_usd ]

-- `fraction_spent >= num / den`; of an infinite total the fraction is 0.
unfoldable pub fraction_reaches : ℕ → ℕ → CostBudget → Bool
fraction_reaches num den b = elim b.total_usd [
  | none ↦ leb num 0
  | some total ↦ leb (num * total) (b.spent_usd * den)
]

unfoldable pub spend : ℕ → CostBudget → CostBudget
spend amount_usd b = record b { spent_usd = b.spent_usd + amount_usd }

pub data StepOutcome : Type 0 where
  initial success low_confidence refusal invariant_violation provider_error : StepOutcome

pub data EscalationAction : Type 0 where
  stay upgrade downgrade stop : EscalationAction

pub record DefaultEscalationPolicy : Type 0 where
  pub high_water_num : ℕ
  pub high_water_den : ℕ
  pub max_attempts_per_step : ℕ

-- What is chosen after a failure signal.
unfoldable pub after_failure : Bool → CostBudget → DefaultEscalationPolicy → EscalationAction
after_failure is_low_confidence b p =
    if fraction_reaches p.high_water_num p.high_water_den b
    then stop
    else if is_low_confidence
    then if fraction_reaches 1 2 b then stay else upgrade
    else upgrade

unfoldable pub choose : CostBudget → StepOutcome → ℕ → DefaultEscalationPolicy → EscalationAction
unfolding after_failure
choose b outcome attempt p =
    if ltb p.max_attempts_per_step attempt
    then stop
    else if exceeded b
    then stop
    else elim outcome [
      | provider_error ↦ stay
      | initial ↦ stay
      | success ↦ stay
      | low_confidence ↦ after_failure true b p
      | refusal ↦ after_failure false b p
      | invariant_violation ↦ after_failure false b p
    ]
