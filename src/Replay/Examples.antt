-- ===== src/Replay/Examples.antt =====
-- Two runs that differ in their costs only, one that diverges, and the theorem at the first two.
use kaos_agents.Prelude.{ℕ, ◌≡◌, ◌↔◌, refl, true, none, some, List, [], ◌∷◌}
use kaos_agents.Replay.{RecordedEvent, first_divergence, is_equivalent}
use kaos_agents.Replay.Divergence.{types_of, turns_of, is_equivalent_iff}

abbrev spent : ℕ → RecordedEvent
spent cost = record { type_name = "usage_observed"; cost = cost; summary_text = none }

abbrev summary : RecordedEvent
summary = record { type_name = "turn_summary"; cost = 0; summary_text = some "Done." }

abbrev baseline : List RecordedEvent
baseline = spent 3 ∷ summary ∷ []

abbrev candidate : List RecordedEvent
candidate = spent 5 ∷ summary ∷ []

is_equivalent_iff_example :
    (is_equivalent baseline candidate ≡ true)
    ↔ ((types_of baseline ≡ types_of candidate) × (turns_of baseline ≡ turns_of candidate))
is_equivalent_iff_example = is_equivalent_iff baseline candidate

diverges_at_one : first_divergence baseline (spent 3 ∷ spent 3 ∷ []) ≡ some 1
unfolding first_divergence
diverges_at_one = refl
