-- ===== src/Termination/Loop.antt =====
-- termination/loop_detect.py: a repeated call among the last ones. Whether two signatures are similar
-- enough is a parameter, the score of another library compared with `min_similarity`; `none` is the
-- fallback to equality.
pub mod Window
pub mod Pairs
use kaos_agents.Prelude.{
  ℕ, suc, ◌+◌, ◌-◌, max, ltb, Bool, true, false, Option, none, some, List, [], ◌∷◌, ◌++◌, String,
  drop, length, if◌then◌else◌,
}
use kaos_agents.Prelude.Equality.{◌==◌, string_key}

pub record LoopDetector : Type 0 where
  pub window_size : ℕ
  pub scorer : Option (String → String → Bool)
  pub signatures : List String

-- `__init__`, after the choice of the algorithm.
unfoldable pub new : ℕ → Option (String → String → Bool) → LoopDetector
new window_size scorer = record {
  window_size = max 2 window_size;
  scorer = scorer;
  signatures = [];
}

-- `deque(maxlen=...).append`: what no longer fits falls off the left end.
unfoldable pub append_bounded : ℕ → List String → String → List String
append_bounded maxlen signatures s =
    let longer = signatures ++ s ∷ [] in drop (length longer - maxlen) longer

-- The inner loop: the first index from `j` on whose signature matches.
unfoldable pub match_from : (String → String → Bool) → ℕ → String → List String → Option ℕ
match_from similar j s [] = none
match_from similar j s (t ∷ later) =
    let rest = match_from similar (suc j) s later in if similar s t then some j else rest

-- The outer loop, from index `i` on.
unfoldable pub pair_from : (String → String → Bool) → ℕ → List String → Option (ℕ × ℕ)
pair_from similar i [] = none
pair_from similar i (s ∷ later) = elim (match_from similar (suc i) s later) [
  | some j ↦ some (i, j)
  | none ↦ pair_from similar (suc i) later
]

-- The matching pair, if there is one.
unfoldable pub check : LoopDetector → Option (ℕ × ℕ)
check d = if ltb (length d.signatures) 2 then none else elim d.scorer [
  | none ↦ pair_from (λ s t. s == t) 0 d.signatures
  | some similar ↦ pair_from similar 0 d.signatures
]

unfoldable pub observe : String → LoopDetector → LoopDetector × Option (ℕ × ℕ)
unfolding append_bounded check
observe s d =
    let d' = record d { signatures = append_bounded d.window_size d.signatures s } in (d', check d')

unfoldable pub reset : LoopDetector → LoopDetector
reset d = record d { signatures = [] }

-- The observations of a run, the oldest first.
unfoldable pub observe_all : List String → LoopDetector → LoopDetector
observe_all [] d = d
observe_all (s ∷ later) d = observe_all later (observe s d).0
