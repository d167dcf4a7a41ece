-- ===== src/Termination/Loop/Pairs.antt =====
-- termination/loop_detect.py: the pair that the detector reports, and when it reports none.
use kaos_agents.Prelude.{
  ℕ, suc, ◌+◌, ◌<◌, ◌≡◌, refl, subst, inl, inr, Bool, true, false, Option, none, some, List, [],
  ◌∷◌, String, length, get_elem?, arith, Bool-cases, Option-cases, ltb, All,
}
use kaos_agents.Prelude.Equality.{◌==◌, string_key}
use kaos_agents.Termination.Loop.{LoopDetector, match_from, pair_from, check}

module _ (similar : String → String → Bool) where
  -- A match in `later`, whose first index is `j`, or none at all.
  abbrev Matched : ℕ → String → List String → Option ℕ → Type 0
  Matched j s later none = All (λ t. similar s t ≡ false) later
  Matched j s later (some k) =
      (n : ℕ) × (t : String) × (k ≡ j + n) × (get_elem? later n ≡ some t) × (similar s t ≡ true)

  Matched-suc :
      (j : ℕ) (s t : String) (later : List String) (o : Option ℕ)
      → similar s t ≡ false
      → Matched (suc j) s later o
      → Matched j s (t ∷ later) o
  Matched-suc j s t later none differs h = (differs, h)
  Matched-suc j s t later (some k) differs (n, u, e, found, match) =
      (suc n, u, omega (arith, e), found, match)

  match_from-Matched :
      (j : ℕ) (s : String) (later : List String) → Matched j s later (match_from similar j s later)
  unfolding match_from
  match_from-Matched j s [] = tt
  match_from-Matched j s (t ∷ later) = elim (Bool-cases (similar s t)) [
    | inl match ↦ rw match (0, t, omega arith, refl, match)
    | inr differs ↦
        rw differs (Matched-suc j s t later _ differs (match_from-Matched (suc j) s later))
  ]

  -- No signature is similar to a later one.
  abbrev pub AllDiffer : List String → Type 0
  AllDiffer [] = Unit
  AllDiffer (s ∷ later) = All (λ t. similar s t ≡ false) later × AllDiffer later

  -- The pair `(a, b)` of positions, counted from `i`, holds similar signatures, the earlier one first;
  -- no pair means that all differ.
  abbrev pub Reports : ℕ → List String → Option (ℕ × ℕ) → Type 0
  Reports i signatures none = AllDiffer signatures
  Reports i signatures (some (a, b)) =
      (m : ℕ) × (n : ℕ) × (s : String) × (t : String) × (a ≡ i + m)
      × (b ≡ i + n)
      × (m < n)
      × (get_elem? signatures m ≡ some s)
      × (get_elem? signatures n ≡ some t)
      × (similar s t ≡ true)

  Reports-suc :
      (i : ℕ) (s : String) (later : List String) (o : Option (ℕ × ℕ))
      → All (λ t. similar s t ≡ false) later
      → Reports (suc i) later o
      → Reports i (s ∷ later) o
  Reports-suc i s later none differs h = (differs, h)
  Reports-suc i s later (some (a, b)) differs (m, n, u, v, ea, eb, before, fu, fv, match) = (
    suc m,
    suc n,
    u,
    v,
    omega (arith, ea),
    omega (arith, eb),
    omega (arith, before),
    fu,
    fv,
    match,
  )

  pub pair_from-Reports :
      (i : ℕ) (signatures : List String) → Reports i signatures (pair_from similar i signatures)
  unfolding pair_from
  pair_from-Reports i [] = tt
  pair_from-Reports i (s ∷ later) = elim (Option-cases (match_from similar (suc i) s later)) [
    | inl unmatched ↦
        rw (unmatched, pair_from)
          (Reports-suc i s later _
            (subst (Matched (suc i) s later) unmatched (match_from-Matched (suc i) s later))
            (pair_from-Reports (suc i) later))
    | inr (j, matched) ↦
        rw (matched, pair_from)
          (here i s later j
            (subst (Matched (suc i) s later) matched (match_from-Matched (suc i) s later)))
  ]
    where
      here :
          (i : ℕ) (s : String) (later : List String) (j : ℕ)
          → Matched (suc i) s later (some j)
          → Reports i (s ∷ later) (some (i, j))
      here i s later j (n, t, e, found, match) =
          (0, suc n, s, t, omega arith, omega (arith, e), omega arith, refl, found, match)

-- How the detector compares two signatures.
abbrev pub comparison : Option (String → String → Bool) → String → String → Bool
comparison none s t = s == t
comparison (some similar) s t = similar s t

few :
    (similar : String → String → Bool) (signatures : List String)
    → ltb (length signatures) 2 ≡ true
    → AllDiffer similar signatures
few similar [] h = tt
few similar (s ∷ []) h = (tt, tt)
few similar (s ∷ t ∷ later) h = absurd (many (length later) h)
  where
    many : (n : ℕ) → ltb (suc (suc n)) 2 ≡ true → ⊥
    many n e = ground arith

-- The detector reports two of the signatures that it remembers, which it compares as similar, the
-- earlier one first; if it reports none, no two of them are similar.
pub check-Reports : (d : LoopDetector) → Reports (comparison d.scorer) 0 d.signatures (check d)
unfolding check
check-Reports d = elim (Bool-cases (ltb (length d.signatures) 2)) [
  | inl short ↦ rw short (few (comparison d.scorer) d.signatures short)
  | inr long ↦ rw long (scored d d.scorer)
]
  where
    scored :
        (d : LoopDetector) (o : Option (String → String → Bool))
        → Reports (comparison o) 0 d.signatures (elim o as (λ _. Option (ℕ × ℕ)) [
          | none ↦ pair_from (λ s t. s == t) 0 d.signatures
          | some similar ↦ pair_from similar 0 d.signatures
        ])
    scored d none = pair_from-Reports (λ s t. s == t) 0 d.signatures
    scored d (some similar) = pair_from-Reports similar 0 d.signatures
