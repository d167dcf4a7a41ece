-- ===== src/Memory/Institutional/Ranking.antt =====
-- memory/institutional.py, `query`: which entries are shown.
use mathlib.Core.List.{Perm}
use mathlib.Core.List.Perm
use kaos_agents.Prelude.Equality.{string_key}
use kaos_agents.Prelude.{
  true, ℕ, zero, suc, ◌≤◌, ltb, ◌≡◌, refl, ap, ◌∙◌, inl, inr, false, List, [], ◌∷◌, ◌++◌, String,
  All, filter, take, drop, length, min, arith, Bool-cases,
}
use kaos_agents.Prelude.Result.{Result, ok, err}
use kaos_agents.Memory.Institutional.{
  KbEntry, KbQuery, KnowledgeBase, MatterIsolationError, cross_namespace, passes, place, ranked,
  in_scope, query,
}

module _ (score : KbEntry → ℕ) where
  abbrev pub Below : ℕ → List KbEntry → Type 0
  Below n xs = All (λ (x : KbEntry). score x ≤ n) xs

  abbrev pub IsRanked : List KbEntry → Type 0
  IsRanked [] = Unit {0}
  IsRanked (x ∷ xs) = Below (score x) xs × IsRanked xs

  Below-trans : (m n : ℕ) (xs : List KbEntry) → m ≤ n → Below m xs → Below n xs
  Below-trans m n [] h b = tt
  Below-trans m n (x ∷ xs) h b = (omega (arith, b.0), Below-trans m n xs h b.1)

  place-Below :
      (n : ℕ) (e : KbEntry) (xs : List KbEntry)
      → score e ≤ n
      → Below n xs
      → Below n (place score e xs)
  unfolding place
  place-Below n e [] h b = (h, tt)
  place-Below n e (x ∷ xs) h b = elim (Bool-cases (ltb (score e) (score x))) [
    | inl less ↦ rw less (b.0, place-Below n e xs h b.1)
    | inr more ↦ rw more (h, b)
  ]

  place-IsRanked : (e : KbEntry) (xs : List KbEntry) → IsRanked xs → IsRanked (place score e xs)
  unfolding place
  place-IsRanked e [] r = (tt, tt)
  place-IsRanked e (x ∷ xs) r = elim (Bool-cases (ltb (score e) (score x))) [
    | inl less ↦ rw less (place-Below (score x) e xs (ground arith) r.0, place-IsRanked e xs r.1)
    | inr more ↦
        let h : score x ≤ score e = ground arith in
        rw more ((h, Below-trans (score x) (score e) xs h r.0), r)
  ]

  place-Perm : (e : KbEntry) (xs : List KbEntry) → Perm (place score e xs) (e ∷ xs)
  unfolding place
  place-Perm e [] = Perm.refl _
  place-Perm e (x ∷ xs) = elim (Bool-cases (ltb (score e) (score x))) [
    | inl less ↦ rw less (Perm.trans (Perm.cons x (place-Perm e xs)) (Perm.swap e x xs))
    | inr more ↦ rw more (Perm.refl _)
  ]

  ranked-IsRanked : (xs : List KbEntry) → IsRanked (ranked score xs)
  unfolding ranked
  ranked-IsRanked [] = tt
  ranked-IsRanked (x ∷ xs) = place-IsRanked x (ranked score xs) (ranked-IsRanked xs)

  ranked-Perm : (xs : List KbEntry) → Perm (ranked score xs) xs
  unfolding ranked
  ranked-Perm [] = Perm.refl _
  ranked-Perm (x ∷ xs) = Perm.trans (place-Perm x (ranked score xs)) (Perm.cons x (ranked-Perm xs))

  module _ (Q : KbEntry → Type 0) where
    place-All : (e : KbEntry) (xs : List KbEntry) → Q e → All Q xs → All Q (place score e xs)
    unfolding place
    place-All e [] q h = (q, tt)
    place-All e (x ∷ xs) q h = elim (Bool-cases (ltb (score e) (score x))) [
      | inl less ↦ rw less (h.0, place-All e xs q h.1)
      | inr more ↦ rw more (q, h)
    ]

    ranked-All : (xs : List KbEntry) → All Q xs → All Q (ranked score xs)
    unfolding ranked
    ranked-All [] h = tt
    ranked-All (x ∷ xs) h = place-All x (ranked score xs) h.0 (ranked-All xs h.1)

    All-take : (k : ℕ) (xs : List KbEntry) → All Q xs → All Q (take k xs)
    All-take zero xs h = tt
    All-take (suc k) [] h = tt
    All-take (suc k) (x ∷ xs) h = (h.0, All-take k xs h.1)

  -- Each of the first is scored at least as each of the others.
  abbrev pub Outscore : List KbEntry → List KbEntry → Type 0
  Outscore first others = All (λ (x : KbEntry). Below (score x) others) first

  Below-drop : (n k : ℕ) (xs : List KbEntry) → Below n xs → Below n (drop k xs)
  Below-drop n zero xs b = b
  Below-drop n (suc k) [] b = tt
  Below-drop n (suc k) (x ∷ xs) b = Below-drop n k xs b.1

  Below-take : (n k : ℕ) (xs : List KbEntry) → Below n xs → Below n (take k xs)
  Below-take n zero xs b = tt
  Below-take n (suc k) [] b = tt
  Below-take n (suc k) (x ∷ xs) b = (b.0, Below-take n k xs b.1)

  IsRanked-Outscore : (k : ℕ) (xs : List KbEntry) → IsRanked xs → Outscore (take k xs) (drop k xs)
  IsRanked-Outscore zero xs r = tt
  IsRanked-Outscore (suc k) [] r = tt
  IsRanked-Outscore (suc k) (x ∷ xs) r = (Below-drop (score x) k xs r.0, IsRanked-Outscore k xs r.1)

  IsRanked-take : (k : ℕ) (xs : List KbEntry) → IsRanked xs → IsRanked (take k xs)
  IsRanked-take zero xs r = tt
  IsRanked-take (suc k) [] r = tt
  IsRanked-take (suc k) (x ∷ xs) r = (Below-take (score x) k xs r.0, IsRanked-take k xs r.1)

take-append-drop : {A : Type 0} (k : ℕ) (xs : List A) → take k xs ++ drop k xs ≡ xs
take-append-drop zero xs = refl
take-append-drop (suc k) [] = refl
take-append-drop (suc k) (x ∷ xs) = ap (λ l. x ∷ l) (take-append-drop k xs)

length-take : {A : Type 0} (k : ℕ) (xs : List A) → length (take k xs) ≡ min k (length xs)
length-take zero xs = omega arith
length-take (suc k) [] = omega arith
length-take (suc k) (x ∷ xs) = omega (arith, length-take k xs)

length-place :
    (score : KbEntry → ℕ) (e : KbEntry) (xs : List KbEntry)
    → length (place score e xs) ≡ suc (length xs)
unfolding place
length-place score e [] = refl
length-place score e (x ∷ xs) = ground (arith, length-place score e xs)

length-ranked : (score : KbEntry → ℕ) (xs : List KbEntry) → length (ranked score xs) ≡ length xs
unfolding ranked
length-ranked score [] = refl
length-ranked score (x ∷ xs) =
    length-place score x (ranked score xs) ∙ ap suc (length-ranked score xs)

-- An entry that a query may show.
abbrev pub Fits : KbQuery → KbEntry → Type 0
Fits q e = (e.matter_client ≡ q.matter_client) × (q.min_confidence ≤ e.confidence)

in_scope-Fits : (q : KbQuery) (e : KbEntry) → in_scope q e ≡ true → Fits q e
unfolding in_scope
in_scope-Fits q e h =
    let matter : e.matter_client.0 ≡ q.matter_client.0 =
      (string_key.equal_iff e.matter_client.0 q.matter_client.0).0 (ground arith) in
    let client : e.matter_client.1 ≡ q.matter_client.1 =
      (string_key.equal_iff e.matter_client.1 q.matter_client.1).0 (ground arith) in
    ((λ i. (matter i, client i)), ground arith)

filter-Fits : (q : KbQuery) (xs : List KbEntry) → All (Fits q) (filter (in_scope q) xs)
unfolding filter
filter-Fits q [] = tt
filter-Fits q (e ∷ xs) = elim (Bool-cases (in_scope q e)) [
  | inl fits ↦ rw (fits, All) (in_scope-Fits q e fits, filter-Fits q xs)
  | inr other ↦ rw (other, All) (filter-Fits q xs)
]

module _ (score : String → String → ℕ) (q : KbQuery) (kb : KnowledgeBase) where
  abbrev pub by_words : KbEntry → ℕ
  by_words e = score e.statement q.query_text

  abbrev pub Shown : Result MatterIsolationError (List KbEntry) → Type 0
  Shown (ok shown) =
      (left : List KbEntry) × Perm (shown ++ left) (filter (in_scope q) kb.entries)
      × All (Fits q) shown
      × Outscore by_words shown left
      × IsRanked by_words shown
      × (length shown ≡ min q.top_k (length (filter (in_scope q) kb.entries)))
  Shown (err e) = (e ≡ cross_namespace q.matter_client) × (passes kb.guard q.matter_client ≡ false)

  -- A query that the guard lets pass shows entries of its own namespace that are confident enough, by
  -- falling score, as many as there are in its scope up to its limit; with the entries that are left out
  -- they are a permutation of the entries in its scope, and none left out is scored above one that is
  -- shown. A query that the guard does not let pass raises.
  pub query-Shown : Shown (query score q kb)
  unfolding query
  query-Shown = elim (Bool-cases (passes kb.guard q.matter_client)) [
    | inl free ↦
        let scoped = filter (in_scope q) kb.entries in
        let order = ranked-IsRanked by_words scoped in
        let found = ranked by_words scoped in
        rw free (
          drop q.top_k found,
          rw take-append-drop (ranked-Perm by_words scoped),
          All-take by_words (Fits q) q.top_k found
              (ranked-All by_words (Fits q) scoped (filter-Fits q kb.entries)),
          IsRanked-Outscore by_words q.top_k found order,
          IsRanked-take by_words q.top_k found order,
          length-take q.top_k found ∙ ap (min q.top_k) (length-ranked by_words scoped),
        )
    | inr shut ↦ rw shut (refl, shut)
  ]
