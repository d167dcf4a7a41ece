-- ===== src/Memory/Trim/Bound.antt =====
-- memory/session.py, the end of `get_sections`: the total after the trimming, and the items that stay.
use kaos_agents.Prelude.{
  ℕ, zero, suc, ◌+◌, ◌-◌, ◌≤◌, ◌≡◌, refl, sym, ap, ◌∙◌, subst, ◌⊎◌, inl, inr, leb, true, false,
  none, List, [], ◌∷◌, ◌++◌, arith, Bool-cases, if◌then◌else◌, All, IsSuffix, IsSuffix-refl,
}
use mathlib.Core.List.{append_assoc}
use kaos_agents.Prelude.Equality.{◌==◌, contains}
use kaos_agents.Prelude.Dict.{lookup, insert, lookup-insert, IsDict, insert-IsDict}
use kaos_agents.Memory.Types.{MemoryType, memory_type_key, MemoryItem, tokens}
use kaos_agents.Memory.Trim.{Raw, total_tokens, drop_oldest, items_of, trim, trim_to_budget}

-- What the inner loop frees is what the excess falls by, and it only gives up when nothing is left.
pub drop_oldest-tokens :
    (e : ℕ) (items : List MemoryItem)
    → let (kept, left) = drop_oldest e items in
      (tokens kept + e ≤ tokens items + left) × ((left ≡ 0) ⊎ (kept ≡ []))
unfolding drop_oldest
drop_oldest-tokens zero items = (omega arith, inl refl)
drop_oldest-tokens (suc e) [] = (omega arith, inr refl)
drop_oldest-tokens (suc e) (x ∷ xs) =
    let (tally, end) = drop_oldest-tokens (suc e - x.token_count) xs in (omega (arith, tally), end)

drop_oldest-IsSuffix : (e : ℕ) (items : List MemoryItem) → IsSuffix (drop_oldest e items).0 items
unfolding drop_oldest
drop_oldest-IsSuffix zero items = ([], refl)
drop_oldest-IsSuffix (suc e) [] = ([], refl)
drop_oldest-IsSuffix (suc e) (x ∷ xs) =
    let (before, p) = drop_oldest-IsSuffix (suc e - x.token_count) xs in
    (x ∷ before, ap (λ l. x ∷ l) p)

pub items_of-insert :
    (mt n : MemoryType) (items : List MemoryItem) (raw : Raw)
    → items_of n (insert mt items raw) ≡ (if mt == n then items else items_of n raw)
unfolding items_of
items_of-insert mt n items raw = elim (Bool-cases (mt == n)) [
  | inl same ↦ rw (lookup-insert mt n items raw, items_of) (rw same)
  | inr other ↦ rw (lookup-insert mt n items raw, items_of) (rw other)
]

total_tokens-insert :
    (mt : MemoryType) (items : List MemoryItem) (raw : Raw)
    → total_tokens (insert mt items raw) + tokens (items_of mt raw)
      ≡ total_tokens raw + tokens items
unfolding insert items_of lookup
total_tokens-insert mt items [] = omega arith
total_tokens-insert mt items ((n, old) ∷ raw) = ground (arith, total_tokens-insert mt items raw)

-- The map after one turn of the outer loop.
unfoldable pub dropped : ℕ → MemoryType → Raw → Raw
dropped e mt raw = insert mt (drop_oldest e (items_of mt raw)).0 raw

pub trim-cons :
    (mt : MemoryType) (order : List MemoryType) (e : ℕ) (raw : Raw)
    → trim (mt ∷ order) (suc e) raw
      ≡ trim order (drop_oldest (suc e) (items_of mt raw)).1 (dropped (suc e) mt raw)
unfolding trim dropped
trim-cons mt order e raw = refl

dropped-IsSuffix :
    (e : ℕ) (mt n : MemoryType) (raw : Raw)
    → IsSuffix (items_of n (dropped e mt raw)) (items_of n raw)
unfolding dropped
dropped-IsSuffix e mt n raw = elim (Bool-cases (mt == n)) [
  | inl same ↦
      rw (items_of-insert, same)
        (subst (λ k. IsSuffix (drop_oldest e (items_of mt raw)).0 (items_of k raw))
          ((memory_type_key.equal_iff mt n).0 same) (drop_oldest-IsSuffix e (items_of mt raw)))
  | inr other ↦ rw (items_of-insert, other) (IsSuffix-refl (items_of n raw))
]

IsSuffix-trans : {xs ys zs : List MemoryItem} → IsSuffix xs ys → IsSuffix ys zs → IsSuffix xs zs
IsSuffix-trans {xs} (b, p) (c, q) = (c ++ b, q ∙ ap (λ l. c ++ l) p ∙ sym (append_assoc c b xs))

-- Each section keeps its newest items: what it loses are its oldest.
pub trim-IsSuffix :
    (order : List MemoryType) (e : ℕ) (raw : Raw) (n : MemoryType)
    → IsSuffix (items_of n (trim order e raw)) (items_of n raw)
trim-IsSuffix order zero raw n = unfold trim in ([], refl)
trim-IsSuffix [] (suc e) raw n = unfold trim in ([], refl)
trim-IsSuffix (mt ∷ order) (suc e) raw n = rw trim-cons (
    IsSuffix-trans
      (trim-IsSuffix order (drop_oldest (suc e) (items_of mt raw)).1 (dropped (suc e) mt raw) n)
      (dropped-IsSuffix (suc e) mt n raw))

IsSuffix-nil : {ys : List MemoryItem} → IsSuffix ys [] → ys ≡ []
IsSuffix-nil ([], p) = sym p
IsSuffix-nil (x ∷ b, p) = cc

-- An empty section stays empty.
pub trim_empty :
    (order : List MemoryType) (e : ℕ) (raw : Raw) (n : MemoryType)
    → items_of n raw ≡ []
    → items_of n (trim order e raw) ≡ []
trim_empty order e raw n h = IsSuffix-nil (rw h at (trim-IsSuffix order e raw n))

trim_done :
    (order : List MemoryType) (e : ℕ) (raw : Raw)
    → e ≡ 0
    → total_tokens (trim order e raw) ≤ total_tokens raw
unfolding trim
trim_done order e raw h = rw h (omega arith)

trim-total_step :
    (mt : MemoryType) (order : List MemoryType) (e : ℕ) (raw : Raw)
    → let left = (drop_oldest e (items_of mt raw)).1 in
      let r = trim order left (dropped e mt raw) in
      (total_tokens r + left ≤ total_tokens (dropped e mt raw)) ⊎ All (λ n. items_of n r ≡ []) order
      → (total_tokens r + e ≤ total_tokens raw) ⊎ All (λ n. items_of n r ≡ []) (mt ∷ order)
unfolding dropped
trim-total_step mt order e raw (inl h) = inl (
    omega (
      arith,
      (drop_oldest-tokens e (items_of mt raw)).0,
      total_tokens-insert mt (drop_oldest e (items_of mt raw)).0 raw,
    ))
trim-total_step mt order e raw (inr h) = elim (drop_oldest-tokens e (items_of mt raw)).1 [
  | inl done ↦ inl (
      omega (
        arith,
        (drop_oldest-tokens e (items_of mt raw)).0,
        done,
        total_tokens-insert mt (drop_oldest e (items_of mt raw)).0 raw,
        trim_done order (drop_oldest e (items_of mt raw)).1 (dropped e mt raw) done,
      ))
  | inr empty ↦ inr (
    trim_empty order (drop_oldest e (items_of mt raw)).1 (dropped e mt raw) mt
        (rw (items_of-insert, (memory_type_key.equal_iff mt mt).1 refl) empty),
    h,
  )
]

-- Either the excess is gone from the total, or every section of the order is empty.
trim-total :
    (order : List MemoryType) (e : ℕ) (raw : Raw)
    → (total_tokens (trim order e raw) + e ≤ total_tokens raw)
      ⊎ All (λ mt. items_of mt (trim order e raw) ≡ []) order
trim-total order zero raw = unfold trim in (inl (omega arith))
trim-total [] (suc e) raw = unfold trim in (inr tt)
trim-total (mt ∷ order) (suc e) raw =
    subst
      (λ r. (total_tokens r + suc e ≤ total_tokens raw) ⊎ All (λ n. items_of n r ≡ []) (mt ∷ order))
      (sym (trim-cons mt order e raw))
      (trim-total_step mt order (suc e) raw
        (trim-total order (drop_oldest (suc e) (items_of mt raw)).1 (dropped (suc e) mt raw)))

trim-IsDict : (order : List MemoryType) (e : ℕ) (raw : Raw) → IsDict raw → IsDict (trim order e raw)
trim-IsDict order zero raw d = unfold trim in d
trim-IsDict [] (suc e) raw d = unfold trim in d
trim-IsDict (mt ∷ order) (suc e) raw d = rw trim-cons (
    trim-IsDict order (drop_oldest (suc e) (items_of mt raw)).1 (dropped (suc e) mt raw)
      (unfold dropped in insert-IsDict mt (drop_oldest (suc e) (items_of mt raw)).0 raw d))

items_of_head :
    (n : MemoryType) (items : List MemoryItem) (raw : Raw)
    → items_of n ((n, items) ∷ raw) ≡ []
    → items ≡ []
unfolding items_of lookup
items_of_head n items raw h = ground (arith, memory_type_key.equal_iff n n)

items_of_tail :
    (n mt : MemoryType) (items : List MemoryItem) (raw : Raw)
    → lookup n raw ≡ none
    → items_of mt ((n, items) ∷ raw) ≡ []
    → items_of mt raw ≡ []
unfolding items_of lookup
items_of_tail n mt items raw fresh h = elim (Bool-cases (n == mt)) [
  | inl same ↦
      subst (λ k. items_of k raw ≡ []) ((memory_type_key.equal_iff n mt).0 same) (ground arith)
  | inr other ↦ ground arith
]

total_tokens-zero :
    (raw : Raw) → IsDict raw → ((mt : MemoryType) → items_of mt raw ≡ []) → total_tokens raw ≡ 0
total_tokens-zero [] d h = refl
total_tokens-zero ((n, items) ∷ raw) (fresh, d) h = omega (
  arith,
  ap tokens (items_of_head n items raw (h n)),
  total_tokens-zero raw d (λ mt. items_of_tail n mt items raw fresh (h mt)),
)

All-contains :
    (P : MemoryType → Type 0) (order : List MemoryType) (mt : MemoryType)
    → All P order
    → contains order mt ≡ true
    → P mt
unfolding contains
All-contains P [] mt h c = absurd (clash c)
  where
    clash : false ≡ true → ⊥
    clash e = cc
All-contains P (n ∷ order) mt (p, h) c = elim (Bool-cases (n == mt)) [
  | inl same ↦ subst P ((memory_type_key.equal_iff n mt).0 same) p
  | inr other ↦ All-contains P order mt h (rw other at c)
]

-- The order names every section that has items.
abbrev pub Covers : List MemoryType → Raw → Type 0
Covers order raw = (mt : MemoryType) → contains order mt ≡ false → items_of mt raw ≡ []

-- For sections that each stand once, and in an order that names every section with items, the total is
-- within the budget after the trimming.
pub trim_to_budget-le :
    (order : List MemoryType) (budget : ℕ) (raw : Raw)
    → IsDict raw
    → Covers order raw
    → total_tokens (trim_to_budget order budget raw) ≤ budget
unfolding trim_to_budget
trim_to_budget-le order budget raw d covers = elim (Bool-cases (leb (total_tokens raw) budget)) [
  | inl fits ↦ rw fits (ground arith)
  | inr over ↦ rw over (elim (trim-total order (total_tokens raw - budget) raw) [
    | inl h ↦ ground arith
    | inr empty ↦ omega (
      arith,
      total_tokens-zero _ (trim-IsDict order (total_tokens raw - budget) raw d) (λ mt.
          elim (Bool-cases (contains order mt)) [
            | inl c ↦ All-contains _ order mt empty c
            | inr c ↦ trim_empty order (total_tokens raw - budget) raw mt (covers mt c)
          ]),
    )
  ])
]

-- Each section keeps its newest items: the trimming drops from the oldest end.
pub trim_to_budget-IsSuffix :
    (order : List MemoryType) (budget : ℕ) (raw : Raw) (mt : MemoryType)
    → IsSuffix (items_of mt (trim_to_budget order budget raw)) (items_of mt raw)
unfolding trim_to_budget
trim_to_budget-IsSuffix order budget raw mt = elim (Bool-cases (leb (total_tokens raw) budget)) [
  | inl fits ↦ rw fits (IsSuffix-refl (items_of mt raw))
  | inr over ↦ rw over (trim-IsSuffix order (total_tokens raw - budget) raw mt)
]
