-- ===== src/Memory/Trim/Order.antt =====
-- memory/session.py, the end of `get_sections`: the order in which the sections give up items.
use kaos_agents.Prelude.{
  ℕ, zero, suc, ◌-◌, ◌≤◌, Option, none, some, ◌≡◌, refl, sym, ◌∙◌, subst, ◌⊎◌, inl, inr, false, not,
  List, [], ◌∷◌, ◌++◌, filter, reverse, arith, Bool-cases, All, leb,
}
use kaos_agents.Prelude.Equality.{contains, contains-append, contains-reverse, contains-filter}
use kaos_agents.Prelude.Dict.{lookup, IsDict}
use kaos_agents.Memory.Types.{MemoryType, memory_type_key}
use kaos_agents.Memory.Trim.{
  Raw, total_tokens, names, trim_order, drop_oldest, items_of, trim, trim_to_budget, trim_sections,
}
use kaos_agents.Memory.Trim.Bound.{
  Covers, trim_to_budget-le, dropped, trim-cons, trim_empty, drop_oldest-tokens, items_of-insert,
}

names_cover : (raw : Raw) (mt : MemoryType) → contains (names raw) mt ≡ false → items_of mt raw ≡ []
unfolding items_of lookup contains
names_cover [] mt h = refl
names_cover ((n, items) ∷ raw) mt h = ground (arith, names_cover raw mt)

-- Without priorities the sections are trimmed in the order in which they were gathered.
pub names-Covers : (raw : Raw) → Covers (names raw) raw
names-Covers raw mt h = names_cover raw mt h

trim_order-contains :
    (priority_order : List MemoryType) (raw : Raw) (mt : MemoryType)
    → contains (trim_order priority_order raw) mt ≡ false
    → contains (names raw) mt ≡ false
unfolding trim_order
trim_order-contains priority_order raw mt h =
    let ordered = filter (λ n. contains (names raw) n) priority_order in
    let unordered = filter (λ n. not (contains ordered n)) (names raw) in
    ground (
      arith,
      contains-append unordered (reverse ordered) mt,
      contains-reverse ordered mt,
      contains-filter (λ n. not (contains ordered n)) (names raw) mt,
    )

pub trim_order-Covers :
    (priority_order : List MemoryType) (raw : Raw) → Covers (trim_order priority_order raw) raw
trim_order-Covers priority_order raw mt h =
    names_cover raw mt (trim_order-contains priority_order raw mt h)

-- For sections that each stand once, the total is within the budget after the trimming, whatever it was
-- before, whether there is a priority order or not, and also with one that does not name every section.
pub trim_sections-le :
    (order : Option (List MemoryType)) (budget : ℕ) (raw : Raw)
    → IsDict raw
    → total_tokens (trim_sections order budget raw) ≤ budget
unfolding trim_sections
trim_sections-le none budget raw d = trim_to_budget-le (names raw) budget raw d (names-Covers raw)
trim_sections-le (some []) budget raw d =
    trim_to_budget-le (names raw) budget raw d (names-Covers raw)
trim_sections-le (some (mt ∷ order)) budget raw d =
    trim_to_budget-le (trim_order (mt ∷ order) raw) budget raw d
      (trim_order-Covers (mt ∷ order) raw)

trim_done : (xs ys : List MemoryType) (e : ℕ) (raw : Raw) → e ≡ 0 → trim xs e raw ≡ trim ys e raw
unfolding trim
trim_done xs ys e raw h = rw h

trim-append :
    (xs ys : List MemoryType) (e : ℕ) (raw : Raw)
    → (trim (xs ++ ys) e raw ≡ trim xs e raw)
      ⊎ All (λ mt. items_of mt (trim (xs ++ ys) e raw) ≡ []) xs
trim-append [] ys e raw = inr tt
trim-append (mt ∷ xs) ys zero raw = inl (trim_done (mt ∷ xs ++ ys) (mt ∷ xs) 0 raw refl)
trim-append (mt ∷ xs) ys (suc e) raw =
    let left = (drop_oldest (suc e) (items_of mt raw)).1 in
    let raw' = dropped (suc e) mt raw in
    elim (trim-append xs ys left raw') [
      | inl same ↦ inl (trim-cons mt (xs ++ ys) e raw ∙ same ∙ sym (trim-cons mt xs e raw))
      | inr empty ↦ elim (drop_oldest-tokens (suc e) (items_of mt raw)).1 [
        | inl done ↦ inl (
            trim-cons mt (xs ++ ys) e raw
            ∙ trim_done (xs ++ ys) xs left raw' done
            ∙ sym (trim-cons mt xs e raw))
        | inr gone ↦ inr (
            subst (λ r. All (λ n. items_of n r ≡ []) (mt ∷ xs))
              (sym (trim-cons mt (xs ++ ys) e raw))
              (trim_empty (xs ++ ys) left raw' mt (dropped_gone (suc e) mt raw gone), empty))
      ]
    ]
  where
    dropped_gone :
        (e : ℕ) (mt : MemoryType) (raw : Raw)
        → (drop_oldest e (items_of mt raw)).0 ≡ []
        → items_of mt (dropped e mt raw) ≡ []
    dropped_gone e mt raw h =
        unfold dropped in (rw (items_of-insert, (memory_type_key.equal_iff mt mt).1 refl) h)

-- The sections `ys` that come later in the order lose items only if all of `xs` end up empty.
pub trim_to_budget-append :
    (xs ys : List MemoryType) (budget : ℕ) (raw : Raw)
    → (trim_to_budget (xs ++ ys) budget raw ≡ trim_to_budget xs budget raw)
      ⊎ All (λ mt. items_of mt (trim_to_budget (xs ++ ys) budget raw) ≡ []) xs
unfolding trim_to_budget
trim_to_budget-append xs ys budget raw = elim (Bool-cases (leb (total_tokens raw) budget)) [
  | inl fits ↦ inl (rw fits)
  | inr over ↦ rw over (trim-append xs ys (total_tokens raw - budget) raw)
]
