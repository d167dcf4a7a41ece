-- ===== src/Memory/Section/Victims.antt =====
-- memory/sections.py, `_evict_by_key` and `_evict_lowest_priority`: which item is given up.
use native.Mathlib.Nat.{zero-add}
use kaos_agents.Prelude.{
  ℕ, zero, suc, ◌+◌, ◌≤◌, ◌≡◌, refl, sym, ap, ◌∙◌, subst, ◌⊎◌, inl, inr, true, false, Option, none,
  some, List, [], ◌∷◌, String, arith, ltb, Bool-cases, All, get_elem?,
}
use kaos_agents.Prelude.Int.{ℤ, ◌≤ℤ◌, ltb_ℤ}
use kaos_agents.Prelude.Equality.{◌==◌, string_key}
use kaos_agents.Memory.Types.{lru, lfu, priority_policy, MemoryItem}
use kaos_agents.Memory.Section.{
  Section, tracked, find_target, remove_by_id, evict_by_key, min_index, remove_at,
  evict_lowest_priority, pick, evict_one,
}

HasId : String → List MemoryItem → Type 0
HasId id [] = ⊥
HasId id (x ∷ xs) = (x.id ≡ id) ⊎ HasId id xs

-- The target of the first loop: the key is at its value, no key of the items is lower, and the
-- target is the one that the loop started with or the id of an item.
record Target (tracking : List (String × ℕ)) (best : String × ℕ) (xs : List MemoryItem)
    (r : Option (String × ℕ)) : Type 0 where
  id : String
  val : ℕ
  result : r ≡ some (id, val)
  at_id : tracked tracking id ≡ val
  le_best : val ≤ best.1
  le_items : All (λ x. val ≤ tracked tracking x.id) xs
  source : (id ≡ best.0) ⊎ HasId id xs

find_target-Target :
    (tracking : List (String × ℕ)) (best : String × ℕ) (xs : List MemoryItem)
    → tracked tracking best.0 ≡ best.1
    → Target tracking best xs (find_target true tracking (some best) xs)
unfolding find_target HasId
find_target-Target tracking (id, val) [] e = record {
  id = id;
  val = val;
  result = refl;
  at_id = e;
  le_best = omega arith;
  le_items = tt;
  source = inl refl;
}
find_target-Target tracking (id, val) (x ∷ xs) e =
    elim (Bool-cases (ltb (tracked tracking x.id) val)) [
      | inl lower ↦
          let t = find_target-Target tracking (x.id, tracked tracking x.id) xs refl in
          rw lower record {
            id = t.id;
            val = t.val;
            result = t.result;
            at_id = t.at_id;
            le_best = ground (arith, t.le_best);
            le_items = (t.le_best, t.le_items);
            source = elim t.source [ inl s ↦ inr (inl (sym s)) | inr s ↦ inr (inr s) ];
          }
      | inr higher ↦
          let t = find_target-Target tracking (id, val) xs e in
          rw higher record {
            id = t.id;
            val = t.val;
            result = t.result;
            at_id = t.at_id;
            le_best = t.le_best;
            le_items = (ground (arith, t.le_best), t.le_items);
            source = elim t.source [ inl s ↦ inl s | inr s ↦ inr (inr s) ];
          }
    ]

remove_by_id_found :
    (id : String) (xs : List MemoryItem)
    → HasId id xs
    → (y : MemoryItem) × (ys : List MemoryItem) × (remove_by_id id xs ≡ some (y, ys)) × (y.id ≡ id)
unfolding remove_by_id HasId
remove_by_id_found id [] h = absurd h
remove_by_id_found id (x ∷ xs) h = elim (Bool-cases (x.id == id)) [
  | inl same ↦ (x, xs, rw same, (string_key.equal_iff x.id id).0 same)
  | inr other ↦ elim h [
    | inl e ↦ absurd (clash (sym other ∙ (string_key.equal_iff x.id id).1 e))
    | inr later ↦
        let (y, ys, e, named) = remove_by_id_found id xs later in (y, x ∷ ys, rw (other, e), named)
  ]
]
  where
    clash : false ≡ true → ⊥
    clash e = cc

by_target :
    (tracking : List (String × ℕ)) (x : MemoryItem) (xs : List MemoryItem) (id : String) (val : ℕ)
    (y : MemoryItem) (ys : List MemoryItem)
    → find_target true tracking none (x ∷ xs) ≡ some (id, val)
    → remove_by_id id (x ∷ xs) ≡ some (y, ys)
    → evict_by_key true tracking x xs ≡ (y, ys)
unfolding evict_by_key
by_target tracking x xs id val y ys e f = rw (e, evict_by_key) (rw f)

evict_by_key-least :
    (tracking : List (String × ℕ)) (x : MemoryItem) (xs : List MemoryItem)
    → All
        (λ y. tracked tracking (evict_by_key true tracking x xs).0.id ≤ tracked tracking y.id)
        (x ∷ xs)
unfolding find_target HasId
evict_by_key-least tracking x xs =
    let t = find_target-Target tracking (x.id, tracked tracking x.id) xs refl in
    let (y, ys, e, named) =
      remove_by_id_found t.id (x ∷ xs) (elim t.source [ inl s ↦ inl (sym s) | inr s ↦ inr s ]) in
    subst (λ n. All (λ z. n ≤ tracked tracking z.id) (x ∷ xs))
      (sym t.at_id
        ∙ ap (tracked tracking) (sym named)
        ∙ ap (λ (r : MemoryItem × List MemoryItem). tracked tracking r.0.id)
            (sym (by_target tracking x xs t.id t.val y ys t.result e)))
      (t.le_best, t.le_items)

-- Under LRU the item that goes was accessed no later than any other, and under LFU no more often.
-- An item that was never accessed counts as accessed at time 0, or 0 times.
pub evict_one-least :
    (s : Section) (v : MemoryItem)
    → (evict_one s).1 ≡ some v
    → (s.config.eviction_policy ≡ lru
        → All (λ y. tracked s.last_access v.id ≤ tracked s.last_access y.id) s.items)
      × (s.config.eviction_policy ≡ lfu
          → All (λ y. tracked s.access_counts v.id ≤ tracked s.access_counts y.id) s.items)
unfolding evict_one pick
evict_one-least s v e = (
  (λ policy. go s.last_access s.items (λ x xs here. cc (rw (policy, here) at e))),
  (λ policy. go s.access_counts s.items (λ x xs here. cc (rw (policy, here) at e))),
)
  where
    go :
        (tracking : List (String × ℕ)) (items : List MemoryItem)
        → ((x : MemoryItem) (xs : List MemoryItem)
            → items ≡ x ∷ xs
            → v ≡ (evict_by_key true tracking x xs).0)
        → All (λ y. tracked tracking v.id ≤ tracked tracking y.id) items
    go tracking [] f = tt
    go tracking (x ∷ xs) f =
        subst (λ w. All (λ y. tracked tracking w.id ≤ tracked tracking y.id) (x ∷ xs))
          (sym (f x xs refl)) (evict_by_key-least tracking x xs)

-- The lowest priority, and where the loop's index points.
record Lowest (i best : ℕ) (low : ℤ) (xs : List MemoryItem) (r : ℕ) : Type 0 where
  bound : ℤ
  le_low : bound ≤ℤ low
  le_items : All (λ x. bound ≤ℤ x.priority) xs
  source :
      (r ≡ best) × (bound ≡ low)
      ⊎ ((k : ℕ) × (y : MemoryItem) × (r ≡ i + k)
          × (get_elem? xs k ≡ some y)
          × (bound ≡ y.priority))

min_index-Lowest :
    (i best : ℕ) (low : ℤ) (xs : List MemoryItem) → Lowest i best low xs (min_index i best low xs)
unfolding min_index
min_index-Lowest i best low [] = record {
  bound = low;
  le_low = omega arith;
  le_items = tt;
  source = inl (refl, refl);
}
min_index-Lowest i best low (x ∷ xs) = elim (Bool-cases (ltb_ℤ x.priority low)) [
  | inl lower ↦
      let t = min_index-Lowest (suc i) i x.priority xs in
      rw lower record {
        bound = t.bound;
        le_low = ground (arith, t.le_low);
        le_items = (t.le_low, t.le_items);
        source = elim t.source [
          | inl (at, e) ↦ inr (0, x, omega (arith, at), refl, e)
          | inr (k, y, at, found, e) ↦ inr (suc k, y, omega (arith, at), found, e)
        ];
      }
  | inr higher ↦
      let t = min_index-Lowest (suc i) best low xs in
      rw higher record {
        bound = t.bound;
        le_low = t.le_low;
        le_items = (ground (arith, t.le_low), t.le_items);
        source = elim t.source [
          | inl s ↦ inl s
          | inr (k, y, at, found, e) ↦ inr (suc k, y, omega (arith, at), found, e)
        ];
      }
]

remove_at_found :
    (i : ℕ) (xs : List MemoryItem) (y : MemoryItem)
    → get_elem? xs i ≡ some y
    → (ys : List MemoryItem) × (remove_at i xs ≡ some (y, ys))
unfolding remove_at
remove_at_found i [] y h = cc
remove_at_found zero (x ∷ xs) y h = (xs, cc)
remove_at_found (suc i) (x ∷ xs) y h = let (ys, e) = remove_at_found i xs y h in (x ∷ ys, rw e)

by_index :
    (x : MemoryItem) (xs : List MemoryItem) (y : MemoryItem)
    → get_elem? (x ∷ xs) (min_index 0 0 x.priority (x ∷ xs)) ≡ some y
    → (evict_lowest_priority x xs).0 ≡ y
unfolding evict_lowest_priority
by_index x xs y h =
    let (ys, e) = remove_at_found (min_index 0 0 x.priority (x ∷ xs)) (x ∷ xs) y h in
    rw (e, evict_lowest_priority)

evict_lowest_priority-lowest :
    (x : MemoryItem) (xs : List MemoryItem)
    → All (λ y. (evict_lowest_priority x xs).0.priority ≤ℤ y.priority) (x ∷ xs)
evict_lowest_priority-lowest x xs =
    let t = min_index-Lowest 0 0 x.priority (x ∷ xs) in
    subst (λ p. All (λ y. p ≤ℤ y.priority) (x ∷ xs))
      (elim t.source [
        | inl (at, e) ↦ e ∙ ap (λ (y : MemoryItem). y.priority) (sym (by_index x xs x (rw at)))
        | inr (k, y, at, found, e) ↦
            e
            ∙ ap (λ (y : MemoryItem). y.priority) (sym (by_index x xs y (rw (at, zero-add) found)))
      ])
      t.le_items

-- Under PRIORITY no item has a lower priority than the one that goes.
pub evict_one-lowest :
    (s : Section) (v : MemoryItem)
    → s.config.eviction_policy ≡ priority_policy
    → (evict_one s).1 ≡ some v
    → All (λ y. v.priority ≤ℤ y.priority) s.items
unfolding evict_one pick
evict_one-lowest s v policy e = go s.items (λ x xs here. cc (rw (policy, here) at e))
  where
    go :
        (items : List MemoryItem)
        → ((x : MemoryItem) (xs : List MemoryItem)
            → items ≡ x ∷ xs
            → v ≡ (evict_lowest_priority x xs).0)
        → All (λ y. v.priority ≤ℤ y.priority) items
    go [] f = tt
    go (x ∷ xs) f =
        subst (λ w. All (λ y. w.priority ≤ℤ y.priority) (x ∷ xs)) (sym (f x xs refl))
          (evict_lowest_priority-lowest x xs)
