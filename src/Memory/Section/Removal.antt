-- ===== src/Memory/Section/Removal.antt =====
-- memory/sections.py, `_evict_one`: what one eviction takes away.
use mathlib.Core.Option
use kaos_agents.Prelude.{
  ℕ, zero, suc, ◌+◌, ◌≡◌, refl, ◌⊎◌, inl, inr, Bool, true, false, Option, none, some, List, [], ◌∷◌,
  String, length, arith, Bool-cases,
}
use kaos_agents.Prelude.Equality.{◌==◌, string_key}
use kaos_agents.Memory.Types.{
  EvictionPolicy, none_policy, fifo, lifo, lru, lfu, priority_policy, refuse, MemoryItem, tokens,
}
use kaos_agents.Memory.Section.{
  Section, find_target, remove_by_id, evict_by_key, min_index, remove_at, evict_lowest_priority,
  pop, pick, forget, evict_one,
}

-- `item` is one of `items`, and `rest` are the others in their order.
pub data Removal : List MemoryItem → MemoryItem → List MemoryItem → Type 0 where
  here : {x : MemoryItem} {xs : List MemoryItem} → Removal (x ∷ xs) x xs
  there :
      {x y : MemoryItem} {xs ys : List MemoryItem} → Removal xs y ys → Removal (x ∷ xs) y (x ∷ ys)

pub tokens-Removal :
    {xs ys : List MemoryItem} {y : MemoryItem}
    → Removal xs y ys
    → tokens xs ≡ tokens ys + y.token_count
tokens-Removal here = omega arith
tokens-Removal (there r) = omega (arith, tokens-Removal r)

pub length-Removal :
    {xs ys : List MemoryItem} {y : MemoryItem} → Removal xs y ys → length xs ≡ suc (length ys)
length-Removal here = refl
length-Removal (there r) = omega (arith, length-Removal r)

-- What a search for an item found.
abbrev pub Removes : List MemoryItem → Option (MemoryItem × List MemoryItem) → Type 0
Removes xs none = Unit
Removes xs (some (y, ys)) = Removal xs y ys

Removes-cons :
    (x : MemoryItem) (xs : List MemoryItem) (r : Option (MemoryItem × List MemoryItem))
    → Removes xs r
    → Removes (x ∷ xs) (Option.map (λ (y, ys). (y, x ∷ ys)) r)
Removes-cons x xs none h = tt
Removes-cons x xs (some (y, ys)) h = there h

pub remove_by_id-Removes : (id : String) (xs : List MemoryItem) → Removes xs (remove_by_id id xs)
unfolding remove_by_id
remove_by_id-Removes id [] = tt
remove_by_id-Removes id (x ∷ xs) = elim (Bool-cases (x.id == id)) [
  | inl found ↦ rw found here
  | inr other ↦ rw other (Removes-cons x xs (remove_by_id id xs) (remove_by_id-Removes id xs))
]

pub remove_at-Removes : (i : ℕ) (xs : List MemoryItem) → Removes xs (remove_at i xs)
unfolding remove_at
remove_at-Removes i [] = tt
remove_at-Removes zero (x ∷ xs) = here
remove_at-Removes (suc i) (x ∷ xs) = Removes-cons x xs (remove_at i xs) (remove_at-Removes i xs)

-- A search that falls back on the oldest item.
found_or_first :
    (x : MemoryItem) (xs : List MemoryItem) (r : Option (MemoryItem × List MemoryItem))
    → Removes (x ∷ xs) r
    → Removes (x ∷ xs) (some (elim r [ none ↦ (x, xs) | some found ↦ found ]))
found_or_first x xs none h = here
found_or_first x xs (some (y, ys)) h = h

pub evict_by_key-Removes :
    (least : Bool) (tracking : List (String × ℕ)) (x : MemoryItem) (xs : List MemoryItem)
    → Removes (x ∷ xs) (some (evict_by_key least tracking x xs))
unfolding evict_by_key
evict_by_key-Removes least tracking x xs = go (find_target least tracking none (x ∷ xs))
  where
    go :
        (t : Option (String × ℕ))
        → Removes (x ∷ xs) (
            some (elim t [
              | none ↦ (x, xs)
              | some (id, _) ↦ elim (remove_by_id id (x ∷ xs)) [
                | none ↦ (x, xs)
                | some found ↦ found
              ]
            ]))
    go none = here
    go (some (id, n)) =
        found_or_first x xs (remove_by_id id (x ∷ xs)) (remove_by_id-Removes id (x ∷ xs))

evict_lowest_priority-Removes :
    (x : MemoryItem) (xs : List MemoryItem) → Removes (x ∷ xs) (some (evict_lowest_priority x xs))
unfolding evict_lowest_priority
evict_lowest_priority-Removes x xs =
    found_or_first x xs _ (remove_at-Removes (min_index 0 0 x.priority (x ∷ xs)) (x ∷ xs))

pop-Removes : (x : MemoryItem) (xs : List MemoryItem) → Removes (x ∷ xs) (some (pop x xs))
unfolding pop
pop-Removes x [] = here
pop-Removes x (y ∷ ys) = there (pop-Removes y ys)

-- Whatever the policy, the item that it gives up is one of the items, and the others stay.
pub pick-Removes :
    (policy : EvictionPolicy) (s : Section) (items : List MemoryItem)
    → Removes items (pick policy s items)
unfolding pick
pick-Removes policy s [] = tt
pick-Removes fifo s (x ∷ xs) = here
pick-Removes lifo s (x ∷ xs) = pop-Removes x xs
pick-Removes lru s (x ∷ xs) = evict_by_key-Removes true s.last_access x xs
pick-Removes lfu s (x ∷ xs) = evict_by_key-Removes true s.access_counts x xs
pick-Removes priority_policy s (x ∷ xs) = evict_lowest_priority-Removes x xs
pick-Removes none_policy s (x ∷ xs) = tt
pick-Removes refuse s (x ∷ xs) = tt

-- The policies that never give an item up.
abbrev pub keeps_all : EvictionPolicy → Bool
keeps_all none_policy = true
keeps_all refuse = true
keeps_all _ = false

pub pick-keeps_all :
    (policy : EvictionPolicy) (s : Section) (items : List MemoryItem)
    → keeps_all policy ≡ true
    → pick policy s items ≡ none
unfolding pick
pick-keeps_all policy s [] h = refl
pick-keeps_all none_policy s (x ∷ xs) h = refl
pick-keeps_all refuse s (x ∷ xs) h = refl
pick-keeps_all _ s (x ∷ xs) h = cc

pub pick-ne-none :
    (policy : EvictionPolicy) (s : Section) (x : MemoryItem) (xs : List MemoryItem)
    → keeps_all policy ≡ false
    → (y : MemoryItem) × (ys : List MemoryItem) × (pick policy s (x ∷ xs) ≡ some (y, ys))
unfolding pick
pick-ne-none none_policy s x xs h = cc
pick-ne-none refuse s x xs h = cc
pick-ne-none fifo s x xs h = (x, xs, refl)
pick-ne-none lifo s x xs h = ((pop x xs).0, (pop x xs).1, refl)
pick-ne-none lru s x xs h = let r = evict_by_key true s.last_access x xs in (r.0, r.1, refl)
pick-ne-none lfu s x xs h = let r = evict_by_key true s.access_counts x xs in (r.0, r.1, refl)
pick-ne-none priority_policy s x xs h = let r = evict_lowest_priority x xs in (r.0, r.1, refl)

-- The two outcomes of an eviction: nothing changes, or one item is gone.
pub evict_one_cases :
    (s : Section)
    → (pick s.config.eviction_policy s s.items ≡ none) × (evict_one s ≡ (s, none))
      ⊎ ((y : MemoryItem) × (ys : List MemoryItem) × Removal s.items y ys
          × (evict_one s ≡ (forget s y ys, some y)))
unfolding evict_one
evict_one_cases s = go (pick s.config.eviction_policy s s.items) refl (pick-Removes _ s s.items)
  where
    go :
        (r : Option (MemoryItem × List MemoryItem))
        → pick s.config.eviction_policy s s.items ≡ r
        → Removes s.items r
        → (pick s.config.eviction_policy s s.items ≡ none) × (evict_one s ≡ (s, none))
          ⊎ ((y : MemoryItem) × (ys : List MemoryItem) × Removal s.items y ys
              × (evict_one s ≡ (forget s y ys, some y)))
    go none e h = inl (e, rw (e, evict_one))
    go (some (y, ys)) e h = inr (y, ys, h, rw (e, evict_one))
