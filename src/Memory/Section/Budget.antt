-- ===== src/Memory/Section/Budget.antt =====
-- memory/sections.py, `add` and `_evict_one`: the token counter, the budget and `max_items` on every
-- branch, the raising ones included.
use kaos_agents.Prelude.{
  ℕ, ◌+◌, ◌-◌, ◌≤◌, ◌<◌, ◌≡◌, refl, ◌⊎◌, inl, inr, Bool, true, false, ◌&&◌, List, [], ◌∷◌, ◌++◌,
  arith, ltb, Bool-cases, if◌then◌else◌,
}
use kaos_agents.Prelude.Result.{Result, ok, err}
use kaos_agents.Memory.Types.{
  EvictionPolicy, refuse, SummarizationPolicy, on_overflow, auto, MemoryItem, tokens,
}
use kaos_agents.Memory.Section.{
  Section, MemoryError, budget_exceeded, eviction_failed, forget, evict_one, evict_tokens, add_item,
  cap_items, make_room, on_full, admit,
}
use kaos_agents.Memory.Section.Removal.{tokens-Removal, evict_one_cases}
use kaos_agents.Memory.Section.Loop.{IsConsistent, Evictions, evict_tokens-Evictions}

-- Whether the section waits for a summary instead of evicting.
abbrev pub overflows : SummarizationPolicy → Bool
overflows on_overflow = true
overflows auto = true
overflows _ = false

pub tokens-append : (xs ys : List MemoryItem) → tokens (xs ++ ys) ≡ tokens xs + tokens ys
tokens-append [] ys = omega arith
tokens-append (x ∷ xs) ys = omega (arith, tokens-append xs ys)

pub add_item-IsConsistent :
    (item : MemoryItem) (s : Section) → IsConsistent s → IsConsistent (add_item item s)
unfolding add_item
add_item-IsConsistent item s c = record {
  counted = omega (arith, c.counted, tokens-append s.items (item ∷ []));
}

evict_one-IsConsistent : (s : Section) → IsConsistent s → IsConsistent (evict_one s).0
unfolding forget
evict_one-IsConsistent s c = elim (evict_one_cases s) [
  | inl (_, e) ↦ rw e c
  | inr (y, ys, removal, e) ↦
      rw e (record { counted = omega (arith, c.counted, tokens-Removal removal) })
]

pub evict_one-config : (s : Section) → (evict_one s).0.config ≡ s.config
unfolding forget
evict_one-config s = elim (evict_one_cases s) [ inl (_, e) ↦ rw e | inr (y, ys, removal, e) ↦ rw e ]

-- `cap_items` either leaves the section alone or makes one eviction.
pub cap_items_cases : (s : Section) → (cap_items s ≡ s) ⊎ (cap_items s ≡ (evict_one s).0)
unfolding cap_items
cap_items_cases s = ground arith

pub cap_items-IsConsistent : (s : Section) → IsConsistent s → IsConsistent (cap_items s)
cap_items-IsConsistent s c = elim (cap_items_cases s) [
  | inl e ↦ rw e c
  | inr e ↦ rw e (evict_one-IsConsistent s c)
]

pub cap_items-config : (s : Section) → (cap_items s).config ≡ s.config
cap_items-config s = elim (cap_items_cases s) [ inl e ↦ rw e | inr e ↦ rw e (evict_one-config s) ]

pub cap_items-tokens : (s : Section) → (cap_items s).token_count ≤ s.token_count
unfolding forget
cap_items-tokens s = elim (cap_items_cases s) [
  | inl e ↦ rw e (omega arith)
  | inr e ↦ rw e (elim (evict_one_cases s) [
    | inl (_, none_left) ↦ rw none_left (omega arith)
    | inr (y, ys, removal, one) ↦ rw one (omega arith)
  ])
]

evicting : MemoryItem → Section → Section × Result MemoryError MemoryItem
evicting item s =
    let needed = s.token_count + item.token_count - s.config.budget_tokens in
    let (s', freed) = evict_tokens needed s in
    if ltb freed needed then (s', err eviction_failed) else (add_item item s', ok item)

-- What can come of `admit`.
pub data Admits (item : MemoryItem) (s : Section)
    : Section × Result MemoryError MemoryItem → Type 0 where
  fits :
      (s.config.budget_tokens ≡ 0) ⊎ (s.token_count + item.token_count ≤ s.config.budget_tokens)
      → Admits item s (add_item item s, ok item)
  overflowing :
      overflows s.config.summarization_policy ≡ true → Admits item s (add_item item s, ok item)
  refused : s.config.eviction_policy ≡ refuse → Admits item s (s, err budget_exceeded)
  evicted :
      (t : Section)
      → (freed : ℕ) → Evictions t freed s 0
      → s.token_count + item.token_count ≤ s.config.budget_tokens + freed
      → Admits item s (add_item item t, ok item)
  failed :
      (t : Section)
      → (freed : ℕ)
      → evict_tokens (s.token_count + item.token_count - s.config.budget_tokens) s ≡ (t, freed)
      → freed < s.token_count + item.token_count - s.config.budget_tokens
      → Admits item s (t, err eviction_failed)

evicting-Admits : (item : MemoryItem) (s : Section) → Admits item s (evicting item s)
unfolding evicting
evicting-Admits item s = elim (Bool-cases (ltb freed needed)) [
  | inl short ↦ rw short (failed t freed refl (ground arith))
  | inr enough ↦ rw enough (evicted t freed (evict_tokens-Evictions needed s) (ground arith))
]
  where
    needed : ℕ
    needed = s.token_count + item.token_count - s.config.budget_tokens

    t : Section
    t = (evict_tokens needed s).0

    freed : ℕ
    freed = (evict_tokens needed s).1

make_room-Admits :
    (policy : EvictionPolicy) (item : MemoryItem) (s : Section)
    → s.config.eviction_policy ≡ policy
    → Admits item s (make_room policy item s)
unfolding make_room evicting
make_room-Admits refuse item s e = refused e
make_room-Admits _ item s e = evicting-Admits item s

on_full-Admits :
    (policy : SummarizationPolicy) (item : MemoryItem) (s : Section)
    → s.config.summarization_policy ≡ policy
    → Admits item s (on_full policy item s)
unfolding on_full
on_full-Admits on_overflow item s e = overflowing (rw e)
on_full-Admits auto item s e = overflowing (rw e)
on_full-Admits _ item s e = make_room-Admits s.config.eviction_policy item s refl

pub admit-Admits : (item : MemoryItem) (s : Section) → Admits item s (admit item s)
unfolding admit
admit-Admits item s = elim (Bool-cases full) [
  | inl yes_full ↦ rw yes_full (on_full-Admits s.config.summarization_policy item s refl)
  | inr room ↦ rw room (fits (ground arith))
]
  where
    full : Bool
    full =
        ltb 0 s.config.budget_tokens
        && ltb s.config.budget_tokens (s.token_count + item.token_count)
