-- ===== src/Memory/Section.antt =====
-- memory/sections.py: a section holds items within a token budget. A method returns the new section;
-- one that may raise returns the section as the exception leaves it, with the error.
pub mod Removal
pub mod Loop
pub mod Budget
pub mod Add
pub mod Limits
mod Examples
pub mod Victims
pub mod Access
pub mod Storage
use kaos_agents.Prelude.{
  ℕ, zero, suc, ◌+◌, ◌-◌, ltb, leb, Bool, true, false, not, ◌&&◌, ◌||◌, Option, none, some, List,
  [], ◌∷◌, ◌++◌, String, reverse, length, take, filter, if◌then◌else◌,
}
use kaos_agents.Prelude.Int.{ℤ, ltb_ℤ}
use kaos_agents.Prelude.Equality.{◌==◌, string_key, contains}
use kaos_agents.Prelude.Result.{Result, ok, err}
use kaos_agents.Prelude.Dict.{lookup, insert, erase}
use mathlib.Core.Option
use kaos_agents.Memory.Types.{
  MemoryType, EvictionPolicy, fifo, lifo, lru, lfu, priority_policy, refuse, SummarizationPolicy,
  never, manual, on_overflow, auto, SectionConfig, MemoryItem, ItemOptions, create_item,
}

-- MemoryBudgetExceededError and EvictionError of errors.py.
pub data MemoryError : Type 0 where
  budget_exceeded eviction_failed : MemoryError

-- `_items` with the oldest first, `_access_counts` and `_last_access` by the item's id.
pub record Section : Type 0 where
  pub config : SectionConfig
  pub items : List MemoryItem
  pub token_count : ℕ
  pub access_counts : List (String × ℕ)
  pub last_access : List (String × ℕ)

unfoldable pub new : SectionConfig → Section
new config = record {
  config = config;
  items = [];
  token_count = 0;
  access_counts = [];
  last_access = [];
}

unfoldable pub is_over_budget : Section → Bool
is_over_budget s = not (leb s.config.budget_tokens 0) && ltb s.config.budget_tokens s.token_count

-- -1, for an unlimited section, is `none`.
unfoldable pub available_tokens : Section → Option ℕ
available_tokens s =
    if leb s.config.budget_tokens 0 then none else some (s.config.budget_tokens - s.token_count)

-- `tracking.get(item.id, 0)`.
unfoldable pub tracked : List (String × ℕ) → String → ℕ
tracked tracking id = elim (lookup id tracking) [ none ↦ 0 | some n ↦ n ]

pub takes : Bool → ℕ → Option (String × ℕ) → Bool
takes least val none = true
takes least val (some (_, target)) = least && ltb val target || not least && ltb target val

-- The first loop of `_evict_by_key`, from `target_id` and `target_val`.
pub find_target :
    Bool → List (String × ℕ) → Option (String × ℕ) → List MemoryItem → Option (String × ℕ)
unfolding takes tracked
find_target least tracking best [] = best
find_target least tracking best (x ∷ xs) =
    let val = tracked tracking x.id in
    find_target least tracking (if takes least val best then some (x.id, val) else best) xs

-- The second loop: the first item with the target's id, and the items without it.
pub remove_by_id : String → List MemoryItem → Option (MemoryItem × List MemoryItem)
remove_by_id id [] = none
remove_by_id id (x ∷ xs) =
    if x.id == id then some (x, xs) else Option.map (λ (y, ys). (y, x ∷ ys)) (remove_by_id id xs)

unfoldable pub evict_by_key :
    Bool → List (String × ℕ) → MemoryItem → List MemoryItem → MemoryItem × List MemoryItem
evict_by_key least tracking x xs = elim (find_target least tracking none (x ∷ xs)) [
  | none ↦ (x, xs)
  | some (id, _) ↦ elim (remove_by_id id (x ∷ xs)) [ none ↦ (x, xs) | some found ↦ found ]
]

-- The loop of `_evict_lowest_priority`, at index `i` with `min_idx` and `min_priority`.
pub min_index : ℕ → ℕ → ℤ → List MemoryItem → ℕ
min_index i best low [] = best
min_index i best low (x ∷ xs) =
    let lower = ltb_ℤ x.priority low in
    min_index (suc i) (if lower then i else best) (if lower then x.priority else low) xs

-- `item = items[i]; del items[i]`.
pub remove_at : ℕ → List MemoryItem → Option (MemoryItem × List MemoryItem)
remove_at i [] = none
remove_at zero (x ∷ xs) = some (x, xs)
remove_at (suc i) (x ∷ xs) = Option.map (λ (y, ys). (y, x ∷ ys)) (remove_at i xs)

-- The index is always in range, so the case `none` does not arise.
unfoldable pub evict_lowest_priority : MemoryItem → List MemoryItem → MemoryItem × List MemoryItem
evict_lowest_priority x xs = elim (remove_at (min_index 0 0 x.priority (x ∷ xs)) (x ∷ xs)) [
  | none ↦ (x, xs)
  | some found ↦ found
]

-- `items.pop()`, the newest item.
pub pop : MemoryItem → List MemoryItem → MemoryItem × List MemoryItem
pop x [] = (x, [])
pop x (y ∷ ys) = let (z, zs) = pop y ys in (z, x ∷ zs)

-- Which item the policy of `_evict_one` gives up, with the items that stay.
unfoldable pub pick :
    EvictionPolicy → Section → List MemoryItem → Option (MemoryItem × List MemoryItem)
unfolding pop
pick policy s [] = none
pick fifo s (x ∷ xs) = some (x, xs)
pick lifo s (x ∷ xs) = some (pop x xs)
pick lru s (x ∷ xs) = some (evict_by_key true s.last_access x xs)
pick lfu s (x ∷ xs) = some (evict_by_key true s.access_counts x xs)
pick priority_policy s (x ∷ xs) = some (evict_lowest_priority x xs)
pick _ s (x ∷ xs) = none

pub forget : Section → MemoryItem → List MemoryItem → Section
forget s item rest = record s {
  items = rest;
  token_count = s.token_count - item.token_count;
  access_counts = erase item.id s.access_counts;
  last_access = erase item.id s.last_access;
}

unfoldable pub evict_one : Section → Section × Option MemoryItem
unfolding forget
evict_one s = elim (pick s.config.eviction_policy s s.items) [
  | none ↦ (s, none)
  | some (item, rest) ↦ (forget s item rest, some item)
]

pub is_nil : List MemoryItem → Bool
is_nil [] = true
is_nil (x ∷ xs) = false

-- The loop of `_evict_tokens`. Each round but the last removes an item, so as many rounds as there
-- are items are enough.
pub evict_loop : ℕ → ℕ → ℕ → Section → Section × ℕ
unfolding is_nil
evict_loop zero needed freed s = (s, freed)
evict_loop (suc fuel) needed freed s =
    let (s', evicted) = evict_one s in
    let round : Section × ℕ = elim evicted [
      | none ↦ (s', freed)
      | some item ↦ evict_loop fuel needed (freed + item.token_count) s'
    ] in
    if ltb freed needed && not (is_nil s.items) then round else (s, freed)

unfoldable pub evict_tokens : ℕ → Section → Section × ℕ
unfolding evict_loop
evict_tokens needed s = evict_loop (length s.items) needed 0 s

-- `_items.append(item); _token_count += item.token_count`, which is all of `add_item`.
unfoldable pub add_item : MemoryItem → Section → Section
add_item item s = record s {
  items = s.items ++ item ∷ [];
  token_count = s.token_count + item.token_count;
}

-- The check of `max_items` in `add`.
unfoldable pub cap_items : Section → Section
cap_items s = elim s.config.max_items [
  | none ↦ s
  | some limit ↦ if leb limit (length s.items) then (evict_one s).0 else s
]

-- `add` where the item does not fit and the section is not summarized on overflow.
unfoldable pub make_room :
    EvictionPolicy → MemoryItem → Section → Section × Result MemoryError MemoryItem
make_room refuse item s = (s, err budget_exceeded)
make_room _ item s =
    let needed = s.token_count + item.token_count - s.config.budget_tokens in
    let (s', freed) = evict_tokens needed s in
    if ltb freed needed then (s', err eviction_failed) else (add_item item s', ok item)

unfoldable pub on_full :
    SummarizationPolicy → MemoryItem → Section → Section × Result MemoryError MemoryItem
unfolding make_room add_item
on_full on_overflow item s = (add_item item s, ok item)
on_full auto item s = (add_item item s, ok item)
on_full _ item s = make_room s.config.eviction_policy item s

-- The rest of `add`, from the check of the token budget on.
unfoldable pub admit : MemoryItem → Section → Section × Result MemoryError MemoryItem
unfolding on_full
admit item s =
    if ltb 0 s.config.budget_tokens && ltb s.config.budget_tokens (s.token_count + item.token_count)
    then on_full s.config.summarization_policy item s
    else (add_item item s, ok item)

module _ (make_id : String → MemoryType → ℕ → String) where
  unfoldable pub add : ℕ → String → ItemOptions → Section → Section × Result MemoryError MemoryItem
  add now content o s =
      if s.config.explicit_only
      then (s, err budget_exceeded)
      else admit (create_item make_id now s.config.memory_type content o) (cap_items s)

-- The note that `get` takes of an access.
pub touch : ℕ → MemoryItem → Section → Section
unfolding tracked
touch now item s = record s {
  access_counts = insert item.id (tracked s.access_counts item.id + 1) s.access_counts;
  last_access = insert item.id now s.last_access;
}

pub exceeds : Option ℕ → ℕ → Bool
exceeds none used = false
exceeds (some limit) used = ltb limit used

-- The loop of `get` over the items that are left, at `tokens_used`.
pub get_loop : ℕ → Option ℕ → ℕ → List MemoryItem → Section → Section × List MemoryItem
unfolding touch exceeds
get_loop now limit used [] s = (s, [])
get_loop now limit used (x ∷ xs) s =
    let rest = get_loop now limit (used + x.token_count) xs (touch now x s) in
    if exceeds limit (used + x.token_count) then (s, []) else (rest.0, x ∷ rest.1)

unfoldable pub get : ℕ → Option ℕ → Section → Section × List MemoryItem
unfolding get_loop
get now limit s = get_loop now limit 0 s.items s

unfoldable pub get_by_ids : List String → Section → List MemoryItem
get_by_ids ids s = filter (λ item. contains ids item.id) s.items

unfoldable pub get_recent : ℕ → Section → List MemoryItem
get_recent n s = take n (reverse s.items)

unfoldable pub clear : Section → Section × ℕ
unfolding new
clear s = (new s.config, s.token_count)

unfoldable pub needs_summarization : SummarizationPolicy → Bool
needs_summarization never = false
needs_summarization manual = false
needs_summarization _ = true
