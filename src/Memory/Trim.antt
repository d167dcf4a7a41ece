-- ===== src/Memory/Trim.antt =====
-- The trimming of the sections' items to a total budget: the end of `get_sections` in
-- memory/session.py, and `_trim_to_budget` in context/assemble.py. `raw` maps each section to its
-- items. The counters `section_tokens` only feed the log, so the tokens are read off `raw`.
pub mod Bound
pub mod Order
mod Examples
use kaos_agents.Prelude.{
  ℕ, zero, suc, ◌+◌, ◌-◌, leb, Bool, true, false, not, ◌&&◌, Option, none, some, List, [], ◌∷◌,
  ◌++◌, map, filter, reverse, if◌then◌else◌,
}
use kaos_agents.Prelude.Equality.{◌==◌, contains}
use kaos_agents.Prelude.Dict.{lookup, insert}
use kaos_agents.Memory.Types.{MemoryType, memory_type_key, MemoryItem, tokens}

abbrev pub Raw : Type 0
Raw = List (MemoryType × List MemoryItem)

-- `sum(section_tokens.values())`.
abbrev pub total_tokens : Raw → ℕ
total_tokens [] = 0
total_tokens ((mt, items) ∷ raw) = tokens items + total_tokens raw

-- `list(raw.keys())`.
abbrev pub names : Raw → List MemoryType
names raw = map (λ (entry : MemoryType × List MemoryItem). entry.0) raw

-- The sections in the order in which they give up items: those without a priority first, and then
-- from the last of `priority_order` to the first.
unfoldable pub trim_order : List MemoryType → Raw → List MemoryType
trim_order priority_order raw =
    let ordered = filter (λ mt. contains (names raw) mt) priority_order in
    let unordered = filter (λ mt. not (contains ordered mt)) (names raw) in
    unordered ++ reverse ordered

-- The inner loop: pop the oldest item while there is an excess. It returns the items that stay and
-- the excess that is left; an excess below 0 is 0 here, which the tests `> 0` do not tell apart.
unfoldable pub drop_oldest : ℕ → List MemoryItem → List MemoryItem × ℕ
drop_oldest zero items = (items, zero)
drop_oldest (suc e) [] = ([], suc e)
drop_oldest (suc e) (x ∷ xs) = drop_oldest (suc e - x.token_count) xs

unfoldable pub items_of : MemoryType → Raw → List MemoryItem
items_of mt raw = elim (lookup mt raw) [ none ↦ [] | some items ↦ items ]

-- The outer loop over `trim_order`, at the current excess.
unfoldable pub trim : List MemoryType → ℕ → Raw → Raw
trim order zero raw = raw
trim [] (suc e) raw = raw
trim (mt ∷ order) (suc e) raw =
    let (items, left) = drop_oldest (suc e) (items_of mt raw) in
    trim order left (insert mt items raw)

-- What follows the comparison of the total with the budget.
unfoldable pub trim_to_budget : List MemoryType → ℕ → Raw → Raw
unfolding trim
trim_to_budget order budget raw =
    if leb (total_tokens raw) budget then raw else trim order (total_tokens raw - budget) raw

-- `_trim_to_budget`, with its choice of the order; a list without an element counts as none.
unfoldable pub trim_sections : Option (List MemoryType) → ℕ → Raw → Raw
unfolding trim_order trim_to_budget
trim_sections none budget raw = trim_to_budget (names raw) budget raw
trim_sections (some []) budget raw = trim_to_budget (names raw) budget raw
trim_sections (some (mt ∷ order)) budget raw =
    trim_to_budget (trim_order (mt ∷ order) raw) budget raw
