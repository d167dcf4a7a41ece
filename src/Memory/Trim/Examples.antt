-- ===== src/Memory/Trim/Examples.antt =====
-- Two sections over a budget, and the theorems on their trimming.
use kaos_agents.Prelude.{ℕ, ◌≤◌, ◌≡◌, refl, some, [], ◌∷◌, String, IsSuffix, filter}
use kaos_agents.Prelude.Int.{pos}
use kaos_agents.Prelude.Dict.{lookup, insert}
use kaos_agents.Prelude.Equality.{contains}
use kaos_agents.Memory.Types.{MemoryType, MemoryType-discrete, MemoryItem, findings, actions}
use kaos_agents.Memory.Trim.{
  Raw, total_tokens, trim_order, drop_oldest, items_of, trim, trim_to_budget, trim_sections,
}
use kaos_agents.Memory.Trim.Bound.{trim_to_budget-IsSuffix}
use kaos_agents.Memory.Trim.Order.{trim_sections-le}

abbrev item : String → MemoryType → ℕ → MemoryItem
item id section tokens = record {
  id = id;
  section = section;
  content = "x";
  token_count = tokens;
  added_at = 0;
  metadata = [];
  priority = pos 0;
  tags = [];
}

-- Twelve tokens in two sections.
abbrev raw : Raw
raw =
    (findings, item "a" findings 3 ∷ item "b" findings 3 ∷ [])
    ∷ (actions, item "c" actions 2 ∷ item "d" actions 4 ∷ [])
    ∷ []

-- With the findings first in priority, the actions give up items before them.
trimmed_facts_first :
    trim_to_budget (trim_order (findings ∷ actions ∷ []) raw) 8 raw
    ≡ (findings, item "a" findings 3 ∷ item "b" findings 3 ∷ []) ∷ (actions, []) ∷ []
unfolding trim_to_budget trim_order trim drop_oldest items_of lookup insert contains
    MemoryType-discrete filter
trimmed_facts_first = refl

trim_sections-le_example : total_tokens (trim_sections (some (findings ∷ [])) 8 raw) ≤ 8
unfolding lookup MemoryType-discrete
trim_sections-le_example = trim_sections-le (some (findings ∷ [])) 8 raw (refl, (refl, tt))

trim_to_budget-IsSuffix_example :
    IsSuffix
      (items_of actions (trim_to_budget (actions ∷ findings ∷ []) 8 raw))
      (items_of actions raw)
trim_to_budget-IsSuffix_example = trim_to_budget-IsSuffix (actions ∷ findings ∷ []) 8 raw actions
