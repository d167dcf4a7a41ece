-- ===== src/Memory/Section/Storage.antt =====
-- memory/sections.py, `to_dict` and `from_dict`: a section written to storage and read back.
use kaos_agents.Prelude.{ℕ, ◌≡◌, List, [], ◌∷◌, String, map, All}
use kaos_agents.Prelude.Int.{ℤ}
use kaos_agents.Memory.Types.{MemoryType, SectionConfig, MemoryItem}
use kaos_agents.Memory.Section.{Section, new, add_item}

-- The dictionary of an item: an item without the name of its section.
pub record ItemData : Type 0 where
  pub id : String
  pub content : String
  pub token_count : ℕ
  pub added_at : ℕ
  pub metadata : List (String × String)
  pub priority : ℤ
  pub tags : List String

pub record SectionData : Type 0 where
  pub memory_type : MemoryType
  pub items : List ItemData

item_data : MemoryItem → ItemData
item_data x = record {
  id = x.id;
  content = x.content;
  token_count = x.token_count;
  added_at = x.added_at;
  metadata = x.metadata;
  priority = x.priority;
  tags = x.tags;
}

unfoldable pub to_dict : Section → SectionData
unfolding item_data
to_dict s = record { memory_type = s.config.memory_type; items = map item_data s.items }

restore : MemoryType → ItemData → MemoryItem
restore section d = record {
  id = d.id;
  section = section;
  content = d.content;
  token_count = d.token_count;
  added_at = d.added_at;
  metadata = d.metadata;
  priority = d.priority;
  tags = d.tags;
}

-- The loop of `from_dict`.
restore_all : MemoryType → List ItemData → Section → Section
unfolding restore add_item
restore_all section [] s = s
restore_all section (d ∷ ds) s = restore_all section ds (add_item (restore section d) s)

unfoldable pub from_dict : SectionData → SectionConfig → Section
unfolding restore_all new
from_dict d config = restore_all config.memory_type d.items (new config)

-- Every item names the section that holds it.
abbrev pub IsAtHome : Section → Type 0
IsAtHome s = All (λ (x : MemoryItem). x.section ≡ s.config.memory_type) s.items
