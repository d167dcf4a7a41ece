-- ===== src/Memory/Types.antt =====
-- types/memory.py: the sections' names, their policies, the items, and what makes a new item.
use kaos_agents.Prelude.{
  ◌∷◌, ◌+◌, ℕ, ◌*◌, ◌/◌, Bool, Option, List, [], String, max, ◌==◌ as nat_beq, if◌then◌else◌,
}
use kaos_agents.Prelude.Int.{ℤ, pos}
use kaos_agents.Prelude.Equality.{Key, test, test_iff}
use Prim.Native.String.{count}

pub data MemoryType : Type 0 where
  role playbooks plan_examples : MemoryType
  messages actions documents findings plan_history reflection last_intent lessons : MemoryType
  working planning_context : MemoryType
  last_user_message recent_actions : MemoryType
  audit graph : MemoryType

unfoldable pub MemoryType-discrete : Discrete MemoryType
MemoryType-discrete = hlevel

instance abbrev pub memory_type_key : Key MemoryType
memory_type_key = record {
  equal = test MemoryType-discrete;
  equal_iff = test_iff MemoryType-discrete;
}

pub data EvictionPolicy : Type 0 where
  none_policy fifo lifo lru lfu priority_policy refuse : EvictionPolicy

pub data SummarizationPolicy : Type 0 where
  never on_overflow on_turn manual auto : SummarizationPolicy

pub data PersistenceMode : Type 0 where
  no_persistence snapshot streaming : PersistenceMode

pub record SectionConfig : Type 0 where
  pub memory_type : MemoryType
  pub budget_tokens : ℕ
  pub eviction_policy : EvictionPolicy
  pub summarization_policy : SummarizationPolicy
  pub persistence_mode : PersistenceMode
  pub explicit_only : Bool
  pub searchable : Bool
  pub max_items : Option ℕ

-- `metadata` holds each value as its JSON text; `added_at` counts clock ticks.
pub record MemoryItem : Type 0 where
  pub id : String
  pub section : MemoryType
  pub content : String
  pub token_count : ℕ
  pub added_at : ℕ
  pub metadata : List (String × String)
  pub priority : ℤ
  pub tags : List String

-- `sum(item.token_count for item in items)`.
abbrev pub tokens : List MemoryItem → ℕ
tokens [] = 0
tokens (x ∷ xs) = x.token_count + tokens xs

-- `chars_per_token` is a positive float in the source, here the fraction `chars / tokens`.
pub record CharsPerToken : Type 0 where
  pub chars : ℕ
  pub tokens : ℕ

abbrev pub default_chars_per_token : CharsPerToken
default_chars_per_token = record { chars = 4; tokens = 1 }

-- `len(text)` counts code points.
unfoldable pub estimate_tokens : String → CharsPerToken → ℕ
estimate_tokens text r =
    if nat_beq (count text) 0 then 0 else max 1 (count text * r.tokens / r.chars)

-- What `add` is called with, next to the content.
pub record ItemOptions : Type 0 where
  pub chars_per_token : CharsPerToken
  pub priority : ℤ
  pub tags : List String
  pub metadata : List (String × String)

abbrev pub default_options : ItemOptions
default_options = record {
  chars_per_token = default_chars_per_token;
  priority = pos 0;
  tags = [];
  metadata = [];
}

-- `make_id` is the truncated SHA-256 of hashlib, and `now` what `time.time()` returned.
module _ (make_id : String → MemoryType → ℕ → String) where
  unfoldable pub create_item : ℕ → MemoryType → String → ItemOptions → MemoryItem
  unfolding estimate_tokens
  create_item now section content o = record {
    id = make_id content section now;
    section = section;
    content = content;
    token_count = estimate_tokens content o.chars_per_token;
    added_at = now;
    metadata = o.metadata;
    priority = o.priority;
    tags = o.tags;
  }
