-- ===== src/Memory/Section/Examples.antt =====
-- Small sections, what the operations do on them, and the theorems at these inputs.
use kaos_agents.Prelude.{
  All, inl, ℕ, ◌+◌, ◌≤◌, ◌≡◌, refl, true, false, Option, none, some, [], ◌∷◌, String,
}
use kaos_agents.Prelude.Int.{pos}
use kaos_agents.Prelude.Equality.{string_key}
use kaos_agents.Prelude.Dict.{lookup, insert, erase}
use kaos_agents.Memory.Types.{
  MemoryType, actions, EvictionPolicy, none_policy, lru, lfu, never, streaming, MemoryItem,
  default_options, create_item,
}
use kaos_agents.Memory.Section.{
  Section, is_over_budget, tracked, find_target, remove_by_id, evict_by_key, min_index, remove_at,
  evict_lowest_priority, pick, evict_one, evict_tokens, cap_items, admit, add, get,
}
use kaos_agents.Memory.Section.Loop.{IsConsistent}
use kaos_agents.Memory.Section.Add.{add-IsConsistent, add-within_budget}
use kaos_agents.Memory.Section.Victims.{evict_one-least}
use kaos_agents.Memory.Section.Limits.{add-err_unchanged}
use kaos_agents.Memory.Section.Access.{occurrences, get-tracked}
use kaos_agents.Memory.Section.Storage.{to_dict, from_dict}

abbrev item : String → ℕ → ℕ → MemoryItem
item id tokens priority = record {
  id = id;
  section = actions;
  content = "x";
  token_count = tokens;
  added_at = 0;
  metadata = [];
  priority = pos priority;
  tags = [];
}

-- Two items in a budget of ten tokens; "b" was accessed before "a".
abbrev two : EvictionPolicy → Option ℕ → Section
two policy limit = record {
  config = record {
    memory_type = actions;
    budget_tokens = 10;
    eviction_policy = policy;
    summarization_policy = never;
    persistence_mode = streaming;
    explicit_only = false;
    searchable = true;
    max_items = limit;
  };
  items = item "a" 4 2 ∷ item "b" 5 1 ∷ [];
  token_count = 9;
  access_counts = ("a", 1) ∷ ("b", 1) ∷ [];
  last_access = ("a", 7) ∷ ("b", 3) ∷ [];
}

two-IsConsistent : (policy : EvictionPolicy) (limit : Option ℕ) → IsConsistent (two policy limit)
two-IsConsistent policy limit = record { counted = refl }

-- The content stands for its own identity.
abbrev by_content : String → MemoryType → ℕ → String
by_content content section now = content

program : Unit {0}
unfolding add admit cap_items evict_tokens evict_one pick evict_by_key find_target remove_by_id
    evict_lowest_priority min_index remove_at is_over_budget create_item get tracked lookup insert
    erase from_dict to_dict
program = tt

-- Sixteen characters make four tokens, so the item accessed longest ago has to go.
add_lru :
    (add by_content 9 "sixteen letters." default_options (two lru none)).0.items
    ≡ item "a" 4 2
      ∷ record (item "sixteen letters." 4 0) { content = "sixteen letters."; added_at = 9 }
      ∷ []
unfolding program
add_lru = refl

add-IsConsistent_example :
    IsConsistent (add by_content 9 "sixteen letters." default_options (two lru none)).0
add-IsConsistent_example =
    add-IsConsistent by_content 9 "sixteen letters." default_options (two lru none)
      (two-IsConsistent lru none)

add-within_budget_example :
    is_over_budget (add by_content 9 "sixteen letters." default_options (two lru none)).0 ≡ false
unfolding program
add-within_budget_example =
    add-within_budget by_content 9 "sixteen letters." default_options (two lru none)
      (two-IsConsistent lru none) refl (inl refl)

add-err_unchanged_example :
    (add by_content 9 "sixteen letters." default_options (two none_policy none)).0
    ≡ two none_policy none
unfolding program
add-err_unchanged_example =
    add-err_unchanged by_content 9 "sixteen letters." default_options (two none_policy none) refl
      refl

abbrev long_text : String
long_text = "a text of more than forty characters does not fit"

get_page : (get 9 (some 5) (two lru none)).1 ≡ item "a" 4 2 ∷ []
unfolding program
get_page = refl

get-tracked_example :
    let (t, page) = get 9 (some 5) (two lru none) in
    (tracked t.access_counts "a" ≡ tracked (two lru none).access_counts "a" + occurrences "a" page)
    × (t.items ≡ (two lru none).items)
    × (t.token_count ≡ 9)
    × (t.config ≡ (two lru none).config)
get-tracked_example = get-tracked 9 (some 5) (two lru none) "a"

evict_one-least_example :
    (lru ≡ lru
      → All
          (λ (y : MemoryItem).
            tracked (two lru none).last_access "b" ≤ tracked (two lru none).last_access y.id)
          (two lru none).items)
    × (lru ≡ lfu
        → All
            (λ (y : MemoryItem).
              tracked (two lru none).access_counts "b" ≤ tracked (two lru none).access_counts y.id)
            (two lru none).items)
unfolding program
evict_one-least_example = evict_one-least (two lru none) (item "b" 5 1) refl
