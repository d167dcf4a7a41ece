-- ===== src/Memory/Session/Examples.antt =====
-- A session of two sections, some calls on it, and the theorems at them.
use kaos_agents.Prelude.{ℕ, ◌≤◌, true, false, none, some, List, [], ◌∷◌, String}
use kaos_agents.Memory.Types.{
  MemoryType, memory_type_key, findings, working, SectionConfig, fifo, never, streaming,
  CharsPerToken, default_options,
}
use kaos_agents.Memory.Section.Loop.{IsConsistent}
use kaos_agents.Memory.Trim.{total_tokens}
use kaos_agents.Memory.Session.{
  SessionMemory, new, get_sections, Call, adds, gets, gets_sections, begins_turn, run,
}
use kaos_agents.Memory.Session.Sections.{Each, run-new}
use kaos_agents.Memory.Session.Context.{get_sections-le}

abbrev config : MemoryType → SectionConfig
config mt = record {
  memory_type = mt;
  budget_tokens = 10;
  eviction_policy = fifo;
  summarization_policy = never;
  persistence_mode = streaming;
  explicit_only = false;
  searchable = true;
  max_items = none;
}

abbrev by_content : String → MemoryType → ℕ → String
by_content content section now = content

abbrev four : CharsPerToken
four = record { chars = 4; tokens = 1 }

abbrev calls : List Call
calls =
    adds 1 findings "a fact in the case" default_options
    ∷ adds 2 findings "another fact, which evicts the first one" default_options
    ∷ adds 3 working "a draft" default_options
    ∷ gets 4 findings (some 20)
    ∷ gets_sections 5 (findings ∷ working ∷ []) 11 none
    ∷ begins_turn
    ∷ []

abbrev session : SessionMemory
session = run by_content calls (new "s" (config findings ∷ config working ∷ []) four none)

run-new_example :
    Each IsConsistent
      (run by_content calls (new "s" (config findings ∷ config working ∷ []) four none)).sections
run-new_example = run-new by_content calls "s" (config findings ∷ config working ∷ []) four none

get_sections-le_example :
    total_tokens (get_sections 7 (findings ∷ working ∷ []) 11 (some (working ∷ [])) session).1 ≤ 11
get_sections-le_example =
    get_sections-le 7 (findings ∷ working ∷ []) 11 (some (working ∷ [])) session
