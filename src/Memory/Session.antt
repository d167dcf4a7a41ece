-- ===== src/Memory/Session.antt =====
-- memory/session.py: the sections of one session, by their names. The knowledge graph, the summaries
-- of a language model and the log are left out.
pub mod Sections
pub mod Context
mod Examples
use kaos_agents.Prelude.{
  ℕ, zero, suc, ◌+◌, leb, Bool, true, false, Option, none, some, List, [], ◌∷◌, String, length,
  if◌then◌else◌, ltb,
}
use kaos_agents.Prelude.Int.{ℤ, pos}
use kaos_agents.Prelude.Result.{Result, ok, err}
use kaos_agents.Prelude.Dict.{lookup, insert}
use kaos_agents.Memory.Types.{
  MemoryType, memory_type_key, working, planning_context, SectionConfig, MemoryItem, CharsPerToken,
  ItemOptions, create_item,
}
use kaos_agents.Memory.Section
use kaos_agents.Memory.Section.{Section, MemoryError, add_item}
use kaos_agents.Memory.Trim.{Raw, trim_order, trim_to_budget}

pub record SessionMemory : Type 0 where
  pub session_id : String
  pub chars_per_token : CharsPerToken
  pub turn_count : ℕ
  pub matter_id : Option String
  pub sections : List (MemoryType × Section)
  pub corpus_ever_attached : Bool

-- SectionNotConfiguredError, or what the section raised.
pub data SessionError : Type 0 where
  not_configured : SessionError
  in_section : MemoryError → SessionError

-- The loop of `__init__`.
pub new_sections : List SectionConfig → List (MemoryType × Section) → List (MemoryType × Section)
new_sections [] sections = sections
new_sections (c ∷ cs) sections = new_sections cs (insert c.memory_type (Section.new c) sections)

unfoldable pub new : String → List SectionConfig → CharsPerToken → Option String → SessionMemory
unfolding new_sections
new session_id configs chars_per_token matter_id = record {
  session_id = session_id;
  chars_per_token = chars_per_token;
  turn_count = 0;
  matter_id = matter_id;
  sections = new_sections configs [];
  corpus_ever_attached = false;
}

unfoldable pub mark_corpus_attached : SessionMemory → SessionMemory
mark_corpus_attached m = record m { corpus_ever_attached = true }

pub total : List (MemoryType × Section) → ℕ
total [] = 0
total ((mt, s) ∷ sections) = s.token_count + total sections

unfoldable pub total_tokens : SessionMemory → ℕ
unfolding total
total_tokens m = total m.sections

unfoldable pub get_section : MemoryType → SessionMemory → Result SessionError Section
get_section mt m = elim (lookup mt m.sections) [ none ↦ err not_configured | some s ↦ ok s ]

-- The section object is changed in place: the session holds the new section from then on.
unfoldable pub put_section : MemoryType → Section → SessionMemory → SessionMemory
put_section mt s m = record m { sections = insert mt s m.sections }

pub lift_error : Result MemoryError MemoryItem → Result SessionError MemoryItem
lift_error (ok item) = ok item
lift_error (err e) = err (in_section e)

module _ (make_id : String → MemoryType → ℕ → String) where
  -- The loop of `load_explicit`; `nows` are the times at which its items are made.
  pub load_items : MemoryType → CharsPerToken → (ℕ → ℕ) → ℕ → List String → Section → Section
  load_items mt r nows n [] s = s
  load_items mt r nows n (content ∷ contents) s =
      let o : ItemOptions = record {
        chars_per_token = r;
        priority = pos 0;
        tags = [];
        metadata = [];
      } in
      load_items mt r nows (suc n) contents (add_item (create_item make_id (nows n) mt content o) s)

  unfoldable pub load_explicit :
      (ℕ → ℕ) → MemoryType → List String → SessionMemory → SessionMemory × Result SessionError ℕ
  unfolding load_items
  load_explicit nows mt contents m = elim (lookup mt m.sections) [
    | none ↦ (m, err not_configured)
    | some s ↦
        (put_section mt (load_items mt m.chars_per_token nows 0 contents s) m, ok (length contents))
  ]

  -- The section takes its items' size from the session's ratio.
  unfoldable pub add :
      ℕ
      → MemoryType
      → String
      → ItemOptions
      → SessionMemory
      → SessionMemory × Result SessionError MemoryItem
  unfolding lift_error
  add now mt content o m = elim (lookup mt m.sections) [
    | none ↦ (m, err not_configured)
    | some s ↦
        let (s', result) =
          Section.add make_id now content (record o { chars_per_token = m.chars_per_token }) s in
        (put_section mt s' m, lift_error result)
  ]

unfoldable pub get :
    ℕ
    → MemoryType
    → Option ℕ
    → SessionMemory
    → SessionMemory × Result SessionError (List MemoryItem)
get now mt limit m = elim (lookup mt m.sections) [
  | none ↦ (m, err not_configured)
  | some s ↦ let (s', items) = Section.get now limit s in (put_section mt s' m, ok items)
]

-- A section's own budget as the limit of `get`.
pub own_budget : Section → Option ℕ
own_budget s = if ltb 0 s.config.budget_tokens then some s.config.budget_tokens else none

-- The first loop of `get_sections`, over the requested sections that are left.
pub gather : ℕ → List MemoryType → SessionMemory → Raw → SessionMemory × Raw
unfolding own_budget
gather now [] m raw = (m, raw)
gather now (mt ∷ requested) m raw = elim (lookup mt m.sections) [
  | none ↦ gather now requested m raw
  | some s ↦
      let (s', items) = Section.get now (own_budget s) s in
      gather now requested (put_section mt s' m) (insert mt items raw)
]

pub or_requested : Option (List MemoryType) → List MemoryType → List MemoryType
or_requested none requested = requested
or_requested (some order) requested = order

unfoldable pub get_sections :
    ℕ → List MemoryType → ℕ → Option (List MemoryType) → SessionMemory → SessionMemory × Raw
unfolding gather or_requested
get_sections now requested budget priority_order m =
    let (m', raw) = gather now requested m [] in
    (m', trim_to_budget (trim_order (or_requested priority_order requested) raw) budget raw)

pub clear_section : MemoryType → SessionMemory → SessionMemory
clear_section mt m = elim (lookup mt m.sections) [
  | none ↦ m
  | some s ↦ put_section mt (Section.clear s).0 m
]

unfoldable pub begin_turn : SessionMemory → SessionMemory
begin_turn m = clear_section planning_context (clear_section working m)

unfoldable pub end_turn : SessionMemory → SessionMemory
end_turn m = record m { turn_count = m.turn_count + 1 }

-- A call of a method that changes the session, with the times that the clock gives it.
pub data Call : Type 0 where
  adds : ℕ → MemoryType → String → ItemOptions → Call
  gets : ℕ → MemoryType → Option ℕ → Call
  gets_sections : ℕ → List MemoryType → ℕ → Option (List MemoryType) → Call
  loads_explicit : (ℕ → ℕ) → MemoryType → List String → Call
  marks_corpus : Call
  begins_turn : Call
  ends_turn : Call

module _ (make_id : String → MemoryType → ℕ → String) where
  -- The session after a call, also if the call raises.
  unfoldable pub after : Call → SessionMemory → SessionMemory
  after (adds now mt content o) m = (add make_id now mt content o m).0
  after (gets now mt limit) m = (get now mt limit m).0
  after (gets_sections now requested budget order) m = (get_sections now requested budget order m).0
  after (loads_explicit nows mt contents) m = (load_explicit make_id nows mt contents m).0
  after marks_corpus m = mark_corpus_attached m
  after begins_turn m = begin_turn m
  after ends_turn m = end_turn m

  unfoldable pub run : List Call → SessionMemory → SessionMemory
  run [] m = m
  run (c ∷ cs) m = run cs (after c m)
