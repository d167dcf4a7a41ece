-- ===== src/Memory/Session/Sections.antt =====
-- memory/session.py: what the calls do to the sections.
use mathlib.Core.Option
use kaos_agents.Prelude.{
  ℕ, suc, ◌≡◌, refl, sym, ap, ◌∙◌, subst, ◌⊎◌, ◌||◌, inl, inr, false, Option, none, some, List, [],
  ◌∷◌, String, arith, Bool-cases, Option-cases, if◌then◌else◌,
}
use kaos_agents.Prelude.Equality.{◌==◌}
use kaos_agents.Prelude.Dict.{lookup, insert, lookup-insert}
use kaos_agents.Memory.Types.{
  MemoryType, memory_type_key, MemoryType-discrete, working, planning_context, SectionConfig,
  CharsPerToken, ItemOptions, tokens,
}
use kaos_agents.Memory.Section
use kaos_agents.Memory.Section.{Section, add_item}
use kaos_agents.Memory.Section.Loop.{IsConsistent}
use kaos_agents.Memory.Section.Budget.{add_item-IsConsistent}
use kaos_agents.Memory.Section.Add.{add-IsConsistent}
use kaos_agents.Memory.Section.Access.{get-tracked}
use kaos_agents.Memory.Trim.{Raw}
use kaos_agents.Memory.Session.{
  SessionMemory, new_sections, new, put_section, load_items, load_explicit, add, get, own_budget,
  gather, get_sections, clear_section, begin_turn, end_turn, mark_corpus_attached, Call, adds, gets,
  gets_sections, loads_explicit, marks_corpus, begins_turn, ends_turn, after, run,
}

-- `P` holds of every section that the dictionary holds.
abbrev pub Each : (Section → Type 0) → List (MemoryType × Section) → Type 0
Each P sections = (mt : MemoryType) (s : Section) → lookup mt sections ≡ some s → P s

insert-Each :
    (P : Section → Type 0) (mt : MemoryType) (s : Section) (sections : List (MemoryType × Section))
    → P s
    → Each P sections
    → Each P (insert mt s sections)
insert-Each P mt s sections p h n t e = elim (Bool-cases (mt == n)) [
  | inl same ↦ subst P (some_inj s t (rw (lookup-insert mt n s sections, same) at e)) p
  | inr other ↦ h n t (rw (lookup-insert mt n s sections, other) at e)
]
  where
    some_inj : (s t : Section) → some s ≡ some t → s ≡ t
    some_inj s t e = cc

new_sections-Each :
    (configs : List SectionConfig) (sections : List (MemoryType × Section))
    → Each IsConsistent sections
    → Each IsConsistent (new_sections configs sections)
unfolding new_sections Section.new
new_sections-Each [] sections h = h
new_sections-Each (c ∷ cs) sections h =
    new_sections-Each cs (insert c.memory_type (Section.new c) sections) (
      insert-Each IsConsistent c.memory_type (Section.new c) sections (record { counted = refl }) h)

get-IsConsistent :
    (now : ℕ) (limit : Option ℕ) (s : Section)
    → IsConsistent s
    → IsConsistent (Section.get now limit s).0
get-IsConsistent now limit s c =
    let (_, items, count, _) = get-tracked now limit s "" in
    record { counted = count ∙ c.counted ∙ ap tokens (sym items) }

gather-Each :
    (now : ℕ) (requested : List MemoryType) (m : SessionMemory) (raw : Raw)
    → Each IsConsistent m.sections
    → Each IsConsistent (gather now requested m raw).0.sections
unfolding gather put_section
gather-Each now [] m raw h = h
gather-Each now (mt ∷ requested) m raw h = elim (Option-cases (lookup mt m.sections)) [
  | inl absent ↦ rw (absent, gather) (gather-Each now requested m raw h)
  | inr (s, found) ↦
      let (s', items) = Section.get now (own_budget s) s in
      rw (found, gather)
        (gather-Each now requested (put_section mt s' m) (insert mt items raw) (
          insert-Each IsConsistent mt s' m.sections
            (get-IsConsistent now (own_budget s) s (h mt s found)) h))
]

clear_section-Each :
    (mt : MemoryType) (m : SessionMemory)
    → Each IsConsistent m.sections
    → Each IsConsistent (clear_section mt m).sections
unfolding clear_section put_section Section.clear
clear_section-Each mt m h = elim (Option-cases (lookup mt m.sections)) [
  | inl absent ↦ rw (absent, clear_section) h
  | inr (s, found) ↦
      rw (found, clear_section)
        (insert-Each IsConsistent mt (Section.clear s).0 m.sections (record { counted = refl }) h)
]

module _ (make_id : String → MemoryType → ℕ → String) where
  load_items-IsConsistent :
      (mt : MemoryType) (r : CharsPerToken) (nows : ℕ → ℕ) (n : ℕ) (contents : List String)
      (s : Section)
      → IsConsistent s
      → IsConsistent (load_items make_id mt r nows n contents s)
  unfolding load_items
  load_items-IsConsistent mt r nows n [] s c = c
  load_items-IsConsistent mt r nows n (content ∷ contents) s c =
      load_items-IsConsistent mt r nows (suc n) contents _ (add_item-IsConsistent _ s c)

  after-Each :
      (call : Call) (m : SessionMemory)
      → Each IsConsistent m.sections
      → Each IsConsistent (after make_id call m).sections
  unfolding after add get get_sections load_explicit mark_corpus_attached begin_turn end_turn
      put_section
  after-Each (adds now mt content o) m h = elim (Option-cases (lookup mt m.sections)) [
    | inl absent ↦ rw (absent, after, add) h
    | inr (s, found) ↦
        rw (found, after, add)
          (insert-Each IsConsistent mt _ m.sections
            (add-IsConsistent make_id now content (record o { chars_per_token = m.chars_per_token })
              s (h mt s found))
            h)
  ]
  after-Each (gets now mt limit) m h = elim (Option-cases (lookup mt m.sections)) [
    | inl absent ↦ rw (absent, after, get) h
    | inr (s, found) ↦
        rw (found, after, get)
          (insert-Each IsConsistent mt _ m.sections (get-IsConsistent now limit s (h mt s found)) h)
  ]
  after-Each (gets_sections now requested budget order) m h = gather-Each now requested m [] h
  after-Each (loads_explicit nows mt contents) m h = elim (Option-cases (lookup mt m.sections)) [
    | inl absent ↦ rw (absent, after, load_explicit) h
    | inr (s, found) ↦
        rw (found, after, load_explicit)
          (insert-Each IsConsistent mt _ m.sections
            (load_items-IsConsistent mt m.chars_per_token nows 0 contents s (h mt s found)) h)
  ]
  after-Each marks_corpus m h = h
  after-Each begins_turn m h =
      clear_section-Each planning_context (clear_section working m) (clear_section-Each working m h)
  after-Each ends_turn m h = h

  run-Each :
      (calls : List Call) (m : SessionMemory)
      → Each IsConsistent m.sections
      → Each IsConsistent (run make_id calls m).sections
  unfolding run
  run-Each [] m h = h
  run-Each (c ∷ cs) m h = run-Each cs (after make_id c m) (after-Each c m h)

  -- After any calls on a new session, raising calls included, the token counter of every section is
  -- the sum of the tokens of its items.
  pub run-new :
      (calls : List Call) (session_id : String) (configs : List SectionConfig) (r : CharsPerToken)
      (matter_id : Option String)
      → Each IsConsistent (run make_id calls (new session_id configs r matter_id)).sections
  unfolding new lookup
  run-new calls session_id configs r matter_id =
      run-Each calls (new session_id configs r matter_id)
        (new_sections-Each configs [] (λ mt s e. absurd (nothing s e)))
    where
      nothing : (s : Section) → none ≡ some s → ⊥
      nothing s e = cc

  -- `add` on one section leaves every other section and the rest of the session as they were.
  pub add-frame :
      (now : ℕ) (mt n : MemoryType) (content : String) (o : ItemOptions) (m : SessionMemory)
      → (mt == n) ≡ false
      → let t = (add make_id now mt content o m).0 in
        (lookup n t.sections ≡ lookup n m.sections)
        × (t.turn_count ≡ m.turn_count)
        × (t.matter_id ≡ m.matter_id)
        × (t.corpus_ever_attached ≡ m.corpus_ever_attached)
  unfolding add put_section
  add-frame now mt n content o m other = elim (Option-cases (lookup mt m.sections)) [
    | inl absent ↦ rw (absent, add) (refl, refl, refl, refl)
    | inr (s, found) ↦ rw (found, add) (rw (lookup-insert, other) refl, refl, refl, refl)
  ]

clear_section-lookup :
    (mt n : MemoryType) (m : SessionMemory)
    → lookup n (clear_section mt m).sections ≡ (
        if mt == n
        then Option.map (λ s. (Section.clear s).0) (lookup n m.sections)
        else lookup n m.sections)
unfolding clear_section put_section
clear_section-lookup mt n m = elim (Bool-cases (mt == n)) [
  | inl same ↦
      subst
        (λ k.
          lookup k (clear_section mt m).sections
          ≡ (if mt == k then Option.map cleared (lookup k m.sections) else lookup k m.sections))
        ((memory_type_key.equal_iff mt n).0 same) (here (Option-cases (lookup mt m.sections)))
  | inr other ↦ there other (Option-cases (lookup mt m.sections))
]
  where
    cleared : Section → Section
    cleared s = (Section.clear s).0

    here :
        (lookup mt m.sections ≡ none) ⊎ ((s : Section) × (lookup mt m.sections ≡ some s))
        → lookup mt (clear_section mt m).sections
          ≡ (if mt == mt then Option.map cleared (lookup mt m.sections) else lookup mt m.sections)
    here (inl absent) =
        rw (absent, clear_section) (rw (absent, (memory_type_key.equal_iff mt mt).1 refl) refl)
    here (inr (s, found)) =
        rw (found, clear_section, lookup-insert, (memory_type_key.equal_iff mt mt).1 refl) refl

    there :
        (mt == n) ≡ false
        → (lookup mt m.sections ≡ none) ⊎ ((s : Section) × (lookup mt m.sections ≡ some s))
        → lookup n (clear_section mt m).sections
          ≡ (if mt == n then Option.map cleared (lookup n m.sections) else lookup n m.sections)
    there other (inl absent) = rw (absent, clear_section, other) refl
    there other (inr (s, found)) = rw (found, clear_section, lookup-insert, other) refl

-- `begin_turn` empties the two ephemeral sections and leaves every other section as it was.
pub begin_turn-lookup :
    (n : MemoryType) (m : SessionMemory)
    → lookup n (begin_turn m).sections ≡ (
        if working == n || planning_context == n
        then Option.map (λ s. (Section.clear s).0) (lookup n m.sections)
        else lookup n m.sections)
unfolding begin_turn MemoryType-discrete lookup
begin_turn-lookup n m = elim (Bool-cases (planning_context == n)) [
  | inl same ↦
      subst
        (λ k. lookup k (clear_section planning_context (clear_section working m)).sections ≡ (
          if working == k || planning_context == k
          then Option.map (λ s. (Section.clear s).0) (lookup k m.sections)
          else lookup k m.sections))
        ((memory_type_key.equal_iff planning_context n).0 same)
        (rw (clear_section-lookup planning_context planning_context (clear_section working m))
          (rw (clear_section-lookup working planning_context m) refl))
  | inr other ↦
      rw (clear_section-lookup planning_context n (clear_section working m), other)
        (rw (clear_section-lookup working n m) (ground arith))
]
