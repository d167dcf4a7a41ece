-- ===== src/Hooks/Isolation/Refusal.antt =====
-- memory/isolation.py: when the hook refuses a call, alone and among other hooks.
use kaos_agents.Prelude.{
  ◌≡◌, refl, subst, ◌⊎◌, true, false, not, some, List, [], ◌∷◌, ◌++◌, String, filter, arith, inl,
  inr,
}
use kaos_agents.Prelude.Equality.{◌==◌, string_key, contains, contains-append, contains-filter}
use kaos_agents.Prelude.Reply.{fails}
use kaos_agents.Hooks.Dispatch.{Hook, span, tool_call, start, answer, method_of, dispatch_hook}
use kaos_agents.Hooks.Dispatch.Combine.{dispatch_hook-fails}
use kaos_agents.Hooks.Isolation.{
  Value, Entries, Values, str, dict, items, other, no_entry, entry, no_value, value, scan_text,
  own_id, scan_value_for_matter_ids, scan_entries, scan_values, refuse_if, check_matter,
  matter_isolation_hook,
}

-- A text among the arguments, at any depth.
abbrev mutual
  pub Inside : String → Value → Type 0
  Inside s (str t) = s ≡ t
  Inside s (dict entries) = InEntries s entries
  Inside s (items values) = InValues s values
  Inside s other = ⊥

  pub InEntries : String → Entries → Type 0
  InEntries s no_entry = ⊥
  InEntries s (entry key v entries) = Inside s v ⊎ InEntries s entries

  pub InValues : String → Values → Type 0
  InValues s no_value = ⊥
  InValues s (value v values) = Inside s v ⊎ InValues s values

mutual
  unfolding scan_value_for_matter_ids scan_entries scan_values

  scan-Inside :
      (s id : String) (v : Value)
      → Inside s v
      → contains (scan_text s) id ≡ true
      → contains (scan_value_for_matter_ids v) id ≡ true
  scan-Inside s id (str t) e h = subst (λ x. contains (scan_text x) id ≡ true) e h
  scan-Inside s id (dict entries) e h = scan-InEntries s id entries e h
  scan-Inside s id (items values) e h = scan-InValues s id values e h
  scan-Inside s id other e h = elim e [ ]

  scan-InEntries :
      (s id : String) (entries : Entries)
      → InEntries s entries
      → contains (scan_text s) id ≡ true
      → contains (scan_entries entries) id ≡ true
  scan-InEntries s id no_entry e h = elim e [ ]
  scan-InEntries s id (entry key v entries) (inl e) h = ground (
    arith,
    scan-Inside s id v e h,
    contains-append (own_id key v) (scan_value_for_matter_ids v ++ scan_entries entries) id,
    contains-append (scan_value_for_matter_ids v) (scan_entries entries) id,
  )
  scan-InEntries s id (entry key v entries) (inr e) h = ground (
    arith,
    scan-InEntries s id entries e h,
    contains-append (own_id key v) (scan_value_for_matter_ids v ++ scan_entries entries) id,
    contains-append (scan_value_for_matter_ids v) (scan_entries entries) id,
  )

  scan-InValues :
      (s id : String) (values : Values)
      → InValues s values
      → contains (scan_text s) id ≡ true
      → contains (scan_values values) id ≡ true
  scan-InValues s id no_value e h = elim e [ ]
  scan-InValues s id (value v values) (inl e) h = ground (
    arith,
    scan-Inside s id v e h,
    contains-append (scan_value_for_matter_ids v) (scan_values values) id,
  )
  scan-InValues s id (value v values) (inr e) h = ground (
    arith,
    scan-InValues s id values e h,
    contains-append (scan_value_for_matter_ids v) (scan_values values) id,
  )

refuse_if-contains :
    (ids : List String) (id : String)
    → contains ids id ≡ true
    → refuse_if ids ≡ fails "MatterIsolationError"
unfolding contains
refuse_if-contains [] id h = cc
refuse_if-contains (x ∷ ids) id h = refl

-- A bound hook refuses a call if some text in its arguments, at any depth, names another matter.
pub check_matter-fails :
    (matter_id id s : String) (args : Value)
    → Inside s args
    → contains (scan_text s) id ≡ true
    → (id == matter_id) ≡ false
    → check_matter (some matter_id) (some args) ≡ fails "MatterIsolationError"
unfolding check_matter
check_matter-fails matter_id id s args inside named foreign =
    refuse_if-contains (filter (λ m. not (m == matter_id)) (scan_value_for_matter_ids args)) id (
      ground (
        arith,
        contains-filter (λ m. not (m == matter_id)) (scan_value_for_matter_ids args) id,
        scan-Inside s id args inside named,
      ))

answered :
    (matter_id : String) (args : Value)
    → check_matter (some matter_id) (some args) ≡ fails "MatterIsolationError"
    → answer (span tool_call start) (matter_isolation_hook (some matter_id) (some args))
      ≡ fails "MatterIsolationError"
unfolding answer method_of
answered matter_id args h = rw h refl

-- A hook that is bound to a matter refuses a call if some text in its arguments, at any depth, names
-- another matter; but the refusal does not come through: the dispatch of the call answers as if
-- the hook were not there.
pub dispatch_hook-isolation :
    (matter_id id s : String) (args : Value) (before after : List Hook)
    → Inside s args
    → contains (scan_text s) id ≡ true
    → (id == matter_id) ≡ false
    → (answer (span tool_call start) (matter_isolation_hook (some matter_id) (some args))
        ≡ fails "MatterIsolationError")
      × (dispatch_hook
            (before ++ matter_isolation_hook (some matter_id) (some args) ∷ after)
            (span tool_call start)
          ≡ dispatch_hook (before ++ after) (span tool_call start))
dispatch_hook-isolation matter_id id s args before after inside named foreign =
    let refused =
      answered matter_id args (check_matter-fails matter_id id s args inside named foreign) in
    (
      refused,
      dispatch_hook-fails (span tool_call start) before after
          (matter_isolation_hook (some matter_id) (some args)) "MatterIsolationError" refused,
    )
