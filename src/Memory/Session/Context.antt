-- ===== src/Memory/Session/Context.antt =====
-- memory/session.py, `get_sections`: what a turn's context is assembled from.
use kaos_agents.Prelude.{ℕ, ◌≤◌, Option, List, [], ◌∷◌, Option-cases, inl, inr}
use kaos_agents.Prelude.Dict.{lookup, insert, IsDict, insert-IsDict}
use kaos_agents.Memory.Types.{MemoryType, memory_type_key}
use kaos_agents.Memory.Section
use kaos_agents.Memory.Trim.{Raw, total_tokens, trim_order}
use kaos_agents.Memory.Trim.Bound.{trim_to_budget-le}
use kaos_agents.Memory.Trim.Order.{trim_order-Covers}
use kaos_agents.Memory.Session.{
  SessionMemory, put_section, own_budget, gather, or_requested, get_sections,
}

gather-IsDict :
    (now : ℕ) (requested : List MemoryType) (m : SessionMemory) (raw : Raw)
    → IsDict raw
    → IsDict (gather now requested m raw).1
unfolding gather
gather-IsDict now [] m raw h = h
gather-IsDict now (mt ∷ requested) m raw h = elim (Option-cases (lookup mt m.sections)) [
  | inl absent ↦ rw (absent, gather) (gather-IsDict now requested m raw h)
  | inr (s, found) ↦
      let (s', items) = Section.get now (own_budget s) s in
      rw (found, gather)
        (gather-IsDict now requested (put_section mt s' m) (insert mt items raw)
          (insert-IsDict mt items raw h))
]

-- The items that `get_sections` returns have at most `budget` tokens in all, whatever sections are
-- requested, with any priority order and also with one that does not name every section.
pub get_sections-le :
    (now : ℕ) (requested : List MemoryType) (budget : ℕ) (order : Option (List MemoryType))
    (m : SessionMemory)
    → total_tokens (get_sections now requested budget order m).1 ≤ budget
unfolding get_sections
get_sections-le now requested budget order m =
    let raw = (gather now requested m []).1 in
    trim_to_budget-le (trim_order (or_requested order requested) raw) budget raw
      (gather-IsDict now requested m [] tt) (trim_order-Covers (or_requested order requested) raw)
