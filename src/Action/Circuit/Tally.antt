-- ===== src/Action/Circuit/Tally.antt =====
-- action/circuit.py: the states of the tools, and what each operation does to one of them.
use kaos_agents.Prelude.{
  ℕ, suc, ◌≤◌, ◌≡◌, refl, ap, inl, inr, ltb, Bool, true, false, Option, none, some, String, arith,
  Bool-cases, if◌then◌else◌,
}
use kaos_agents.Prelude.Equality.{◌==◌, string_key}
use kaos_agents.Prelude.Dict.{lookup, lookup-insert}
use kaos_agents.Action.Circuit.{
  CircuitState, circuit_closed, ToolState, CircuitBreaker, fresh, get, put, refresh, attempt,
  succeed, fail,
}

abbrev pub is_closed : CircuitState → Bool
is_closed circuit_closed = true
is_closed _ = false

-- Whether calls of the tool pass, and its failures in a row; a tool that was never called has none.
unfoldable pub closed_for : String → CircuitBreaker → Bool
closed_for tool b = elim (lookup tool b.states) [ none ↦ true | some st ↦ is_closed st.state ]

unfoldable pub failures_of : String → CircuitBreaker → ℕ
failures_of tool b = elim (lookup tool b.states) [ none ↦ 0 | some st ↦ st.consecutive_failures ]

-- A tool state in which the circuit is closed exactly below the threshold, after `k` failures.
abbrev pub Tallies : ℕ → ℕ → ToolState → Type 0
Tallies threshold k st = (st.consecutive_failures ≡ k) × (is_closed st.state ≡ ltb k threshold)

pub refresh-Tallies :
    (threshold k timeout now : ℕ) (st : ToolState)
    → Tallies threshold k st
    → Tallies threshold k (refresh timeout now st)
unfolding refresh
refresh-Tallies threshold k timeout now st h = ground arith

pub attempt-Tallies :
    (threshold k now : ℕ) (st : ToolState)
    → Tallies threshold k st
    → Tallies threshold k (attempt now st).0
unfolding attempt
attempt-Tallies threshold k now st h = ground arith

pub succeed-Tallies :
    (threshold : ℕ) (st : ToolState) → 1 ≤ threshold → Tallies threshold 0 (succeed st)
unfolding succeed
succeed-Tallies threshold st h = (refl, ground arith)

pub fail-Tallies :
    (threshold k now : ℕ) (st : ToolState)
    → Tallies threshold k st
    → Tallies threshold (suc k) (fail threshold now st)
unfolding fail
fail-Tallies threshold k now st h = ground arith

pub get-put :
    (now : ℕ) (t u : String) (st : ToolState) (b : CircuitBreaker)
    → get now t (put u st b) ≡ (if u == t then st else get now t b)
unfolding get put
get-put now t u st b = elim (Bool-cases (u == t)) [
  | inl same ↦ rw same (ap stored (rw same at (lookup-insert u t st b.states)))
  | inr other ↦ rw other (ap stored (rw other at (lookup-insert u t st b.states)))
]
  where
    stored : Option ToolState → ToolState
    stored o = elim o [ none ↦ fresh now | some s ↦ s ]

pub put-mine :
    (P : ToolState → Type 0) (now : ℕ) (t u : String) (st : ToolState) (b : CircuitBreaker)
    → (u == t) ≡ true
    → P st
    → P (get now t (put u st b))
put-mine P now t u st b same h = rw (get-put now t u st b, same) h

pub put-others :
    (P : ToolState → Type 0) (now : ℕ) (t u : String) (st : ToolState) (b : CircuitBreaker)
    → (u == t) ≡ false
    → P (get now t b)
    → P (get now t (put u st b))
put-others P now t u st b other h = rw (get-put now t u st b, other) h
