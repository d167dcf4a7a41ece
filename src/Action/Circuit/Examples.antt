-- ===== src/Action/Circuit/Examples.antt =====
-- A breaker that trips at two failures, and the theorems at it.
use kaos_agents.Prelude.{
  ℕ, ◌≡◌, ◌+◌, refl, ltb, Bool, true, false, List, [], ◌∷◌, String, if◌then◌else◌,
}
use kaos_agents.Prelude.Dict.{lookup, insert}
use kaos_agents.Action.Circuit.{
  circuit_open, ToolState, CircuitBreaker, new, get, put, refresh, attempt, allow, CallSpan, Event,
  starts, results, run,
}
use kaos_agents.Action.Circuit.Tally.{closed_for, failures_of}
use kaos_agents.Action.Circuit.History.{row, run-row}
use kaos_agents.Action.Circuit.Probe.{allowed_for, reaches, allowed_for-open, answers}

abbrev empty_result : String → Bool
empty_result summary = false

abbrev call : String → Bool → CallSpan
call tool is_error = record { tool_name = tool; is_error = is_error; result_summary = "done" }

abbrev breaker : CircuitBreaker
breaker = record {
  failure_threshold = 2;
  reset_timeout = 30;
  uninformative_counts_as_failure = true;
  states = [];
}

abbrev history : List Event
history =
    starts 1 (call "search" false)
    ∷ results 2 (call "search" true)
    ∷ results 3 (call "fetch" false)
    ∷ results 4 (call "search" true)
    ∷ []

run-row_example :
    (failures_of "search" (run empty_result history breaker)
      ≡ row empty_result true "search" history 0)
    × (closed_for "search" (run empty_result history breaker)
        ≡ ltb (row empty_result true "search" history 0) 2)
unfolding new
run-row_example = run-row empty_result 2 30 true breaker "search" history refl

abbrev tripped : ToolState
tripped = record {
  state = circuit_open;
  consecutive_failures = 2;
  opened_at = 4;
  probe_in_flight = false;
  last_attempt_at = 1;
}

abbrev open_breaker : CircuitBreaker
open_breaker = record breaker { states = ("search", tripped) ∷ [] }

abbrev attempts : List (ℕ × String)
attempts = (10, "search") ∷ (34, "search") ∷ (35, "fetch") ∷ (90, "search") ∷ []

answers_open : answers attempts open_breaker ≡ false ∷ true ∷ true ∷ false ∷ []
unfolding answers allow get put refresh attempt lookup insert
answers_open = refl

allowed_for-open_example :
    allowed_for "search" attempts open_breaker
    ≡ (if reaches (tripped.opened_at + open_breaker.reset_timeout) "search" attempts then 1 else 0)
unfolding lookup
allowed_for-open_example = allowed_for-open "search" attempts open_breaker tripped refl refl
