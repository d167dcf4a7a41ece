-- ===== src/Action/Circuit.antt =====
-- action/circuit.py: the circuit breaker of the tools. `now` is what `time.monotonic()` returns, in
-- clock ticks; a method that reads the clock twice is given one reading. The recognizer of an
-- uninformative result (regular expressions) is a parameter.
pub mod Tally
pub mod History
pub mod Probe
mod Examples
use kaos_agents.Prelude.{
  ℕ, suc, ◌+◌, leb, Bool, true, false, not, ◌&&◌, ◌||◌, Option, none, some, List, [], ◌∷◌, String,
  if◌then◌else◌,
}
use kaos_agents.Prelude.Equality.{◌==◌, string_key}
use kaos_agents.Prelude.Dict.{lookup, insert}

pub data CircuitState : Type 0 where
  circuit_closed circuit_open circuit_half_open : CircuitState

-- `_PerToolState`.
pub record ToolState : Type 0 where
  pub state : CircuitState
  pub consecutive_failures : ℕ
  pub opened_at : ℕ
  pub probe_in_flight : Bool
  pub last_attempt_at : ℕ

pub record CircuitBreaker : Type 0 where
  pub failure_threshold : ℕ
  pub reset_timeout : ℕ
  pub uninformative_counts_as_failure : Bool
  pub states : List (String × ToolState)

-- `__init__`, where `none` is the ValueError of a threshold below 1.
unfoldable pub new : ℕ → ℕ → Bool → Option CircuitBreaker
new failure_threshold reset_timeout uninformative_counts_as_failure =
    if leb 1 failure_threshold
    then some record {
      failure_threshold = failure_threshold;
      reset_timeout = reset_timeout;
      uninformative_counts_as_failure = uninformative_counts_as_failure;
      states = [];
    }
    else none

abbrev pub fresh : ℕ → ToolState
fresh now = record {
  state = circuit_closed;
  consecutive_failures = 0;
  opened_at = 0;
  probe_in_flight = false;
  last_attempt_at = now;
}

-- `_get`; what it adds for a new tool is stored by the caller, with the caller's changes.
unfoldable pub get : ℕ → String → CircuitBreaker → ToolState
get now tool b = elim (lookup tool b.states) [ none ↦ fresh now | some st ↦ st ]

unfoldable pub put : String → ToolState → CircuitBreaker → CircuitBreaker
put tool st b = record b { states = insert tool st b.states }

-- What `state_for` does to the tool's state.
unfoldable pub refresh : ℕ → ℕ → ToolState → ToolState
refresh timeout now st = elim st.state [
  | circuit_open ↦
      if leb (st.opened_at + timeout) now
      then record st { state = circuit_half_open; probe_in_flight = false }
      else st
  | _ ↦ st
]

unfoldable pub state_for : ℕ → String → CircuitBreaker → CircuitBreaker × CircuitState
unfolding refresh get put
state_for now tool b =
    let st = refresh b.reset_timeout now (get now tool b) in (put tool st b, st.state)

-- `allow` after its call of `state_for`.
unfoldable pub attempt : ℕ → ToolState → ToolState × Bool
attempt now st =
    let noted = record st { last_attempt_at = now } in
    elim st.state [
      | circuit_closed ↦ (noted, true)
      | circuit_open ↦ (noted, false)
      | circuit_half_open ↦
          if st.probe_in_flight
          then (noted, false)
          else (record noted { probe_in_flight = true }, true)
    ]

unfoldable pub allow : ℕ → String → CircuitBreaker → CircuitBreaker × Bool
unfolding attempt refresh get put
allow now tool b =
    let (st, allowed) = attempt now (refresh b.reset_timeout now (get now tool b)) in
    (put tool st b, allowed)

unfoldable pub succeed : ToolState → ToolState
succeed st = record st { state = circuit_closed; consecutive_failures = 0; probe_in_flight = false }

unfoldable pub record_success : ℕ → String → CircuitBreaker → CircuitBreaker
unfolding succeed get put
record_success now tool b = put tool (succeed (get now tool b)) b

abbrev pub trip : ℕ → ToolState → ToolState
trip now st = record st { state = circuit_open; opened_at = now; probe_in_flight = false }

unfoldable pub fail : ℕ → ℕ → ToolState → ToolState
fail threshold now st =
    let counted = record st { consecutive_failures = st.consecutive_failures + 1 } in
    elim st.state [
      | circuit_half_open ↦ trip now counted
      | _ ↦ if leb threshold (st.consecutive_failures + 1) then trip now counted else counted
    ]

unfoldable pub record_failure : ℕ → String → CircuitBreaker → CircuitBreaker
unfolding fail get put
record_failure now tool b = put tool (fail b.failure_threshold now (get now tool b)) b

pub data HookAction : Type 0 where
  continue skip require_approval : HookAction

-- The attributes that the hooks read off a span; one that is missing has the default of `get`.
pub record CallSpan : Type 0 where
  pub tool_name : String
  pub is_error : Bool
  pub result_summary : String

unfoldable pub on_tool_call_start : ℕ → CallSpan → CircuitBreaker → CircuitBreaker × HookAction
on_tool_call_start now event b =
    if event.tool_name == ""
    then (b, continue)
    else let (b', allowed) = allow now event.tool_name b in (b', if allowed then continue else skip)

module _ (is_uninformative : String → Bool) where
  unfoldable pub is_failure : Bool → CallSpan → Bool
  is_failure uninformative_counts event =
      event.is_error || uninformative_counts && is_uninformative event.result_summary

  unfoldable pub on_tool_call_result : ℕ → CallSpan → CircuitBreaker → CircuitBreaker
  unfolding is_failure
  on_tool_call_result now event b =
      if event.tool_name == ""
      then b
      else if is_failure b.uninformative_counts_as_failure event
      then record_failure now event.tool_name b
      else record_success now event.tool_name b

-- What the hooks are told, with the time.
pub data Event : Type 0 where
  starts : ℕ → CallSpan → Event
  results : ℕ → CallSpan → Event

module _ (is_uninformative : String → Bool) where
  unfoldable pub step : Event → CircuitBreaker → CircuitBreaker
  step (starts now event) b = (on_tool_call_start now event b).0
  step (results now event) b = on_tool_call_result is_uninformative now event b

  unfoldable pub run : List Event → CircuitBreaker → CircuitBreaker
  run [] b = b
  run (e ∷ es) b = run es (step e b)
