-- ===== src/Turn/Breaker.antt =====
-- patterns/agentic_loop.py: the circuit breaker of the loop, `_observe_for_circuit_breaker`. The
-- patterns of planning/result_check.py are a parameter.
use kaos_agents.Prelude.{
  ℕ, ◌+◌, Bool, true, false, not, ◌||◌, ◌&&◌, Option, none, some, List, String, ltb, leb,
  if◌then◌else◌,
}
use kaos_agents.Prelude.Equality.{◌==◌, string_key}
use kaos_agents.Prelude.Dict.{lookup, insert}
use kaos_agents.Turn.Types.{Attributes, Item, span, unreadable, envelope, frame, other, LoopState}

-- `event.get(key) == value`, and `event.get("type") in (None, "span")`.
abbrev pub equals : Option String → String → Bool
equals none value = false
equals (some s) value = s == value

abbrev pub absent_or : Option String → String → Bool
absent_or none value = true
absent_or (some s) value = s == value

unfoldable pub tool_call_complete_attrs : Item → Option Attributes
tool_call_complete_attrs (span is_tool_call is_complete attributes) =
    if is_tool_call && is_complete then attributes else none
tool_call_complete_attrs unreadable = none
tool_call_complete_attrs (envelope payload) = tool_call_complete_attrs payload
tool_call_complete_attrs (frame type_name subject phase attributes) =
    if absent_or type_name "span" && (equals subject "tool_call" && equals phase "complete")
    then attributes
    else none
tool_call_complete_attrs other = none

abbrev pub failure_count : String → List (String × ℕ) → ℕ
failure_count tool d = elim (lookup tool d) [ none ↦ 0 | some n ↦ n ]

module _ (is_uninformative : String → Bool) where
  abbrev pub counts_as_failure : Attributes → Bool
  counts_as_failure a = a.is_error || is_uninformative a.result_summary

  -- One completed call of a named tool.
  unfoldable pub count_call : ℕ → Attributes → LoopState → LoopState
  count_call threshold a s =
      let new_count = failure_count a.tool_name s.consecutive_tool_failures + 1 in
      let trips = counts_as_failure a && leb threshold new_count in
      record s {
        consecutive_tool_failures =
            insert a.tool_name (if counts_as_failure a then new_count else 0)
              s.consecutive_tool_failures;
        tripped_tool = if trips then a.tool_name else s.tripped_tool;
        tripped_failures = if trips then new_count else s.tripped_failures;
      }

  abbrev pub count_if_named : ℕ → Option Attributes → LoopState → LoopState
  count_if_named threshold none s = s
  count_if_named threshold (some a) s = if a.tool_name == "" then s else count_call threshold a s

  -- Once a tool has tripped, and with the threshold 0, nothing is counted.
  unfoldable pub observe_event : ℕ → Item → LoopState → LoopState
  observe_event threshold item s =
      if not (s.tripped_tool == "") || ltb threshold 1
      then s
      else count_if_named threshold (tool_call_complete_attrs item) s
