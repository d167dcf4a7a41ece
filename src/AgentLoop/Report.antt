-- ===== src/AgentLoop/Report.antt =====
-- loop/agent_loop.py: what a turn emits for the result of its planner.
pub mod Calls
use kaos_agents.Prelude.{ℕ, List, [], ◌∷◌, String, if◌then◌else◌}
use Prim.Native.String.{◌++◌ as append}
use kaos_agents.Prelude.Equality.{◌==◌, string_key, nat_key}
use kaos_agents.Events.{
  tool_call, string, flag, tuple, dict, Value, citation_found, Scope, emit_event, span_start,
  span_complete, next_span_id,
}
use kaos_agents.AgentLoop.Usage.{or_else, emit_planner_usage}
use kaos_agents.AgentLoop.Types.{ToolExecution, PlanResult}

-- `structured_content`, if there is any.
abbrev pub structured : List (String × String) → List (String × Value)
structured [] = []
structured (x ∷ xs) = ("structured_content", dict (x ∷ xs)) ∷ []

-- The text of a result.
unfoldable pub result_text : PlanResult → String
result_text r = or_else r.text (or_else r.output r.printed)

-- `emit_citations_for_text`, with the citations that are found in the text.
unfoldable pub emit_citations : List String → Scope → Scope
emit_citations [] s = s
emit_citations (claim ∷ claims) s = emit_citations claims (emit_event (citation_found claim) s)

module _ (new_span_id : ℕ → String) where
  -- One pass of the loop of `_emit_tool_call_spans_from_trajectory`.
  unfoldable pub tool_call_span : ToolExecution → Scope → Scope
  tool_call_span e s =
      let call_id = or_else e.call_id e.tool_name in
      let name = append "tool." e.tool_name in
      if e.tool_name == ""
      then s
      else span_complete tool_call (next_span_id new_span_id s) name
          (("tool_name", string e.tool_name)
            ∷ ("call_id", string call_id)
            ∷ ("result_summary", string e.result_summary)
            ∷ ("is_error", flag e.is_error)
            ∷ structured e.structured_content)
          (span_start new_span_id tool_call name
            (("tool_name", string e.tool_name)
              ∷ ("call_id", string call_id)
              ∷ ("arguments", tuple e.arguments)
              ∷ [])
            s)

  unfoldable pub emit_tool_call_spans : List ToolExecution → Scope → Scope
  emit_tool_call_spans [] s = s
  emit_tool_call_spans (e ∷ executions) s = emit_tool_call_spans executions (tool_call_span e s)

  -- What the turn emits for a result.
  unfoldable pub report_result : (String → List String) → PlanResult → Scope → Scope
  unfolding result_text
  report_result citations r s =
      emit_citations (citations (result_text r))
        (emit_tool_call_spans r.tool_executions (emit_planner_usage r.usage "planner" s))
