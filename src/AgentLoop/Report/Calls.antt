-- ===== src/AgentLoop/Report/Calls.antt =====
-- loop/agent_loop.py, `_emit_tool_call_spans_from_trajectory`: the spans of the tool calls.
use mathlib.Core.List.{append-nil, append_assoc}
use kaos_agents.Prelude.{
  ℕ, ◌+◌, ◌≤◌, ◌≡◌, refl, subst, ◌∙◌, inl, inr, true, false, Option, List, [], ◌∷◌, ◌++◌, String,
  arith, Bool-cases, if◌then◌else◌,
}
use Prim.Native.String.{◌++◌ as append}
use kaos_agents.Prelude.Equality.{◌==◌, string_key, contains}
use kaos_agents.Events.{Payload, tool_call, string, flag, tuple, Scope, span_start, last}
use kaos_agents.Events.Log.{starts, completes, IsLog, span_start-IsLog, span_complete-IsLog}
use kaos_agents.AgentLoop.Types.{ToolExecution}
use kaos_agents.AgentLoop.Usage.{or_else}
use kaos_agents.AgentLoop.Report.{structured, tool_call_span, emit_tool_call_spans}

-- The two events of a call, under a parent, with the id of its span.
abbrev pub call_events : (id : String) → (parent : Option String) → ToolExecution → List Payload
call_events id parent e =
    starts tool_call id parent (append "tool." e.tool_name) (
      ("tool_name", string e.tool_name)
      ∷ ("call_id", string (or_else e.call_id e.tool_name))
      ∷ ("arguments", tuple e.arguments)
      ∷ [])
    ∷ completes tool_call id (append "tool." e.tool_name) (
        ("tool_name", string e.tool_name)
        ∷ ("call_id", string (or_else e.call_id e.tool_name))
        ∷ ("result_summary", string e.result_summary)
        ∷ ("is_error", flag e.is_error)
        ∷ structured e.structured_content)
    ∷ []

module _ (new_span_id : ℕ → String) where
  -- The events of the calls that have a name, with the ids drawn from `n` on, and how many are drawn.
  abbrev pub calls_events : Option String → ℕ → List ToolExecution → List Payload
  calls_events parent n [] = []
  calls_events parent n (e ∷ es) =
      let named = call_events (new_span_id n) parent e ++ calls_events parent (n + 1) es in
      let unnamed = calls_events parent n es in if e.tool_name == "" then unnamed else named

  abbrev pub drawn_after : ℕ → List ToolExecution → ℕ
  drawn_after n [] = n
  drawn_after n (e ∷ es) =
      let named = drawn_after (n + 1) es in
      let unnamed = drawn_after n es in if e.tool_name == "" then unnamed else named

  tool_call_span-unnamed :
      (s : Scope) (e : ToolExecution)
      → (e.tool_name == "") ≡ true
      → tool_call_span new_span_id e s ≡ s
  unfolding tool_call_span
  tool_call_span-unnamed s e unnamed = rw unnamed refl

  module _ (stack : List String) where
    tool_call_span-IsLog :
        (ps : List Payload) (n : ℕ) (s : Scope) (e : ToolExecution)
        → (e.tool_name == "") ≡ false
        → s.emitter.drawn ≡ n
        → contains stack (new_span_id n) ≡ false
        → IsLog ps stack n s
        → IsLog
            (ps ++ call_events (new_span_id n) (last stack) e)
            stack
            (n + 1)
            (tool_call_span new_span_id e s)
    unfolding tool_call_span
    tool_call_span-IsLog ps n s e named here =
        subst
          (λ m.
            contains stack (new_span_id m) ≡ false
            → IsLog ps stack m s
            → IsLog (ps ++ call_events (new_span_id m) (last stack) e) stack (m + 1)
                (tool_call_span new_span_id e s))
          here logged
      where
        logged :
            contains stack (new_span_id s.emitter.drawn) ≡ false
            → IsLog ps stack s.emitter.drawn s
            → IsLog
                (ps ++ call_events (new_span_id s.emitter.drawn) (last stack) e)
                stack
                (s.emitter.drawn + 1)
                (tool_call_span new_span_id e s)
        logged new log =
            let n = s.emitter.drawn in
            let id = new_span_id n in
            let started =
              span_start-IsLog ps stack n s log new_span_id tool_call (append "tool." e.tool_name) (
                ("tool_name", string e.tool_name)
                ∷ ("call_id", string (or_else e.call_id e.tool_name))
                ∷ ("arguments", tuple e.arguments)
                ∷ []) in
            let ended =
              span_complete-IsLog _ (stack ++ id ∷ []) (n + 1)
                (span_start new_span_id tool_call (append "tool." e.tool_name)
                  (("tool_name", string e.tool_name)
                    ∷ ("call_id", string (or_else e.call_id e.tool_name))
                    ∷ ("arguments", tuple e.arguments)
                    ∷ [])
                  s)
                started id stack [] refl new tool_call (append "tool." e.tool_name) _ in
            rw named (ended.0 ∙ append_assoc ps (_ ∷ []) (_ ∷ []), ended.1, ended.2)

    -- For each execution with a tool's name, in order, a span is started under the innermost open span and
    -- completed, with an id of its own, and nothing is emitted for the others; the open spans are the same
    -- afterwards. The ids that are drawn must not be those of open spans.
    pub emit_tool_call_spans-IsLog :
        (es : List ToolExecution) (ps : List Payload) (n : ℕ) (s : Scope)
        → ((m : ℕ) → n ≤ m → contains stack (new_span_id m) ≡ false)
        → IsLog ps stack n s
        → IsLog
            (ps ++ calls_events (last stack) n es)
            stack
            (drawn_after n es)
            (emit_tool_call_spans new_span_id es s)
    unfolding emit_tool_call_spans
    emit_tool_call_spans-IsLog [] ps n s new log = rw append-nil log
    emit_tool_call_spans-IsLog (e ∷ es) ps n s new log = elim (Bool-cases (e.tool_name == "")) [
      | inl unnamed ↦ rw unnamed (
          rw (tool_call_span-unnamed s e unnamed, emit_tool_call_spans)
            (emit_tool_call_spans-IsLog es ps n s new log))
      | inr named ↦
          let here = new n (omega arith) in
          let called = tool_call_span-IsLog ps n s e named log.2 here log in
          let rest =
            emit_tool_call_spans-IsLog es _ (n + 1) (tool_call_span new_span_id e s)
              (λ m h. new m (omega arith)) called in
          rw named (rest.0 ∙ append_assoc ps _ _, rest.1, rest.2)
    ]
