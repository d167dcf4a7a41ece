-- ===== src/Turn/Notes.antt =====
-- patterns/agentic_loop.py: the note that the next call of the worker is given. The regular
-- expressions on a summary are parameters: whether it says "Try", and the tools that it names.
use kaos_agents.Prelude.{
  ℕ, Bool, ◌&&◌, not, List, [], ◌∷◌, ◌++◌, String, filter, length, map, take, if◌then◌else◌,
}
use kaos_agents.Prelude.Equality.{◌==◌, string_key, contains}
use kaos_agents.Planning.GoalCheck.{
  GoalCheckResult, satisfied, needs_more_work, insufficient_evidence,
}
use kaos_agents.Turn.Types
use kaos_agents.Turn.Types.{
  ToolCall, Verification, Note, incomplete, rationale, next_action, directive, flagged,
  failed_citations, remediation_hints, prior_calls, LoopState, Verdict, override,
}
use kaos_agents.Turn.Critics.{Critic}

-- A critic that overrides, with the label of its verdict.
abbrev pub Override : Type 0
Override = Critic × String

-- `is_problem` of citations/verifier.py.
abbrev pub is_problem : Verification → Bool
is_problem v = contains ("mismatch" ∷ "not_found" ∷ []) v.status

abbrev pub diagnostics : List Verification → List (String × String)
diagnostics vs = map (λ (v : Verification). (v.raw_cite, v.diagnostic)) (filter is_problem vs)

abbrev pub note_of : List (String × String) → List Note → List Note
note_of [] note = note
note_of (d ∷ ds) note = failed_citations (d ∷ ds) ∷ []

unfoldable pub with_citations : List Verification → LoopState → LoopState
with_citations vs s = record s { thinking_note = note_of (diagnostics vs) s.thinking_note }

module _ (mentions_try : String → Bool) (mentioned_tools : String → List String) where
  -- The tools of one failed call that are not among the hints yet.
  unfoldable pub add_hints : List String → List String → List String
  add_hints [] seen = seen
  add_hints (tool ∷ tools) seen =
      add_hints tools (if contains seen tool then seen else seen ++ tool ∷ [])

  abbrev pub tools_of : ToolCall → List String
  tools_of call =
      if call.is_error && (not (call.summary_excerpt == "") && mentions_try call.summary_excerpt)
      then mentioned_tools call.summary_excerpt
      else []

  unfoldable pub collect_hints : List ToolCall → List String → List String
  collect_hints [] seen = seen
  collect_hints (call ∷ calls) seen = collect_hints calls (add_hints (tools_of call) seen)

  -- At most three.
  unfoldable pub extract_remediation_hints : List ToolCall → List String
  extract_remediation_hints calls = take 3 (collect_hints calls [])

  abbrev pub hint_note : ℕ → List String → List Note
  hint_note iteration [] = []
  hint_note iteration (hint ∷ hints) = remediation_hints iteration (hint ∷ hints) ∷ []

  -- The calls that the summary lists.
  abbrev pub summary_note : List ToolCall → List Note
  summary_note [] = []
  summary_note (call ∷ calls) = prior_calls (take 10 (call ∷ calls)) ∷ []

  abbrev pub goal_note : ℕ → GoalCheckResult → List Note
  goal_note iteration (needs_more_work next confidence why) = incomplete iteration why next ∷ []
  goal_note iteration (satisfied confidence why) = []
  goal_note iteration (insufficient_evidence missing why) = []

  abbrev pub goal_rationale : GoalCheckResult → List Note
  goal_rationale (needs_more_work next confidence why) = rationale why ∷ []
  goal_rationale (satisfied confidence why) = []
  goal_rationale (insufficient_evidence missing why) = []

  abbrev pub goal_next_action : GoalCheckResult → List Note
  goal_next_action (needs_more_work next confidence why) = next_action next ∷ []
  goal_next_action (satisfied confidence why) = []
  goal_next_action (insufficient_evidence missing why) = []

  abbrev pub directives_of : List Override → List Note
  directives_of = map (λ (o : Override). directive o.0 o.1)

  -- The first critic that overrides gives the rationale.
  abbrev pub recorded : GoalCheckResult → List Override → LoopState → LoopState
  recorded verdict [] s = record s {
    thinking_note = goal_note s.iteration verdict;
    last_critic_rationale = goal_rationale verdict;
    last_critic_next_action = goal_next_action verdict;
    last_terminal_verdict = Types.Verdict.needs_more_work;
  }
  recorded verdict ((critic, label) ∷ overrides) s = record s {
    thinking_note = directives_of ((critic, label) ∷ overrides);
    last_critic_rationale = flagged critic label ∷ [];
    last_critic_next_action = directives_of ((critic, label) ∷ overrides);
    last_terminal_verdict = override;
  }

  abbrev pub with_history : List ToolCall → LoopState → LoopState
  with_history calls s = record s {
    thinking_note =
        s.thinking_note
        ++ (hint_note s.iteration (extract_remediation_hints calls) ++ summary_note calls);
  }

  -- What an iteration leaves for the next one.
  unfoldable pub replanned :
      (text : String) (calls : List ToolCall)
      → GoalCheckResult
      → List Override
      → LoopState
      → LoopState
  replanned text calls verdict overrides s = with_history calls (
      recorded verdict overrides
        (record s { last_text = text; last_tool_call_count = length calls }))
