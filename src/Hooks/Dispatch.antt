-- ===== src/Hooks/Dispatch.antt =====
-- hooks/dispatch.py: how the answers of the hooks to one event are combined.
pub mod Combine
use kaos_agents.Prelude.{
  ℕ, Bool, true, false, Option, none, some, List, [], ◌∷◌, ltb, if◌then◌else◌,
}
use kaos_agents.Prelude.Reply.{Reply, replies, fails, cancelled}
use kaos_agents.Action.Circuit.{HookAction, continue, skip, require_approval}

unfoldable pub action_priority : HookAction → ℕ
action_priority continue = 0
action_priority skip = 1
action_priority require_approval = 2

pub data SpanSubject : Type 0 where
  turn tool_call step other_subject : SpanSubject

pub data SpanPhase : Type 0 where
  start complete other_phase : SpanPhase

-- What an event is for the dispatch: a span, or another event with the method for it.
pub data EventKind : Type 0 where
  span : SpanSubject → SpanPhase → EventKind
  intent_classified text_delta plan_proposed citation_found : EventKind
  evidence_insufficient memory_event turn_summary run_error other_event : EventKind

pub data Method : Type 0 where
  on_turn_start on_turn_complete on_tool_call_start on_tool_call_result : Method
  on_step_start on_step_complete on_intent_classified on_text_delta on_plan_proposed : Method
  on_citation_found on_evidence_insufficient on_memory_event on_turn_summary on_error : Method

abbrev pub method_of_span : SpanSubject → SpanPhase → Option Method
method_of_span turn start = some on_turn_start
method_of_span turn complete = some on_turn_complete
method_of_span turn other_phase = none
method_of_span tool_call start = some on_tool_call_start
method_of_span tool_call complete = some on_tool_call_result
method_of_span tool_call other_phase = none
method_of_span step start = some on_step_start
method_of_span step complete = some on_step_complete
method_of_span step other_phase = none
method_of_span other_subject phase = none

unfoldable pub method_of : EventKind → Option Method
method_of (span subject phase) = method_of_span subject phase
method_of intent_classified = some on_intent_classified
method_of text_delta = some on_text_delta
method_of plan_proposed = some on_plan_proposed
method_of citation_found = some on_citation_found
method_of evidence_insufficient = some on_evidence_insufficient
method_of memory_event = some on_memory_event
method_of turn_summary = some on_turn_summary
method_of run_error = some on_error
method_of other_event = none

-- A hook at one event: how its `on_event` ends, and how each of its methods would. Only what
-- `on_tool_call_start` returns is looked at.
pub record Hook : Type 0 where
  pub on_event : Reply (Unit {0})
  pub method : Method → Reply HookAction

abbrev pub restriction : Method → HookAction → HookAction
restriction on_tool_call_start action = action
restriction _ action = continue

abbrev pub after_method : Method → Reply HookAction → Reply HookAction
after_method m (replies action) = replies (restriction m action)
after_method m (fails message) = fails message
after_method m cancelled = cancelled

abbrev pub run_method : Option Method → Hook → Reply HookAction
run_method none hook = replies continue
run_method (some m) hook = after_method m (hook.method m)

abbrev pub after_on_event : Option Method → Hook → Reply (Unit {0}) → Reply HookAction
after_on_event m hook (replies u) = run_method m hook
after_on_event m hook (fails message) = fails message
after_on_event m hook cancelled = cancelled

-- The body of the `try`.
unfoldable pub answer : EventKind → Hook → Reply HookAction
unfolding method_of
answer event hook = after_on_event (method_of event) hook hook.on_event

abbrev pub more_restrictive : HookAction → HookAction → HookAction
more_restrictive best action =
    if ltb (action_priority best) (action_priority action) then action else best

-- An exception of a hook is logged and dropped; a cancellation, `none`, ends the dispatch.
unfoldable pub dispatch_from : HookAction → List (Reply HookAction) → Option HookAction
dispatch_from best [] = some best
dispatch_from best (replies action ∷ answers) = dispatch_from (more_restrictive best action) answers
dispatch_from best (fails message ∷ answers) = dispatch_from best answers
dispatch_from best (cancelled ∷ answers) = none

unfoldable pub answers_of : EventKind → List Hook → List (Reply HookAction)
answers_of event [] = []
answers_of event (hook ∷ hooks) = answer event hook ∷ answers_of event hooks

unfoldable pub dispatch_hook : List Hook → EventKind → Option HookAction
dispatch_hook hooks event = dispatch_from continue (answers_of event hooks)
