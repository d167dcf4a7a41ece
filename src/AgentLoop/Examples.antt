-- ===== src/AgentLoop/Examples.antt =====
-- loop/agent_loop.py: the sample's turns.
use kaos_agents.Prelude.{
  String, ◌+◌, length, if◌then◌else◌, ℕ, zero, suc, ◌≤◌, ◌≡◌, refl, true, false, none, some, [],
  ◌∷◌, ◌++◌, arith,
}
use kaos_agents.Prelude.Equality.{string_key, contains}
use kaos_agents.Events.{last, Scope}
use kaos_agents.Events.Log.{IsLog}
use kaos_agents.AgentLoop.Report.{emit_tool_call_spans}
use kaos_agents.AgentLoop.Report.Calls.{calls_events, drawn_after, emit_tool_call_spans-IsLog}
use kaos_agents.AgentLoop.Forward.{new_invocation, forward_turn, stream_turn}
use kaos_agents.AgentLoop.Streams.{stream_turn-eq-events}
use kaos_agents.AgentLoop.Accounts.{IsAccounted, forward_turn-IsAccounted}
use kaos_agents.AgentLoop.Asking.{AsksBack, forward_turn-AsksBack}
use kaos_agents.AgentLoop.Brackets.{IsBracketed, forward_turn-IsBracketed}
use kaos_agents.Termination.Loop.{new}
use kaos_agents.Termination.Judge.{Decision, TerminationJudge}
use kaos_agents.Prelude.Reply.{replies}
use kaos_agents.AgentLoop.Types.{AgentLoop}
use kaos_agents.AgentLoop.State.{TurnState}
use kaos_agents.AgentLoop.Work.{run_termination_judge}
use kaos_agents.AgentLoop.Degrading.{judged, decided, is_escalated, run_termination_judge-output}
use kaos_agents.AgentLoop.Sample.{
  answer, sample_id, sample_names, sample_loop, sample_plan, sample_ids, sample-Collaborators,
  search_call,
}

stream_turn-eq-events_example :
    stream_turn sample_names sample_loop (sample_plan false) "turn-1" none
    ≡ (forward_turn sample_names sample_loop
        (sample_plan false)
        (some [])
        "turn-1"
        none).1.invocation.events
stream_turn-eq-events_example =
    stream_turn-eq-events sample_names sample_loop (sample_plan false) "turn-1" none
      (sample-Collaborators _ tt)

forward_turn-IsAccounted_example :
    IsAccounted sample_names sample_loop
      (sample_plan false)
      (forward_turn sample_names sample_loop (sample_plan false) none "turn-1" none)
forward_turn-IsAccounted_example =
    forward_turn-IsAccounted sample_names sample_loop (sample_plan false) none "turn-1" none refl

forward_turn-AsksBack_example :
    AsksBack sample_names sample_loop
      (sample_plan true)
      "turn-1"
      (forward_turn sample_names sample_loop (sample_plan true) none "turn-1" none)
forward_turn-AsksBack_example =
    forward_turn-AsksBack sample_names sample_loop (sample_plan true) "turn-1" none none refl refl

forward_turn-IsBracketed_example :
    IsBracketed sample_names sample_loop
      (sample_plan false)
      (forward_turn sample_names sample_loop (sample_plan false) none "turn-1" none)
forward_turn-IsBracketed_example =
    forward_turn-IsBracketed sample_names sample_loop (sample_plan false) none "turn-1" none refl
      sample_ids (sample-Collaborators _ tt)

abbrev open_turn_scope : Scope
open_turn_scope = record {
  emitter = record { session_id = "s"; run_id = "r"; agent_id = none; sequence = 1; drawn = 1 };
  collector = record { events = []; span_stack = "turn" ∷ []; queue = none };
}

fresh_ids : (m : ℕ) → 1 ≤ m → contains ("turn" ∷ []) (sample_id m) ≡ false
unfolding contains
fresh_ids zero h = absurd (omega arith)
fresh_ids (suc m) h = refl

emit_tool_call_spans-IsLog_example :
    IsLog
      ([] ++ calls_events sample_id (last ("turn" ∷ [])) 1 (search_call ∷ []))
      ("turn" ∷ [])
      (drawn_after sample_id 1 (search_call ∷ []))
      (emit_tool_call_spans sample_id (search_call ∷ []) open_turn_scope)
emit_tool_call_spans-IsLog_example =
    emit_tool_call_spans-IsLog sample_id ("turn" ∷ []) (search_call ∷ []) [] 1 open_turn_scope
      fresh_ids (refl, refl, refl)

abbrev judge : TerminationJudge
judge = record {
  max_cost = some 10;
  max_iter = 3;
  max_wall = none;
  judge = none;
  min_quality = 70;
  loop_detector = new 3 none;
  degrade = record {
    min_partial_chars = 2;
    accept_on_budget_exhaustion = true;
    accept_on_quality_failure = false;
  };
}

abbrev worded : Decision → String
worded d = "over budget"

abbrev judged_loop : AgentLoop String
judged_loop = record sample_loop { termination_judge = some (judged worded judge) }

abbrev worked : TurnState String
worked = record {
  scope = open_turn_scope;
  invocation = record (new_invocation "turn-1" (sample_plan false) "h") { output = "done" };
  knowledge_base = none;
}

run_termination_judge-output_example :
    let after = run_termination_judge (λ id. id) judged_loop (some answer) worked in
    (after.0 ≡ replies tt)
    × (after.1.invocation.output ≡ "done")
    × (after.1.invocation.termination_decision_kind
        ≡ (decided (λ id. id) worded judge judged_loop refl answer worked).kind)
    × (length after.1.invocation.escalations
        ≡ 0
          + (if is_escalated judged_loop.escalation_policy
                (decided (λ id. id) worded judge judged_loop refl answer worked)
              then 1
              else 0))
run_termination_judge-output_example =
    run_termination_judge-output (λ id. id) worded judge judged_loop refl answer worked
