-- ===== src/Turn/Examples.antt =====
-- The theorems on a turn at an example, and tests of its parts.
use Prim.Native.String.{count}
use kaos_agents.Prelude.{◌≡◌, refl, true, false, List, [], ◌∷◌, leb, inl, arith, filter}
use kaos_agents.Prelude.Reply.{replies}
use kaos_agents.Prelude.Equality.{contains, to_set}
use kaos_agents.Prelude.Dict.{lookup, insert}
use kaos_agents.Planning.ToolPolicy.{
  TurnToolPolicy, plan_turn_tool_policy, plan_with, apply_ceiling, intersection, difference,
}
use kaos_agents.Planning.GoalCheck.{
  GoalCheckResult, needs_more_work, check_goal, detect_header_then_stop, ask_critic,
}
use kaos_agents.Session.Policy.{
  SessionPolicy, is_empty, consider_elevation, can_auto_elevate, needs_confirmation, tier_for,
  with_added_groups,
}
use kaos_agents.Turn.Types.{
  Item, emits, forwards, calls_worker, LoopState, Reason, Verdict, Verification, incomplete,
  rationale, next_action, prior_calls, refusal, refuse, draft_with_footer, respond_with_caveat,
  goal_checked, tool_policy_elevated,
}
use kaos_agents.Turn.Run.{goes, emitted, forwarded, charged, terminated}
use kaos_agents.Turn.Breaker.{observe_event, count_call, tool_call_complete_attrs}
use kaos_agents.Turn.Notes.{
  Override, replanned, extract_remediation_hints, collect_hints, add_hints,
}
use kaos_agents.Turn.Refusal.{
  budget_exceeded, wall_clock_exceeded, per_tool_budget_exceeded, lstrip, rstrip,
  draft_for_preserve, min_worker_draft_chars,
}
use kaos_agents.Turn.World.{check_limits}
use kaos_agents.Turn.Decision.{judge_result, goal_phase, critics_phase, decide_phase, is_repeating}
use kaos_agents.Turn.Iteration.{
  iterate, begin_iteration, plan_phase, elevate_phase, work_phase, after_work, verify_phase,
  limits_phase, called, worked, pass_on_all, effective_groups,
}
use kaos_agents.Turn.Loop.{run_loop, initial, run_agentic_turn}
use kaos_agents.Turn.Outcome.{
  Finishes, EndsOnce, IsQuiet, CallsWithin, run_agentic_turn-EndsOnce, run_agentic_turn-CallsWithin,
}
use kaos_agents.Turn.Drafts.{Delivers, run_loop-refuses}
use kaos_agents.Turn.Streak.{Follows, pass_on_all-Follows}
use kaos_agents.Turn.Caveat.{iterate-Delivers}
use kaos_agents.Turn.Sample.{policy, answer, search_call, worker_result, world, options}

run_agentic_turn-EndsOnce_example :
    Finishes (EndsOnce 3) IsQuiet (run_agentic_turn world options policy)
run_agentic_turn-EndsOnce_example = run_agentic_turn-EndsOnce world options policy

run_agentic_turn-CallsWithin_example :
    Finishes (CallsWithin policy) (CallsWithin policy) (run_agentic_turn world options policy)
run_agentic_turn-CallsWithin_example = run_agentic_turn-CallsWithin world options policy

-- The first round: the planner wants the group `web`, which is elevated, and the answer is rejected.
abbrev single : SessionPolicy
single = record policy { max_loop_iterations = 1; max_loop_cost = 14 }

abbrev next_policy : SessionPolicy
next_policy = record single { allowed_groups = "vfs" ∷ "web" ∷ [] }

abbrev rejected : LoopState
rejected = record initial {
  iteration = 1;
  cumulative_cost = 13;
  elevation_count = 1;
  last_text = answer;
  last_tool_call_count = 1;
  thinking_note =
      incomplete 1 "The parties are missing." "Name the parties."
      ∷ prior_calls worker_result.tool_calls_made
      ∷ [];
  current_iter_text = answer;
  last_tool_calls_made = worker_result.tool_calls_made;
  last_critic_rationale = rationale "The parties are missing." ∷ [];
  last_critic_next_action = next_action "Name the parties." ∷ [];
  last_terminal_verdict = Verdict.needs_more_work;
  sequence = 2;
  consecutive_tool_failures = ("search", 1) ∷ [];
  acts =
      emits 2 (goal_checked (needs_more_work "Name the parties." 80 "The parties are missing.") 1)
      ∷ forwards search_call
      ∷ calls_worker 1 ("vfs" ∷ "web" ∷ []) []
      ∷ emits 1 (tool_policy_elevated ("web" ∷ []))
      ∷ [];
}

first_round : iterate world options single initial ≡ goes next_policy rejected
unfolding iterate begin_iteration plan_phase check_limits elevate_phase work_phase after_work
    verify_phase limits_phase judge_result goal_phase critics_phase decide_phase is_repeating called
    worked pass_on_all observe_event count_call tool_call_complete_attrs effective_groups emitted
    forwarded charged terminated budget_exceeded wall_clock_exceeded per_tool_budget_exceeded lstrip
    replanned plan_turn_tool_policy plan_with apply_ceiling intersection difference to_set is_empty
    consider_elevation can_auto_elevate needs_confirmation tier_for with_added_groups contains
    filter lookup insert check_goal detect_header_then_stop ask_critic extract_remediation_hints
    collect_hints add_hints
first_round = refl

run_loop-refuses_example :
    Delivers Reason.max_iterations
      (refusal Reason.max_iterations 1
        (rationale "The parties are missing." ∷ [])
        (next_action "Name the parties." ∷ []))
      refuse
      (run_loop world options 1 next_policy rejected)
run_loop-refuses_example =
    run_loop-refuses world options 0 single next_policy initial rejected first_round (omega arith)

abbrev second_plan : TurnToolPolicy
second_plan = record {
  kept_groups = "vfs" ∷ "web" ∷ [];
  dropped_groups = [];
  confidence = 90;
  fell_back_to_ceiling = false;
  cost = 1;
}

second_planned :
    plan_turn_tool_policy next_policy.allowed_groups 60 (world.planner 2) ≡ replies second_plan
unfolding plan_turn_tool_policy plan_with apply_ceiling intersection difference to_set is_empty
    contains filter
second_planned = refl

answer_is_long :
    leb min_worker_draft_chars (count (lstrip (rstrip (draft_for_preserve rejected)))) ≡ true
unfolding draft_for_preserve lstrip rstrip contains
answer_is_long = refl

iterate-Delivers_example :
    Delivers Reason.cost_exceeded
      (draft_with_footer (rstrip (draft_for_preserve rejected)) Reason.cost_exceeded 2)
      respond_with_caveat
      (iterate world options next_policy rejected)
iterate-Delivers_example =
    iterate-Delivers world options next_policy rejected second_plan refl answer_is_long
      second_planned (omega arith)

abbrev found : List Verification
found = record { raw_cite = "1 U.S. 1"; status = "not_found"; diagnostic = "no such case" } ∷ []

abbrev verdict : GoalCheckResult
verdict = needs_more_work "Name the parties." 80 "The parties are missing."

abbrev no_overrides : List Override
no_overrides = []

abbrev nothing_seen : List Item
nothing_seen = []

abbrev five_failures : List Item
five_failures = search_call ∷ search_call ∷ search_call ∷ search_call ∷ search_call ∷ []

at_start : Follows world.is_uninformative 5 nothing_seen initial
unfolding lookup
at_start = inl (refl, λ tool named. (refl, omega arith))

pass_on_all-Follows_example :
    Follows world.is_uninformative 5 five_failures (pass_on_all world options five_failures initial)
pass_on_all-Follows_example =
    pass_on_all-Follows world options five_failures nothing_seen initial (omega arith) at_start

tripped_after_five : (pass_on_all world options five_failures initial).tripped_tool ≡ "search"
unfolding pass_on_all observe_event count_call forwarded tool_call_complete_attrs insert lookup
tripped_after_five = refl
