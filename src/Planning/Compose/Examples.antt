-- ===== src/Planning/Compose/Examples.antt =====
-- A plan of two steps, and the theorems on plans at it.
use kaos_agents.Prelude.{
  ◌<◌, ◌≡◌, ◌≢◌, ◌↔◌, refl, true, false, none, some, List, [], ◌∷◌, String, arith, filter,
  if◌then◌else◌,
}
use kaos_agents.Prelude.Equality.{◌==◌, string_key, contains}
use kaos_agents.Prelude.Dict.{lookup, insert}
use kaos_agents.Planning.Budget.{
  success, PlanBudget, should_stop, record_step, Charge, charges_step, charges_replan,
}
use kaos_agents.Planning.Route.{route, decide}
use kaos_agents.Planning.Graph.{
  Node, pending, completed, is_pending, is_completed, has, mark, mark_running, mark_complete,
  get_ready_steps, is_complete, has_failures, get_results,
}
use kaos_agents.Planning.Graph.Ready.{get_ready_steps_iff}
use kaos_agents.Planning.Graph.Progress.{pending_steps}
use kaos_agents.Planning.Graph.Sample.{Lists, in_lists, in_lists-laws, two_steps, sample_node}
use kaos_agents.Planning.Compose.{
  Setting, State, ActResult, abort_if_of, gate, aborts, pass_gate, execute_sequential,
  execute_steps, settle, follow, process, proceed, turn, loop, finish, compose,
}
use kaos_agents.Planning.Compose.Order.{turn-ready}
use kaos_agents.Planning.Compose.Finish.{compose_ends, compose_success}

abbrev budget : PlanBudget
budget = record {
  max_cost_usd = 100;
  max_tokens_allowed = 1000;
  max_steps_allowed = 20;
  max_replans_allowed = 3;
  max_wall_clock_seconds = 120;
  cost_usd = 0;
  tokens_used = 0;
  steps_executed = 0;
  replans = 0;
  start_time = 0;
}

-- Every step succeeds, at a cost of one.
abbrev setting : Setting Lists
setting = record {
  execute = λ s g. record { output = "page"; is_error = false; cost_usd = 1; token_count = 10 };
  evaluate = λ s res g. record { matched = true; confidence = 100 };
  evaluate_condition = λ condition prior. (false, "");
  first_200 = λ text. text;
  clock = λ steps. steps;
  parallel = true;
  confidence_threshold = 50;
}

program : Unit {0}
unfolding compose abort_if_of loop finish turn proceed pass_gate gate aborts process follow settle
    execute_steps execute_sequential mark_running mark_complete mark get_ready_steps is_complete
    has_failures get_results has lookup insert filter route decide should_stop record_step
program = tt

two_pending : pending_steps in_lists (two_steps pending) < 3
unfolding pending_steps has lookup
two_pending = omega arith

compose_ends_example : compose in_lists setting 3 budget (two_steps pending) ≢ none
compose_ends_example =
    compose_ends in_lists in_lists-laws setting 3 budget (two_steps pending) two_pending

abbrev done_node : Node
done_node = record (sample_node completed) {
  result = "page";
  judgment = some record { matched = true; confidence = 100 };
}

-- How the execution of the two steps ends.
abbrev two_done : State Lists
two_done = record {
  graph = record (two_steps pending) { nodes = ("a", done_node) ∷ ("b", done_node) ∷ [] };
  budget = record budget { cost_usd = 2; tokens_used = 20; steps_executed = 2 };
  replan_count = 0;
  final_stop = success;
  pivot_goal = none;
}

compose_success_example : is_complete in_lists two_done.graph ≡ true
unfolding program
compose_success_example =
    compose_success in_lists in_lists-laws setting 3 budget (two_steps pending) two_done refl refl

get_ready_steps_iff_example :
    (contains (get_ready_steps in_lists (two_steps completed)) "b" ≡ true)
    ↔ (contains (in_lists.node_ids (two_steps completed)) "b" ≡ true)
      × (has in_lists is_pending "b" (two_steps completed) ≡ true)
      × ((p : String)
          → contains (in_lists.predecessors "b" (two_steps completed)) p ≡ true
          → has in_lists is_completed p (two_steps completed) ≡ true)
get_ready_steps_iff_example = get_ready_steps_iff in_lists "b" (two_steps completed)

ready_steps : get_ready_steps in_lists (two_steps completed) ≡ "b" ∷ []
unfolding program
ready_steps = refl

abbrev charges : List Charge
charges = charges_step 60 10 ∷ charges_replan ∷ charges_step 50 10 ∷ []

abbrev second : State Lists
second = record two_done { graph = two_steps completed }

-- Another way to run steps, which differs on every step but "b".
abbrev only_b : String → Lists → ActResult
only_b s g =
    if "b" == s
    then record { output = "page"; is_error = false; cost_usd = 1; token_count = 10 }
    else record { output = "no"; is_error = true; cost_usd = 9; token_count = 90 }

only_b-agrees :
    (s : String)
    → has in_lists is_pending s second.graph ≡ true
    → ((p : String)
        → contains (in_lists.predecessors s second.graph) p ≡ true
        → has in_lists is_completed p second.graph ≡ true)
    → (g : Lists) → only_b s g ≡ setting.execute s g
unfolding has lookup
only_b-agrees s waits done g = ground arith

turn-ready_example :
    turn in_lists
      (record setting { execute = only_b })
      (get_ready_steps in_lists second.graph)
      second
    ≡ turn in_lists setting (get_ready_steps in_lists second.graph) second
turn-ready_example = turn-ready in_lists setting only_b second only_b-agrees
