-- ===== src/Planning/Compose.antt =====
-- planning/compose.py: the execution of a plan. Running a step, evaluating its result and testing a
-- condition are the tools' and the language model's, and are parameters; so is the clock, which gives
-- the time at which the budget is asked after a number of steps. Traces and spans are left out,
-- and the reason of a decision to replan.
pub mod Marks
pub mod Finish
pub mod Order
mod Examples
use kaos_agents.Prelude.{
  ℕ, zero, suc, ◌+◌, ltb, Bool, true, false, not, ◌&&◌, Option, none, some, List, [], ◌∷◌, ◌++◌,
  map, String, length, if◌then◌else◌,
}
use Prim.Native.String.{◌++◌ as append}
use kaos_agents.Prelude.Equality.{◌==◌, string_key}
use kaos_agents.Planning.Budget.{
  StopReason, success, failure, needs_replan, pivoted, PlanBudget, should_stop, record_step,
  record_replan,
}
use kaos_agents.Planning.Route.{
  Judgment, Decision, stop_budget, stop_failure, replan, RouteResult, route,
}
use kaos_agents.Planning.Graph.{
  Graphs, is_pending, has, mark_running, mark_complete, mark_failed, mark_skipped, get_ready_steps,
  is_complete, has_failures, get_results,
}

pub record ActResult : Type 0 where
  pub output : String
  pub is_error : Bool
  pub cost_usd : ℕ
  pub token_count : ℕ

-- What `compose` is called with, and what it calls. `execute` is `_execute_one`, with the error
-- result that stands for an exception; `first_200` is the slice `[:200]`.
pub record Setting (G : Type 0) : Type 0 where
  pub execute : String → G → ActResult
  pub evaluate : String → ActResult → G → Judgment
  pub evaluate_condition : String → List (String × String) → Bool × String
  pub first_200 : String → String
  pub clock : ℕ → ℕ
  pub parallel : Bool
  pub confidence_threshold : ℕ

-- The variables of `compose`.
pub record State (G : Type 0) : Type 0 where
  pub graph : G
  pub budget : PlanBudget
  pub replan_count : ℕ
  pub final_stop : StopReason
  pub pivot_goal : Option String

abbrev pub is_success : StopReason → Bool
is_success success = true
is_success _ = false

module _ {G : Type 0} (lib : Graphs G) (setting : Setting G) where
  -- The loop of `_skip_remaining` and of `_skip_dependents`.
  unfoldable pub skip_all : List String → String → G → G
  skip_all [] reason g = g
  skip_all (s ∷ ids) reason g =
      skip_all ids reason (if has lib is_pending s g then mark_skipped lib s reason g else g)

  unfoldable pub skip_remaining : G → G
  skip_remaining g = skip_all (lib.node_ids g) "Budget or failure stop" g

  unfoldable pub skip_dependents : String → G → G
  skip_dependents s g = skip_all (lib.descendants s g) (append (append "Dependency " s) " failed") g

  -- The properties `abort_if` and `pivot_to` of a step, empty if there is none.
  pub abort_if_of : String → G → String
  abort_if_of s g = elim (lib.node s g) [ none ↦ "" | some n ↦ n.abort_if ]

  pub pivot_to_of : String → G → String
  pivot_to_of s g = elim (lib.node s g) [ none ↦ "" | some n ↦ n.pivot_to ]

  -- A ready step whose condition to abort holds.
  unfoldable pub aborts : List (String × String) → String → State G → Bool
  aborts prior s st =
      let condition = abort_if_of s st.graph in
      not (condition == "") && (setting.evaluate_condition condition prior).0

  unfoldable pub abort : List (String × String) → String → State G → State G
  abort prior s st =
      let evidence = (setting.evaluate_condition (abort_if_of s st.graph) prior).1 in
      let reason =
        if evidence == "" then "abort_if fired" else append "abort_if fired: " evidence in
      let pivot = pivot_to_of s st.graph in
      record st {
        graph = skip_dependents s (mark_skipped lib s reason st.graph);
        pivot_goal = if pivot == "" then st.pivot_goal else some pivot;
      }

  -- The loop over the ready steps that tests `abort_if`: the state, and the survivors.
  unfoldable pub gate : List (String × String) → List String → State G → State G × List String
  gate prior [] st = (st, [])
  gate prior (s ∷ ready) st =
      let stop = aborts prior s st in
      let (st', survivors) = gate prior ready (if stop then abort prior s st else st) in
      (st', if stop then survivors else s ∷ survivors)

  -- Without prior results no condition is tested.
  unfoldable pub pass_gate : List (String × String) → List String → State G → State G × List String
  pass_gate [] ready st = (st, ready)
  pass_gate (p ∷ prior) ready st = gate (p ∷ prior) ready st

  -- `_execute_sequential`: each step is marked and runs before the next one is marked.
  unfoldable pub execute_sequential : List String → G → G × List (String × ActResult)
  execute_sequential [] g = (g, [])
  execute_sequential (s ∷ ids) g =
      let marked = mark_running lib s g in
      let (g', results) = execute_sequential ids marked in
      (g', (s, setting.execute s marked) ∷ results)

  unfoldable pub mark_all_running : List String → G → G
  mark_all_running [] g = g
  mark_all_running (s ∷ ids) g = mark_all_running ids (mark_running lib s g)

  -- `_execute_parallel`: the steps run when all are marked.
  unfoldable pub execute_parallel : List String → G → G × List (String × ActResult)
  execute_parallel ids g =
      let marked = mark_all_running ids g in (marked, map (λ s. (s, setting.execute s marked)) ids)

  unfoldable pub execute_steps : List String → G → G × List (String × ActResult)
  execute_steps ids g =
      if setting.parallel && ltb 1 (length ids)
      then execute_parallel ids g
      else execute_sequential ids g

  -- The mark of a step that ran.
  unfoldable pub settle : String → ActResult → G → G
  settle s res g =
      if res.is_error
      then mark_failed lib s (setting.first_200 res.output) g
      else mark_complete lib s res.output (setting.evaluate s res g) g

  -- What a decision does to the state after a step, or the rest of the loop. The stop reason is
  -- changed exactly where the source breaks off.
  unfoldable pub follow : Decision → String → ℕ → State G → State G → State G
  follow stop_budget s now st rest = record st {
    graph = skip_remaining st.graph;
    final_stop = elim (should_stop now st.budget) [ none ↦ failure | some reason ↦ reason ];
  }
  follow stop_failure s now st rest = record st {
    graph = skip_remaining st.graph;
    final_stop = failure;
  }
  follow replan s now st rest = record st {
    graph = skip_remaining (skip_dependents s (mark_failed lib s "Route decided replan" st.graph));
    budget = record_replan st.budget;
    replan_count = st.replan_count + 1;
    final_stop = needs_replan;
  }
  follow _ s now st rest = rest

  -- The loop over the results.
  unfoldable pub process : List (String × ActResult) → State G → State G
  process [] st = st
  process ((s, res) ∷ results) st =
      let judgment = setting.evaluate s res st.graph in
      let budget = record_step res.cost_usd res.token_count st.budget in
      let now = setting.clock budget.steps_executed in
      let settled = record st { graph = settle s res st.graph; budget = budget } in
      let routed =
        route now judgment budget st.replan_count setting.confidence_threshold (some s) in
      follow routed.decision s now settled (process results settled)

  -- A turn of the outer loop after the gate, with the goal to pivot to. The Boolean says whether the
  -- loop goes on.
  unfoldable pub proceed : State G → List String → Option String → State G × Bool
  proceed gated survivors (some goal) =
      (record gated { graph = skip_remaining gated.graph; final_stop = pivoted }, false)
  proceed gated [] none = (gated, true)
  proceed gated (survivor ∷ others) none =
      let (g, results) = execute_steps (survivor ∷ others) gated.graph in
      let done = process results (record gated { graph = g }) in (done, is_success done.final_stop)

  -- One turn of the outer loop on the ready steps.
  unfoldable pub turn : List String → State G → State G × Bool
  turn ready st =
      let (gated, survivors) = pass_gate (get_results lib st.graph) ready st in
      proceed gated survivors gated.pivot_goal

  -- The outer loop; `none` is no end within the fuel.
  unfoldable pub loop : ℕ → State G → Option (State G)
  loop zero st = if is_complete lib st.graph then some st else none
  loop (suc fuel) st =
      if is_complete lib st.graph then some st else elim (get_ready_steps lib st.graph) [
        | [] ↦ some (record st { final_stop = failure })
        | s ∷ ready ↦
            let (next, goes_on) = turn (s ∷ ready) st in
            let rest = loop fuel next in if goes_on then rest else some next
      ]

  -- What follows the loop.
  unfoldable pub finish : State G → State G
  finish st =
      if has_failures lib st.graph && is_success st.final_stop
      then record st { final_stop = failure }
      else st

  unfoldable pub compose : ℕ → PlanBudget → G → Option (State G)
  compose fuel budget g =
      elim (loop fuel record {
        graph = g;
        budget = budget;
        replan_count = 0;
        final_stop = success;
        pivot_goal = none;
      }) [ none ↦ none | some st ↦ some (finish st) ]
