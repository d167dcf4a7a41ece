-- ===== src/Turn/Decision.antt =====
-- patterns/agentic_loop.py: the goal check, the critics after it, and the decision how a round ends.
use kaos_agents.Prelude.{Bool, true, false, ◌&&◌, List, [], ◌∷◌, String, length, ltb, if◌then◌else◌}
use kaos_agents.Prelude.Equality.{string_key}
use kaos_agents.Planning.GoalCheck.{GoalCheckResult, check_goal, is_satisfied, is_insufficient}
use kaos_agents.Turn.Types.{LoopState, WorkerResult, goal_checked, consistency_checked, Reason}
use kaos_agents.Turn.Critics.{
  Critic, m2, m3, m4, m5, allowed_labels, judge_with_rubric, critic_overrides,
}
use kaos_agents.Turn.Run.{M, Effect, ◌>>=◌, ◌>>◌, pure, get, modify, await, when, emit, charged}
use kaos_agents.Turn.Progress.{is_stuck}
use kaos_agents.Turn.Refusal.{finish_with}
use kaos_agents.Turn.Notes.{Override, replanned}
use kaos_agents.Turn.World.{World, Options, stop}

module _ (w : World) (o : Options) where
  unfoldable pub goal_phase : WorkerResult → M GoalCheckResult
  goal_phase r = do
    s ← get
    outcome ← await (check_goal (w.lines r.text) (w.goal_checker s.iteration))
    modify (charged outcome.cost)
    emit (goal_checked outcome.result s.iteration)
    pure outcome.result

  abbrev pub add_override : Bool → Critic → String → List Override → List Override
  add_override true critic label overrides = (critic, label) ∷ overrides
  add_override false critic label overrides = overrides

  unfoldable pub run_critics : List Critic → M (List Override)
  run_critics [] = pure []
  run_critics (critic ∷ critics) = do
    s ← get
    verdict ← await (judge_with_rubric (allowed_labels critic) (w.judge critic s.iteration))
    modify (charged verdict.cost)
    emit (consistency_checked critic (critic_overrides critic verdict))
    overrides ← run_critics critics
    pure (add_override (critic_overrides critic verdict) critic verdict.label overrides)

  unfoldable pub enabled : List Critic → List Critic
  enabled [] = []
  enabled (critic ∷ critics) =
      if o.has_model critic then critic ∷ enabled critics else enabled critics

  unfoldable pub critics_phase : GoalCheckResult → M (List Override)
  critics_phase verdict =
      if is_satisfied verdict then run_critics (enabled (m2 ∷ m3 ∷ m4 ∷ m5 ∷ [])) else pure []

  abbrev pub is_none : List Override → Bool
  is_none [] = true
  is_none (x ∷ xs) = false

  unfoldable pub is_repeating : WorkerResult → LoopState → Bool
  is_repeating r s =
      ltb 1 s.iteration
      && is_stuck w.normalize s.last_text r.text s.last_tool_call_count (length r.tool_calls_made)

  unfoldable pub decide_phase : WorkerResult → GoalCheckResult → List Override → Effect
  decide_phase r verdict overrides = do
    when (is_satisfied verdict && is_none overrides) (finish_with Reason.satisfied)
    when (is_insufficient verdict) (finish_with Reason.insufficient_evidence)
    s ← get
    when (is_repeating r s) (stop w o Reason.stuck_no_progress)
    modify (replanned w.mentions_try w.mentioned_tools r.text r.tool_calls_made verdict overrides)

  -- What the worker's result leads to.
  unfoldable pub judge_result : WorkerResult → Effect
  judge_result r = do
    verdict ← goal_phase r
    overrides ← critics_phase verdict
    decide_phase r verdict overrides
