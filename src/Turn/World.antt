-- ===== src/Turn/World.antt =====
-- patterns/agentic_loop.py: what the loop asks is a `World`: the replies of the models and of the
-- worker, the clock, and how a text is read, each at an iteration; and how it stops at a limit.
use kaos_agents.Prelude.{ℕ, Bool, Option, none, some, List, String, if◌then◌else◌}
use kaos_agents.Prelude.Equality.{string_key}
use kaos_agents.Prelude.Reply.{Reply}
use kaos_agents.Planning.ToolPolicy.{TurnToolPolicyResult}
use kaos_agents.Planning.GoalCheck.{GoalCheckOutcome, Line}
use kaos_agents.Session.Policy.{Groups, SessionPolicy}
use kaos_agents.Turn.Types.{LoopState, WorkerCall, Verification, Note, Reason}
use kaos_agents.Turn.Critics.{Critic, Judgement}
use kaos_agents.Turn.Run.{Effect, ◌>>=◌, ◌>>◌, get, when}
use kaos_agents.Turn.Refusal.{budget_exceeded, wall_clock_exceeded, draft_for_preserve, stop_for}

pub record World : Type 0 where
  pub planner : ℕ → Reply TurnToolPolicyResult
  pub worker : ℕ → Groups → List Note → WorkerCall
  pub verifier : ℕ → Reply (List Verification)
  pub goal_checker : ℕ → Reply GoalCheckOutcome
  pub draft_checker : ℕ → Reply GoalCheckOutcome
  pub judge : Critic → ℕ → Reply Judgement
  pub clock_planned : ℕ → ℕ
  pub clock_worked : ℕ → ℕ
  pub lines : String → List Line
  pub normalize : String → String
  pub is_uninformative : String → Bool
  pub mentions_try : String → Bool
  pub mentioned_tools : String → List String

-- The arguments of `run_agentic_turn`: which models it has, and its thresholds.
pub record Options : Type 0 where
  pub confidence_threshold : ℕ
  pub has_goal_check_model : Bool
  pub has_model : Critic → Bool
  pub circuit_breaker_threshold : ℕ
  pub max_tool_calls_per_iteration : ℕ
  pub citation_verification_enabled : Bool

module _ (w : World) (o : Options) where
  unfoldable pub draft_check : LoopState → Option (List Line × Reply GoalCheckOutcome)
  draft_check s =
      if o.has_goal_check_model
      then some (w.lines (draft_for_preserve s), w.draft_checker s.iteration)
      else none

  unfoldable pub stop : Reason → Effect
  stop reason = do s ← get; stop_for reason (draft_check s)

  unfoldable pub check_limits : ℕ → SessionPolicy → Effect
  check_limits now policy = do
    s ← get
    when (budget_exceeded s policy) (stop Reason.cost_exceeded)
    when (wall_clock_exceeded now policy) (stop Reason.wall_clock_exceeded)
