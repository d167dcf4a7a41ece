-- ===== src/Turn/Loop.antt =====
-- patterns/agentic_loop.py: `run_agentic_turn`, the loop over the rounds.
use kaos_agents.Prelude.{ℕ, zero, suc, [], ltb, if◌then◌else◌}
use kaos_agents.Session.Policy.{SessionPolicy}
use kaos_agents.Turn.Types.{LoopState, Reason, Verdict}
use kaos_agents.Turn.Run.{
  Run, Effect, goes, returns, raises, out_of_fuel, interrupted, failed, and_then, terminated,
}
use kaos_agents.Turn.World.{World, Options, stop}
use kaos_agents.Turn.Iteration.{iterate}

abbrev pub initial : LoopState
initial = record {
  iteration = 0;
  cumulative_cost = 0;
  elevation_count = 0;
  last_text = "";
  last_tool_call_count = 0;
  thinking_note = [];
  current_iter_text = "";
  last_tool_calls_made = [];
  last_critic_rationale = [];
  last_critic_next_action = [];
  last_terminal_verdict = Verdict.no_verdict;
  sequence = 0;
  consecutive_tool_failures = [];
  tripped_tool = "";
  tripped_failures = 0;
  acts = [];
}

module _ (w : World) (o : Options) where
  -- `while state.iteration < policy.max_loop_iterations`, and what follows the loop.
  unfoldable pub run_loop : ℕ → SessionPolicy → Effect
  run_loop zero policy s = out_of_fuel s
  run_loop (suc fuel) policy s =
      if ltb s.iteration policy.max_loop_iterations
      then and_then (iterate w o policy s) (λ next s'. run_loop fuel next s')
      else stop w o Reason.max_iterations s

  -- `except asyncio.CancelledError`.
  abbrev pub finalize : Run (Unit {0}) → Run (Unit {0})
  finalize (raises interrupted s) = raises interrupted (terminated Reason.user_interrupt s)
  finalize (raises (failed message) s) = raises (failed message) s
  finalize (goes a s) = goes a s
  finalize (returns s) = returns s
  finalize (out_of_fuel s) = out_of_fuel s

  -- One round more than the policy allows is enough fuel.
  unfoldable pub run_agentic_turn : SessionPolicy → Run (Unit {0})
  run_agentic_turn policy = finalize (run_loop (suc policy.max_loop_iterations) policy initial)
