-- ===== src/Termination/Judge/Examples.antt =====
-- A run at its third iteration, and the theorems on detectors and decisions at it.
use kaos_agents.Prelude.{
  All, ℕ, ◌≡◌, ◌↔◌, true, false, none, some, Option, Bool, List, [], ◌∷◌, String,
}
use kaos_agents.Prelude.Equality.{◌==◌, string_key}
use kaos_agents.Termination.Loop.{new}
use kaos_agents.Termination.Judge.{
  complete, other_event, TerminationJudge, Iteration, over_budget, newest, watch, poor, forward,
}
use kaos_agents.Termination.Judge.Decisions.{IsWellFormed, forward_complete}

abbrev calls : List String
calls = "search" ∷ "fetch" ∷ "search" ∷ []

abbrev by_equality : Option (String → String → Bool)
by_equality = none

abbrev judge : TerminationJudge
judge = record {
  max_cost = some 100;
  max_iter = 3;
  max_wall = none;
  judge = some (λ text. 80);
  min_quality = 70;
  loop_detector = new 3 by_equality;
  degrade = record {
    min_partial_chars = 8;
    accept_on_budget_exhaustion = true;
    accept_on_quality_failure = false;
  };
}

abbrev iteration : ℕ → Iteration
iteration n = record {
  cost_usd = 10;
  iteration = n;
  wall_seconds = 5;
  partial_text = "the answer";
  events = other_event ∷ [];
  step_signature = some "search";
}

forward_complete_example :
    IsWellFormed (forward (iteration 2) judge).1
    × (((forward (iteration 2) judge).1.kind ≡ complete)
        ↔ (over_budget judge (iteration 2) ≡ false)
          × All (λ e. e ≡ other_event) (newest 20 (other_event ∷ []))
          × ((watch (some "search") judge.loop_detector).1 ≡ false)
          × (poor judge "the answer" ≡ false)
          × (((iteration 2).partial_text == "") ≡ false))
forward_complete_example = forward_complete (iteration 2) judge
