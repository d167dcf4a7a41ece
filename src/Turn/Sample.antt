-- ===== src/Turn/Sample.antt =====
-- A turn whose first answer is rejected and whose second is accepted.
use kaos_agents.Prelude.{true, false, [], ◌∷◌, String, some, if◌then◌else◌, ltb}
use kaos_agents.Prelude.Reply.{replies}
use kaos_agents.Planning.GoalCheck.{body, satisfied, needs_more_work}
use kaos_agents.Session.Policy.{SessionPolicy, default_elevation_policy, research_soft_ceiling}
use kaos_agents.Turn.Types.{WorkerResult, buffered, Item, span}
use kaos_agents.Turn.World.{World, Options}

abbrev pub policy : SessionPolicy
policy = record {
  allowed_groups = "vfs" ∷ [];
  soft_ceiling = research_soft_ceiling;
  elevation_policy = default_elevation_policy;
  auto_elevate = true;
  max_loop_iterations = 3;
  max_loop_cost = 200;
  max_loop_wall_clock = 60000;
  max_per_tool_cost = 0;
}

abbrev pub answer : String
answer = "The filing names three parties and a closing date in May."

abbrev pub search_call : Item
search_call =
    span true true (some record { tool_name = "search"; is_error = true; result_summary = "down" })

abbrev pub worker_result : WorkerResult
worker_result = record {
  text = answer;
  tool_calls_made = record { name = "search"; is_error = true; summary_excerpt = "down" } ∷ [];
  cost = 10;
  events = search_call ∷ [];
}

abbrev pub world : World
world = record {
  planner = λ k. replies record { wanted_groups = "vfs" ∷ "web" ∷ []; confidence = 90; cost = 1 };
  worker = λ k groups note. buffered (replies worker_result);
  verifier = λ k. replies [];
  goal_checker = λ k. replies record {
    result =
        if ltb 1 k
        then satisfied 90 "It answers the question."
        else needs_more_work "Name the parties." 80 "The parties are missing.";
    cost = 2;
  };
  draft_checker = λ k. replies record { result = satisfied 90 "Complete."; cost = 2 };
  judge = λ critic k. replies record { label = "consistent"; confidence = 90; cost = 1 };
  clock_planned = λ k. 1000;
  clock_worked = λ k. 2000;
  lines = λ text. body 57 ∷ [];
  normalize = λ text. text;
  is_uninformative = λ summary. false;
  mentions_try = λ text. false;
  mentioned_tools = λ text. [];
}

abbrev pub options : Options
options = record {
  confidence_threshold = 60;
  has_goal_check_model = false;
  has_model = λ critic. true;
  circuit_breaker_threshold = 5;
  max_tool_calls_per_iteration = 30;
  citation_verification_enabled = false;
}
