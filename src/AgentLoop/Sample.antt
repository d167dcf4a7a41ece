-- ===== src/AgentLoop/Sample.antt =====
-- loop/agent_loop.py: a turn whose planner calls one tool, and one that asks back.
use kaos_agents.Prelude.{
  All, subst, Option, ℕ, zero, suc, ◌<◌, ◌≡◌, refl, Bool, true, false, none, some, [], ◌∷◌, String,
  arith,
}
use kaos_agents.Prelude.Equality.{◌==◌, string_key}
use kaos_agents.Prelude.Reply.{replies}
use kaos_agents.Intent.{IntentResult, chat}
use kaos_agents.Events.{stream_delta}
use kaos_agents.AgentLoop.Types.{
  Act, Asked, JudgeCall, RawDecision, TurnPlan, emits, ToolExecution, PlanResult, Planner,
  AgentLoop,
}
use kaos_agents.AgentLoop.Forward.{Names}
use kaos_agents.AgentLoop.Acts.{Collaborators}
use kaos_agents.AgentLoop.Work.{choose_planner, select_planner_for_intent}

abbrev pub sample_id : ℕ → String
sample_id zero = "turn"
sample_id (suc n) = "call"

abbrev pub sample_names : Names
sample_names = record {
  new_span_id = sample_id;
  short = λ id. id;
  decimal = λ n. "1";
  made_id = λ confidence statement. statement;
}

abbrev pub search_call : ToolExecution
search_call = record {
  tool_name = "search";
  call_id = "";
  arguments = "query" ∷ [];
  is_error = false;
  result_summary = "two pages";
  structured_content = [];
}

abbrev pub answer : PlanResult
answer = record {
  text = "done";
  output = "";
  printed = "";
  usage = some record { input_tokens = 3; output_tokens = 2; total_tokens = 5; cost_usd = 7 };
  tool_executions = search_call ∷ [];
}

abbrev pub sample_planner : Planner String
sample_planner = record {
  type_name = "ReActPlanner";
  plan = λ intent. ([], replies intent.statement);
  execute = λ made. (emits (stream_delta "TextDelta") ∷ [], replies answer);
}

abbrev pub sample_intent : Bool → IntentResult
sample_intent requires_clarification = record {
  statement = "find it";
  matter_client = none;
  ambiguities = [];
  requires_clarification = requires_clarification;
  pattern = chat;
  confidence = 40;
}

abbrev pub sample_plan : Bool → TurnPlan
sample_plan requires_clarification = record {
  session_id = "s";
  run_id = "r";
  turn_number = 1;
  trigger_kind = "user";
  emitter = record { session_id = "s"; run_id = "r"; agent_id = none; sequence = 0; drawn = 0 };
  intent = sample_intent requires_clarification;
  intent_usage = none;
}

abbrev pub sample_loop : AgentLoop String
sample_loop = record {
  planner = none;
  auto_select_planner = true;
  react_planner = sample_planner;
  plan_execute_planner = sample_planner;
  hierarchical_planner = sample_planner;
  termination_judge = none;
  escalation_policy = some record { channels = []; always = []; never = []; threshold = 50 };
  promotion_policy = none;
  agent_envelope_hash = "h";
  citations = λ text. [];
}

pub sample_ids : (n : ℕ) → 0 < n → ("turn" == sample_id n) ≡ false
sample_ids zero h = absurd (omega arith)
sample_ids (suc n) h = refl

-- The planner of the sample only emits a part of its text.
pub sample-Collaborators :
    (Q : Act → Type 0)
    → Q (emits (stream_delta "TextDelta"))
    → Collaborators Q sample_loop (sample_plan false)
unfolding choose_planner select_planner_for_intent
sample-Collaborators Q delta = record {
  plans = λ planner e.
      subst (λ (q : Planner String). All Q (q.plan (sample_intent false)).0) (only planner e) tt;
  executes = λ planner e made.
      subst (λ (q : Planner String). All Q (q.execute made).0) (only planner e) (delta, tt);
  judges = λ judge e c. absurd (no_judge judge e);
}
  where
    only :
        (planner : Planner String)
        → (choose_planner sample_loop (sample_intent false)).0 ≡ some planner
        → sample_planner ≡ planner
    only planner e = cc

    no_judge :
        (judge : JudgeCall → Asked (Option RawDecision))
        → sample_loop.termination_judge ≡ some judge
        → ⊥
    no_judge judge e = cc
