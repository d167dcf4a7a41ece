-- ===== src/Planning/Hierarchy/Examples.antt =====
-- planning/hierarchical_planner.py: a plan of two sub-agents, and agent loops as sub-agents.
use kaos_agents.Prelude.{
  ◌≡◌, refl, false, if◌then◌else◌, none, some, List, [], ◌∷◌, ◌++◌, String, map,
}
use kaos_agents.Prelude.Equality.{◌==◌, string_key}
use kaos_agents.Prelude.Reply.{replies, fails}
use kaos_agents.Events.{KaosEvent, Payload, stream_delta, citation_found, span_start, span_complete}
use kaos_agents.AgentLoop.Types.{queues}
use kaos_agents.AgentLoop.State.{act, perform}
use kaos_agents.AgentLoop.Usage.{emit_planner_usage, sum_usage_from_collector}
use kaos_agents.AgentLoop.Report.{
  report_result, emit_citations, emit_tool_call_spans, tool_call_span,
}
use kaos_agents.AgentLoop.Steps.{open_turn, close_turn}
use kaos_agents.AgentLoop.Work.{
  plan_and_execute, select_planner_for_intent, run_termination_judge, maybe_promote_findings,
}
use kaos_agents.AgentLoop.Sample.{sample_names, sample_loop, sample_plan, sample-Collaborators}
use kaos_agents.Planning.Delegation.{
  SubAgentSpec, HierarchicalPlan, SubInvocation, SubCall, HierarchicalPlanner, concat, value_only,
  decompose,
}
use kaos_agents.Planning.Hierarchy.{strategy_of, zipped, execute}
use kaos_agents.Planning.Hierarchy.Gathering.{
  acts_of_all, result_of, execute-gathers, execute-fails,
}
use kaos_agents.Planning.Hierarchy.Nested.{SubTurn, sub_call, all_events, execute-streams}

abbrev sub_spec : String → SubAgentSpec
sub_spec name = record {
  sub_agent_envelope_json = "{}";
  sub_goal = "find it";
  sub_agent_name = name;
}

abbrev two_agents : HierarchicalPlan
two_agents = record {
  parent_goal = "find it";
  sub_agents = sub_spec "first" ∷ sub_spec "" ∷ [];
  aggregation_strategy = none;
}

abbrev sample_planner : HierarchicalPlanner
sample_planner = record {
  decomposer_call = none;
  sub_agent_envelopes = none;
  stream_mode = value_only;
  max_depth = 2;
  aggregation = concat;
}

abbrev sub_event : Payload → KaosEvent
sub_event p = record { sequence = 0; session_id = "s"; run_id = "r"; agent_id = none; payload = p }

abbrev found : SubAgentSpec → SubInvocation
found spec = record {
  output = some spec.sub_goal;
  usage = some record { input_tokens = 1; output_tokens = 2; total_tokens = 3; cost_usd = 4 };
  tool_executions = [];
}

abbrev sample_call : SubAgentSpec → SubCall
sample_call spec = record {
  env_name = "";
  env_hash = "h";
  queued = [];
  collected = sub_event (stream_delta "TextDelta") ∷ sub_event (citation_found "claim") ∷ [];
  reply = replies (found spec);
}

abbrev failing_call : SubAgentSpec → SubCall
failing_call spec = record (sample_call spec) {
  reply = if spec.sub_agent_name == "" then fails "ValueError: no" else replies (found spec);
}

abbrev dumps : List (String × String) → String
dumps pairs = "{}"

-- Of two outputs under one name the second is kept.
zipped-same_name : zipped [] ("a" ∷ "a" ∷ []) ("x" ∷ "y" ∷ []) ≡ ("a", "y") ∷ []
unfolding zipped
zipped-same_name = refl

decompose-one :
    (decompose
      (λ n. "0")
      (λ goal. record { name = ""; as_json = goal })
      (sample_plan false).intent
      sample_planner).1
    ≡ replies record {
      parent_goal = "find it";
      sub_agents =
          record {
            sub_agent_envelope_json = "find it";
            sub_goal = "find it";
            sub_agent_name = "subagent_0";
          }
          ∷ [];
      aggregation_strategy = some concat;
    }
unfolding decompose
decompose-one = refl

execute-gathers_example : execute dumps 0 sample_call two_agents sample_planner ≡ (
  acts_of_all value_only sample_call two_agents.sub_agents,
  replies (
      result_of dumps sample_call found
        (strategy_of two_agents sample_planner)
        two_agents.sub_agents),
)
execute-gathers_example =
    execute-gathers dumps sample_call found 0 two_agents sample_planner refl (refl, (refl, tt))

execute-fails_example : execute dumps 0 failing_call two_agents sample_planner ≡ (
  acts_of_all value_only failing_call (sub_spec "first" ∷ []) ++ map queues [],
  fails "ValueError: no",
)
execute-fails_example =
    execute-fails dumps failing_call found 0 two_agents sample_planner refl (sub_spec "first" ∷ [])
      (sub_spec "") [] refl (refl, tt) "ValueError: no" refl

abbrev sample_turn : SubAgentSpec → SubTurn String
sample_turn spec = record {
  env_name = "research_subagent";
  env_hash = "h";
  loop = sample_loop;
  plan = sample_plan false;
  id = "turn-1";
  knowledge_base = none;
}

abbrev turn_found : SubAgentSpec → SubInvocation
turn_found spec = record {
  output = some "done";
  usage = some record { input_tokens = 3; output_tokens = 2; total_tokens = 5; cost_usd = 7 };
  tool_executions = [];
}

sub_turn-replies :
    (spec : SubAgentSpec)
    → (sub_call sample_names sample_turn spec).reply ≡ replies (turn_found spec)
unfolding sub_call plan_and_execute select_planner_for_intent run_termination_judge
    maybe_promote_findings open_turn close_turn perform act report_result emit_citations
    emit_tool_call_spans tool_call_span span_start span_complete emit_planner_usage
    sum_usage_from_collector
sub_turn-replies spec = refl

execute-streams_example :
    (execute dumps 0 (sub_call sample_names sample_turn) two_agents sample_planner).0
    ≡ all_events sample_names sample_turn two_agents.sub_agents
execute-streams_example =
    execute-streams sample_names sample_turn dumps turn_found 0 two_agents sample_planner refl
      (sample-Collaborators _ tt, (sample-Collaborators _ tt, tt))
      (sub_turn-replies (sub_spec "first"), (sub_turn-replies (sub_spec ""), tt))
