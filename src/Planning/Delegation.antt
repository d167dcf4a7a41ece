-- ===== src/Planning/Delegation.antt =====
-- planning/hierarchical_planner.py: the plan of sub-agents, how it is made, and which events of a
-- sub-agent are forwarded. The JSON of an envelope is a parameter. What a sub-agent does is a call: the
-- events that go to the queue of the turn past its collector, those that the scope opened around it
-- collects, and its reply.
use kaos_agents.Prelude.{ℕ, ◌+◌, Bool, true, false, Option, none, some, List, [], ◌∷◌, String}
use Prim.Native.String.{◌++◌ as append}
use kaos_agents.Prelude.Equality.{string_key}
use kaos_agents.Prelude.Reply.{Reply, replies}
use kaos_agents.Intent.{IntentResult}
use kaos_agents.Events.{
  InvocationUsage, KaosEvent, Payload, span, subagent, complete, SpanSubject, SpanPhase,
  intent_classified, usage_observed, turn_summary, citation_found, value_event,
  evidence_insufficient, grounding_refusal_triggered,
}
use kaos_agents.AgentLoop.Types.{Asked, ToolExecution}
use kaos_agents.AgentLoop.Usage.{or_else}

pub data StreamMode : Type 0 where
  value_only full summary_only : StreamMode

pub data Aggregation : Type 0 where
  concat first json : Aggregation

-- The envelope is given by its JSON.
pub record SubAgentSpec : Type 0 where
  pub sub_agent_envelope_json : String
  pub sub_goal : String
  pub sub_agent_name : String

-- A strategy that is none of the three is `none`.
pub record HierarchicalPlan : Type 0 where
  pub parent_goal : String
  pub sub_agents : List SubAgentSpec
  pub aggregation_strategy : Option Aggregation

-- What is read in the invocation of a sub-agent.
pub record SubInvocation : Type 0 where
  pub output : Option String
  pub usage : Option InvocationUsage
  pub tool_executions : List ToolExecution

pub record SubCall : Type 0 where
  pub env_name : String
  pub env_hash : String
  pub queued : List KaosEvent
  pub collected : List KaosEvent
  pub reply : Reply SubInvocation

-- An agent's envelope: its name, empty where there is none, and its JSON.
pub record AgentEnvelope : Type 0 where
  pub name : String
  pub as_json : String

pub record HierarchicalPlanner : Type 0 where
  pub decomposer_call : Option (IntentResult → Asked HierarchicalPlan)
  pub sub_agent_envelopes : Option (List AgentEnvelope)
  pub stream_mode : StreamMode
  pub max_depth : ℕ
  pub aggregation : Aggregation

-- `decimal` is the number's text, and `research_agent` the envelope for a sub-goal.
module _ (decimal : ℕ → String) (research_agent : String → AgentEnvelope) where
  abbrev pub spec_for : String → String → AgentEnvelope → SubAgentSpec
  spec_for goal default env = record {
    sub_agent_envelope_json = env.as_json;
    sub_goal = goal;
    sub_agent_name = or_else env.name default;
  }

  abbrev pub specs_for : String → ℕ → List AgentEnvelope → List SubAgentSpec
  specs_for goal i [] = []
  specs_for goal i (env ∷ envs) =
      spec_for goal (append "subagent_" (decimal i)) env ∷ specs_for goal (i + 1) envs

  abbrev pub plan_of : HierarchicalPlanner → String → List SubAgentSpec → HierarchicalPlan
  plan_of h goal specs = record {
    parent_goal = goal;
    sub_agents = specs;
    aggregation_strategy = some h.aggregation;
  }

  -- `plan`.
  unfoldable pub decompose : IntentResult → HierarchicalPlanner → Asked HierarchicalPlan
  decompose intent h =
      let goal = intent.statement in
      elim h.decomposer_call [
        | some decomposer ↦ decomposer intent
        | none ↦ elim h.sub_agent_envelopes [
          | some envs ↦ ([], replies (plan_of h goal (specs_for goal 0 envs)))
          | none ↦
              ([], replies (plan_of h goal (spec_for goal "subagent_0" (research_agent goal) ∷ [])))
        ]
      ]

-- `isinstance(event, _VALUE_EVENT_TYPES)`.
abbrev pub is_value_event : Payload → Bool
is_value_event (span s) = true
is_value_event (intent_classified intent confidence) = true
is_value_event (usage_observed usage source) = true
is_value_event (turn_summary text intent usage) = true
is_value_event (citation_found claim) = true
is_value_event (value_event type_name) = true
is_value_event evidence_insufficient = true
is_value_event grounding_refusal_triggered = true
is_value_event _ = false

abbrev pub is_subagent_end : SpanSubject → SpanPhase → Bool
is_subagent_end subagent complete = true
is_subagent_end _ _ = false

abbrev pub is_summary : Payload → Bool
is_summary (turn_summary text intent usage) = true
is_summary (span s) = is_subagent_end s.subject s.phase
is_summary _ = false

-- `_should_forward`.
unfoldable pub should_forward : StreamMode → KaosEvent → Bool
should_forward full e = true
should_forward summary_only e = is_summary e.payload
should_forward value_only e = is_value_event e.payload
