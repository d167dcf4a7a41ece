-- ===== src/Events.antt =====
-- events/emitter.py, events/collector.py, events/spans.py and types/usage.py: the events of a turn.
-- Times and durations are left out, and a cost is a natural number in a smallest unit. The ids of
-- spans are drawn from uuid4, a parameter.
pub mod Stack
pub mod Log
use kaos_agents.Prelude.{
  ℕ, ◌+◌, Bool, Option, none, some, List, [], ◌∷◌, ◌++◌, String, if◌then◌else◌,
}
use kaos_agents.Prelude.Equality.{◌==◌, string_key, contains}

pub record InvocationUsage : Type 0 where
  pub input_tokens : ℕ
  pub output_tokens : ℕ
  pub total_tokens : ℕ
  pub cost_usd : ℕ

abbrev pub zero_usage : InvocationUsage
zero_usage = record { input_tokens = 0; output_tokens = 0; total_tokens = 0; cost_usd = 0 }

-- `InvocationUsage.__add__`.
unfoldable pub add_usage : InvocationUsage → InvocationUsage → InvocationUsage
add_usage u v = record {
  input_tokens = u.input_tokens + v.input_tokens;
  output_tokens = u.output_tokens + v.output_tokens;
  total_tokens = u.total_tokens + v.total_tokens;
  cost_usd = u.cost_usd + v.cost_usd;
}

pub data SpanSubject : Type 0 where
  run turn step tool_call subagent handoff llm_call judge route : SpanSubject

pub data SpanPhase : Type 0 where
  start progress complete error cancelled : SpanPhase

-- The values of a span's attributes.
pub data Value : Type 0 where
  string : String → Value
  number : ℕ → Value
  flag : Bool → Value
  tuple : List String → Value
  dict : List (String × String) → Value

-- The type and the message of an error go together.
pub record Span : Type 0 where
  pub subject : SpanSubject
  pub phase : SpanPhase
  pub span_id : String
  pub parent_span_id : Option String
  pub name : String
  pub error : Option (String × String)
  pub attributes : List (String × Value)

-- What sets an event apart from others of its emitter. `value_event` and `stream_delta` are events of
-- the types that a hierarchical planner tells apart and that the turn itself does not emit.
pub data Payload : Type 0 where
  span : Span → Payload
  intent_classified : (intent : String) → (confidence : ℕ) → Payload
  usage_observed : InvocationUsage → (source : String) → Payload
  escalation_required : (kind reason resume_token escalation_id : String) → Payload
  turn_summary : (text intent : String) → InvocationUsage → Payload
  citation_found : String → Payload
  value_event : (type_name : String) → Payload
  stream_delta : (type_name : String) → Payload
  run_error : Payload
  evidence_insufficient : Payload
  grounding_refusal_triggered : Payload
  other : (type_name : String) → Payload

pub record KaosEvent : Type 0 where
  pub sequence : ℕ
  pub session_id : String
  pub run_id : String
  pub agent_id : Option String
  pub payload : Payload

-- `drawn` counts the ids that were drawn.
pub record EventEmitter : Type 0 where
  pub session_id : String
  pub run_id : String
  pub agent_id : Option String
  pub sequence : ℕ
  pub drawn : ℕ

-- `_QueueEventCollector` has a queue besides, which holds what was put and not what is left.
pub record EventCollector : Type 0 where
  pub events : List KaosEvent
  pub span_stack : List String
  pub queue : Option (List KaosEvent)

-- `del stack[stack.index(span_id):]`.
unfoldable pub del_from : String → List String → List String
del_from span_id [] = []
del_from span_id (x ∷ stack) = if x == span_id then [] else x ∷ del_from span_id stack

unfoldable pub stack_after : Span → List String → List String
stack_after s stack = elim s.phase [
  | start ↦ stack ++ s.span_id ∷ []
  | progress ↦ stack
  | complete ↦ if contains stack s.span_id then del_from s.span_id stack else stack
  | error ↦ if contains stack s.span_id then del_from s.span_id stack else stack
  | cancelled ↦ stack
]

abbrev pub stack_with : Payload → List String → List String
stack_with (span s) stack = stack_after s stack
stack_with _ stack = stack

abbrev pub put : KaosEvent → Option (List KaosEvent) → Option (List KaosEvent)
put e none = none
put e (some queued) = some (queued ++ e ∷ [])

-- `EventCollector.append`, and `_QueueEventCollector.append` where there is a queue.
unfoldable pub collect : KaosEvent → EventCollector → EventCollector
collect e c = record {
  events = c.events ++ e ∷ [];
  span_stack = stack_with e.payload c.span_stack;
  queue = put e c.queue;
}

-- `stack[-1] if stack else None`.
unfoldable pub last : List String → Option String
last [] = none
last (x ∷ stack) = elim stack [ [] ↦ some x | y ∷ rest ↦ last stack ]

abbrev pub current_parent_span_id : EventCollector → Option String
current_parent_span_id c = last c.span_stack

-- The emitter and the collector of the turn that runs.
pub record Scope : Type 0 where
  pub emitter : EventEmitter
  pub collector : EventCollector

unfoldable pub event_of : EventEmitter → Payload → KaosEvent
event_of m p = record {
  sequence = m.sequence;
  session_id = m.session_id;
  run_id = m.run_id;
  agent_id = m.agent_id;
  payload = p;
}

-- `EventEmitter.emit` and `push_event`.
unfoldable pub emit_event : Payload → Scope → Scope
unfolding event_of collect
emit_event p s = record {
  emitter = record s.emitter { sequence = s.emitter.sequence + 1 };
  collector = collect (event_of s.emitter p) s.collector;
}

module _ (new_span_id : ℕ → String) where
  abbrev pub next_span_id : Scope → String
  next_span_id s = new_span_id s.emitter.drawn

  -- Without a span id the next one is drawn.
  unfoldable pub span_start : SpanSubject → String → List (String × Value) → Scope → Scope
  unfolding emit_event
  span_start subject name attributes s =
      emit_event
        (span (record {
          subject = subject;
          phase = start;
          span_id = next_span_id s;
          parent_span_id = current_parent_span_id s.collector;
          name = name;
          error = none;
          attributes = attributes;
        }))
        (record s { emitter = record s.emitter { drawn = s.emitter.drawn + 1 } })

unfoldable pub span_complete :
    SpanSubject → (span_id name : String) → List (String × Value) → Scope → Scope
unfolding emit_event
span_complete subject span_id name attributes = emit_event (
    span (record {
      subject = subject;
      phase = complete;
      span_id = span_id;
      parent_span_id = none;
      name = name;
      error = none;
      attributes = attributes;
    }))

unfoldable pub span_error :
    SpanSubject → (span_id error_type error_message : String) → Scope → Scope
unfolding emit_event
span_error subject span_id error_type error_message = emit_event (
    span (record {
      subject = subject;
      phase = error;
      span_id = span_id;
      parent_span_id = none;
      name = "";
      error = some (error_type, error_message);
      attributes = [];
    }))
