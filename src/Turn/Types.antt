-- ===== src/Turn/Types.antt =====
-- patterns/agentic_loop.py: what the loop of a turn keeps, what it emits and what it asks.
use kaos_agents.Prelude.{ℕ, Bool, Option, List, String}
use kaos_agents.Prelude.Reply.{Reply}
use kaos_agents.Planning.GoalCheck.{GoalCheckResult}
use kaos_agents.Session.Policy.{Groups}
use kaos_agents.Turn.Critics.{Critic}

-- What `_tool_call_complete_attrs` reads in the attributes of a span, its defaults filled in.
pub record Attributes : Type 0 where
  pub tool_name : String
  pub is_error : Bool
  pub result_summary : String

-- An event of the worker. A dictionary has an envelope whose data is a text, or a frame with its
-- type, subject, phase and attributes.
pub data Item : Type 0 where
  span : (is_tool_call is_complete : Bool) (attributes : Option Attributes) → Item
  unreadable : Item
  envelope : Item → Item
  frame : (type_name subject phase : Option String) (attributes : Option Attributes) → Item
  other : Item

pub record ToolCall : Type 0 where
  pub name : String
  pub is_error : Bool
  pub summary_excerpt : String

-- The latency is left out.
pub record WorkerResult : Type 0 where
  pub text : String
  pub tool_calls_made : List ToolCall
  pub cost : ℕ
  pub events : List Item

-- What a streaming worker yields.
pub data Streamed : Type 0 where
  event : Item → Streamed
  result : WorkerResult → Streamed

-- A worker returns its result, or streams until it ends or raises.
pub data WorkerCall : Type 0 where
  buffered : Reply WorkerResult → WorkerCall
  streams : List Streamed → Reply (Unit {0}) → WorkerCall

pub record Verification : Type 0 where
  pub raw_cite : String
  pub status : String
  pub diagnostic : String

pub data Reason : Type 0 where
  satisfied insufficient_evidence : Reason
  max_iterations stuck_no_progress : Reason
  cost_exceeded wall_clock_exceeded : Reason
  circuit_breaker_tripped tool_call_cap_exceeded : Reason
  user_interrupt : Reason

-- The parts of the note that the next worker call is given; their wording is left out.
pub data Note : Type 0 where
  incomplete : (iteration : ℕ) (rationale next_action : String) → Note
  rationale : String → Note
  next_action : String → Note
  directive : Critic → (label : String) → Note
  flagged : Critic → (label : String) → Note
  failed_citations : List (String × String) → Note
  remediation_hints : (iteration : ℕ) → List String → Note
  prior_calls : List ToolCall → Note

-- The text that ends a turn without a satisfied check.
pub data Answer : Type 0 where
  draft : String → Answer
  draft_with_footer : String → Reason → (iterations : ℕ) → Answer
  refusal : Reason → (iterations : ℕ) (critic_rationale critic_next_action : List Note) → Answer

pub data Intent : Type 0 where
  respond respond_with_caveat refuse : Intent

-- The events of the loop itself.
pub data Event : Type 0 where
  tool_policy_elevated : Groups → Event
  capability_requested : Groups → Event
  citation_verified : Verification → Event
  breaker_tripped : (tool_name : String) (consecutive_failures : ℕ) → Event
  goal_checked : GoalCheckResult → (iteration : ℕ) → Event
  consistency_checked : Critic → (overrode_satisfied : Bool) → Event
  text_delta : Answer → Event
  turn_summary : Answer → Intent → (cost : ℕ) → Event
  loop_terminated : Reason → (iterations_used elevations_used cost : ℕ) → Event

-- What the loop does that others see: an event with its sequence number, an event of the worker that
-- is passed on, or a call of the worker.
pub data Act : Type 0 where
  emits : (sequence : ℕ) → Event → Act
  forwards : Item → Act
  calls_worker : (iteration : ℕ) → Groups → List Note → Act

pub data Verdict : Type 0 where
  no_verdict needs_more_work override : Verdict

-- `_LoopState`, with what was done so far, the newest first. The clock is not a field.
pub record LoopState : Type 0 where
  pub iteration : ℕ
  pub cumulative_cost : ℕ
  pub elevation_count : ℕ
  pub last_text : String
  pub last_tool_call_count : ℕ
  pub thinking_note : List Note
  pub current_iter_text : String
  pub last_tool_calls_made : List ToolCall
  pub last_critic_rationale : List Note
  pub last_critic_next_action : List Note
  pub last_terminal_verdict : Verdict
  pub sequence : ℕ
  pub consecutive_tool_failures : List (String × ℕ)
  pub tripped_tool : String
  pub tripped_failures : ℕ
  pub acts : List Act
