-- ===== src/Planning/GoalCheck.antt =====
-- planning/goal_check.py: the verdict on an answer. The language model's reply is an argument, and a
-- line of the answer is given as the regular expressions read it.
use Prim.Native.String.{◌++◌ as append}
use kaos_agents.Prelude.{
  ℕ, ◌+◌, Bool, true, false, Option, none, some, List, [], ◌∷◌, String, if◌then◌else◌, leb,
}
use kaos_agents.Prelude.Reply.{Reply, replies, fails, cancelled}

-- Confidences are in hundredths.
pub data GoalCheckResult : Type 0 where
  satisfied : (confidence : ℕ) (rationale : String) → GoalCheckResult
  needs_more_work : (next_action : String) (confidence : ℕ) (rationale : String) → GoalCheckResult
  insufficient_evidence : (missing rationale : String) → GoalCheckResult

-- The latency and the iteration, which is the caller's, are left out.
pub record GoalCheckOutcome : Type 0 where
  pub result : GoalCheckResult
  pub cost : ℕ

abbrev pub is_satisfied : GoalCheckResult → Bool
is_satisfied (satisfied confidence rationale) = true
is_satisfied _ = false

abbrev pub is_insufficient : GoalCheckResult → Bool
is_insufficient (insufficient_evidence missing rationale) = true
is_insufficient _ = false

-- A line as `_HEADING_LINE_RE` and `_DELIVERABLE_HEADING_RE` see it: a heading with its text, which
-- names a deliverable or not, or else the length of the line without the white space around it.
pub data Line : Type 0 where
  heading : (title : String) (is_deliverable : Bool) → Line
  body : (stripped_length : ℕ) → Line

unfoldable pub body_chars : List Line → ℕ
body_chars [] = 0
body_chars (heading title is_deliverable ∷ lines) = body_chars lines
body_chars (body n ∷ lines) = n + body_chars lines

abbrev pub header_hint : String → String
header_hint title = append "You wrote the heading '" (
    append title
      "' but did not emit the body the heading promised. Re-run the turn and produce the rows / bullets / paragraph that belong under that heading. Do not stop on a header alone.")

abbrev pub hint_for : String → Bool → ℕ → Option String
hint_for title true n = if leb 80 n then none else some (header_hint title)
hint_for title false n = none

-- Whether a heading stands among the lines.
unfoldable pub has_heading : List Line → Bool
has_heading [] = false
has_heading (heading title is_deliverable ∷ lines) = true
has_heading (body n ∷ lines) = has_heading lines

-- The last heading decides: it stops short if it names a deliverable and less than 80 characters
-- follow. An answer without a heading, the empty one too, has no hint.
unfoldable pub detect_header_then_stop : List Line → Option String
detect_header_then_stop [] = none
detect_header_then_stop (body n ∷ lines) = detect_header_then_stop lines
detect_header_then_stop (heading title is_deliverable ∷ lines) =
    let later = detect_header_then_stop lines in
    if has_heading lines then later else hint_for title is_deliverable (body_chars lines)

unfoldable pub ask_critic : Reply GoalCheckOutcome → Reply GoalCheckOutcome
ask_critic (replies outcome) = replies outcome
ask_critic (fails message) = replies record {
  result =
      needs_more_work "(GoalChecker failed — review the answer manually)" 0
        (append "Critic call failed: " message);
  cost = 0;
}
ask_critic cancelled = cancelled

unfoldable pub check_goal : List Line → Reply GoalCheckOutcome → Reply GoalCheckOutcome
check_goal agent_response critic = elim (detect_header_then_stop agent_response) [
  | some hint ↦ replies record {
    result =
        needs_more_work hint 100
          "Deliverable heading was emitted without the body the heading names. Re-run to produce the body.";
    cost = 0;
  }
  | none ↦ ask_critic critic
]
