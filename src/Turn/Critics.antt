-- ===== src/Turn/Critics.antt =====
-- planning/judge.py, planning/m2_consistency.py to m5_history.py, and the grounding critics of
-- patterns/agentic_loop.py. The judge's reply is an argument; the wording of a directive is left out.
use kaos_agents.Prelude.{
  ℕ, Bool, true, false, not, ◌||◌, List, [], ◌∷◌, String, if◌then◌else◌, ltb, min,
}
use kaos_agents.Prelude.Equality.{◌==◌, string_key, contains}
use kaos_agents.Prelude.Reply.{Reply, replies, fails, cancelled}

-- What the model returns, its label in lower case and without white space around it.
pub record Judgement : Type 0 where
  pub label : String
  pub confidence : ℕ
  pub cost : ℕ

-- The reasoning and the latency are left out.
pub record JudgeVerdict : Type 0 where
  pub label : String
  pub confidence : ℕ
  pub cost : ℕ
  pub fell_back : Bool

unfoldable pub judge_with_rubric : List String → Reply Judgement → Reply JudgeVerdict
judge_with_rubric allowed_labels (replies j) = replies record {
  label = j.label;
  confidence = min 100 j.confidence;
  cost = j.cost;
  fell_back = j.label == "" || not (contains allowed_labels j.label);
}
judge_with_rubric allowed_labels (fails message) =
    replies record { label = ""; confidence = 0; cost = 0; fell_back = true }
judge_with_rubric allowed_labels cancelled = cancelled

pub data Critic : Type 0 where
  m2 m3 m4 m5 : Critic

abbrev pub allowed_labels : Critic → List String
allowed_labels m2 = "consistent" ∷ "contradicts_reasoning" ∷ "contradicts_tool_results" ∷ []
allowed_labels m3 = "grounded" ∷ "fabricated_with_admission" ∷ "fabricated_without_admission" ∷ []
allowed_labels m4 = "complete" ∷ "partial" ∷ "exhausted" ∷ "not_quantified" ∷ []
allowed_labels m5 = "grounded" ∷ "fabricated_history" ∷ []

-- The labels for which the critic has a directive.
abbrev pub directives : Critic → List String
directives m2 = "contradicts_reasoning" ∷ "contradicts_tool_results" ∷ []
directives m3 = "fabricated_with_admission" ∷ "fabricated_without_admission" ∷ []
directives m4 = "partial" ∷ []
directives m5 = "fabricated_history" ∷ []

abbrev pub confidence_floor : Critic → ℕ
confidence_floor m2 = 85
confidence_floor m3 = 0
confidence_floor m4 = 85
confidence_floor m5 = 0

-- Whether the critic has a directive for the verdict, which is then not the empty text.
unfoldable pub critic_overrides : Critic → JudgeVerdict → Bool
critic_overrides spec verdict =
    if verdict.fell_back || ltb verdict.confidence (confidence_floor spec)
    then false
    else contains (directives spec) verdict.label
