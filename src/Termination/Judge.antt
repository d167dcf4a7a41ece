-- ===== src/Termination/Judge.antt =====
-- termination/judge.py, degrade.py and types.py: the decision after each iteration of a run. Costs and
-- times are natural numbers in a smallest unit, and so is the quality, on some scale; the quality's
-- score is asked of a language model and is a parameter. The feedback, which words the decision, is
-- left out.
pub mod Decisions
mod Examples
use kaos_agents.Prelude.{
  ℕ, ◌-◌, leb, ltb, Bool, true, false, not, ◌&&◌, ◌||◌, Option, none, some, List, [], ◌∷◌, String,
  drop, length, reverse, if◌then◌else◌,
}
use Prim.Native.String.{count}
use kaos_agents.Prelude.Equality.{◌==◌, string_key}
use kaos_agents.Termination.Loop.{LoopDetector, observe}

pub data DecisionKind : Type 0 where
  complete incomplete budget_exceeded quality_failed failure loop_detected degraded : DecisionKind
  escalate : DecisionKind

pub record Decision : Type 0 where
  pub kind : DecisionKind
  pub is_complete : Bool
  pub allows_replan : Bool
  pub should_escalate : Bool
  pub partial_result : Option String

pub record DegradationPolicy : Type 0 where
  pub min_partial_chars : ℕ
  pub accept_on_budget_exhaustion : Bool
  pub accept_on_quality_failure : Bool

-- Whether the partial text is accepted.
unfoldable pub evaluate : DecisionKind → String → DegradationPolicy → Bool
evaluate kind partial_text p =
    if partial_text == "" || ltb (count partial_text) p.min_partial_chars
    then false
    else elim kind [
      | budget_exceeded ↦ p.accept_on_budget_exhaustion
      | quality_failed ↦ p.accept_on_quality_failure
      | _ ↦ false
    ]

-- The events that the judge tells apart.
pub data Event : Type 0 where
  run_error evidence_insufficient grounding_refusal_triggered other_event : Event

pub record TerminationJudge : Type 0 where
  pub max_cost : Option ℕ
  pub max_iter : ℕ
  pub max_wall : Option ℕ
  pub judge : Option (String → ℕ)
  pub min_quality : ℕ
  pub loop_detector : LoopDetector
  pub degrade : DegradationPolicy

-- What `forward` is called with.
pub record Iteration : Type 0 where
  pub cost_usd : ℕ
  pub iteration : ℕ
  pub wall_seconds : ℕ
  pub partial_text : String
  pub events : List Event
  pub step_signature : Option String

unfoldable pub maybe_degrade : DecisionKind → String → DegradationPolicy → Decision
unfolding evaluate
maybe_degrade kind partial p =
    if evaluate kind partial p
    then record {
      kind = degraded;
      is_complete = true;
      allows_replan = false;
      should_escalate = false;
      partial_result = some partial;
    }
    else record {
      kind = kind;
      is_complete = true;
      allows_replan = false;
      should_escalate = true;
      partial_result = none;
    }

-- A cap that is set and reached.
unfoldable pub reached : Option ℕ → ℕ → Bool
reached none used = false
reached (some cap) used = leb cap used

unfoldable pub over_budget : TerminationJudge → Iteration → Bool
over_budget j i =
    reached j.max_cost i.cost_usd || leb j.max_iter i.iteration || reached j.max_wall i.wall_seconds

abbrev pub decision_of : DecisionKind → Bool → Decision
decision_of kind should_escalate = record {
  kind = kind;
  is_complete = true;
  allows_replan = false;
  should_escalate = should_escalate;
  partial_result = none;
}

-- The loop over the last events, the newest first.
unfoldable pub failure_in : List Event → Option Decision
failure_in [] = none
failure_in (run_error ∷ events) = some (decision_of failure false)
failure_in (evidence_insufficient ∷ events) = some (decision_of failure true)
failure_in (grounding_refusal_triggered ∷ events) = some (decision_of failure true)
failure_in (other_event ∷ events) = failure_in events

abbrev pub newest : ℕ → List Event → List Event
newest n events = reverse (drop (length events - n) events)

-- The signature of a step is observed, if there is one.
unfoldable pub watch : Option String → LoopDetector → LoopDetector × Bool
watch none d = (d, false)
watch (some s) d = let (d', pair) = observe s d in (d', elim pair [ none ↦ false | some _ ↦ true ])

unfoldable pub poor : TerminationJudge → String → Bool
poor j partial_text = elim j.judge [
  | none ↦ false
  | some score ↦ not (partial_text == "") && ltb (score partial_text) j.min_quality
]

-- The checks after the one for loops.
unfoldable pub conclude : TerminationJudge → String → Decision
conclude j partial_text =
    if poor j partial_text
    then maybe_degrade quality_failed partial_text j.degrade
    else if not (partial_text == "")
    then decision_of complete false
    else record {
      kind = incomplete;
      is_complete = false;
      allows_replan = true;
      should_escalate = false;
      partial_result = none;
    }

unfoldable pub forward : Iteration → TerminationJudge → TerminationJudge × Decision
forward i j =
    let (detector, looping) = watch i.step_signature j.loop_detector in
    let watched = record j { loop_detector = detector } in
    if over_budget j i
    then (j, maybe_degrade budget_exceeded i.partial_text j.degrade)
    else elim (failure_in (newest 20 i.events)) [
      | some decision ↦ (j, decision)
      | none ↦
          if looping
          then (watched, decision_of loop_detected true)
          else (watched, conclude j i.partial_text)
    ]
