-- ===== src/Escalation/People.antt =====
-- escalation/policy.py and escalation/kinds.py: when a person is asked. Confidences are in hundredths;
-- the details of a decision are left out.
use kaos_agents.Prelude.{
  ℕ, ◌≡◌, Bool, true, false, not, ◌&&◌, Option, none, some, List, [], ◌∷◌, String, ltb,
  if◌then◌else◌, arith,
}
use Prim.Native.String.{◌++◌ as append}
use kaos_agents.Prelude.Equality.{Key, test, test_iff, string_key, contains}
use kaos_agents.Prelude.Dict.{lookup}

pub data EscalationKind : Type 0 where
  clarification_needed approval_required outside_competence : EscalationKind
  budget_exceeded evidence_insufficient loop_detected domain_specific : EscalationKind

unfoldable pub EscalationKind-discrete : Discrete EscalationKind
EscalationKind-discrete = hlevel

instance abbrev pub escalation_kind_key : Key EscalationKind
escalation_kind_key = record {
  equal = test EscalationKind-discrete;
  equal_iff = test_iff EscalationKind-discrete;
}

pub record EscalationDecision : Type 0 where
  pub escalate : Bool
  pub kind : Option EscalationKind
  pub reason : String

-- `always` is kept by the constructor and read by no method.
pub record EscalationPolicy : Type 0 where
  pub channels : List String
  pub always : List EscalationKind
  pub never : List EscalationKind
  pub threshold : ℕ

-- What the policy reads in an intent, its defaults filled in: the preferred clarification is that of
-- the first ambiguity, if it has one.
pub record UserIntent : Type 0 where
  pub requires_clarification : Bool
  pub confidence : ℕ
  pub preferred_clarification : Option String

-- What it reads in a decision of the termination judge.
pub record Ruling : Type 0 where
  pub should_escalate : Bool
  pub kind : String
  pub feedback : String

-- `kind.value`.
abbrev pub kind_value : EscalationKind → String
kind_value clarification_needed = "clarification_needed"
kind_value approval_required = "approval_required"
kind_value outside_competence = "outside_competence"
kind_value budget_exceeded = "budget_exceeded"
kind_value evidence_insufficient = "evidence_insufficient"
kind_value loop_detected = "loop_detected"
kind_value domain_specific = "domain_specific"

abbrev pub calm : EscalationDecision
calm = record { escalate = false; kind = none; reason = "" }

abbrev pub asked : Option String → String
asked none = "intent ambiguous; clarification required"
asked (some clarification) = clarification

unfoldable pub evaluate_intent : UserIntent → EscalationPolicy → EscalationDecision
evaluate_intent intent p =
    if intent.requires_clarification && ltb intent.confidence p.threshold
    then record {
      escalate = true;
      kind = some clarification_needed;
      reason = asked intent.preferred_clarification;
    }
    else calm

abbrev pub decision_kinds : List (String × EscalationKind)
decision_kinds =
    ("budget_exceeded", budget_exceeded)
    ∷ ("loop_detected", loop_detected)
    ∷ ("failure", evidence_insufficient)
    ∷ ("quality_failed", outside_competence)
    ∷ []

unfoldable pub kind_from_decision : String → EscalationKind
kind_from_decision decision_kind = elim (lookup decision_kind decision_kinds) [
  | none ↦ domain_specific
  | some kind ↦ kind
]

unfoldable pub force : EscalationKind → String → EscalationPolicy → EscalationDecision
force kind reason p =
    if contains p.never kind
    then record { escalate = false; kind = none; reason = append "suppressed: " (kind_value kind) }
    else record { escalate = true; kind = some kind; reason = reason }

unfoldable pub evaluate_decision : Ruling → EscalationPolicy → EscalationDecision
evaluate_decision ruling p =
    if ruling.should_escalate
    then force (kind_from_decision ruling.kind) ruling.feedback p
    else calm

-- A decision is escalated exactly if the judge asks for it and its kind is not suppressed; the kinds
-- that should always be escalated make no difference.
pub evaluate_decision_lem :
    (ruling : Ruling) (p : EscalationPolicy) (always : List EscalationKind)
    → (evaluate_decision ruling (record p { always = always })).escalate
      ≡ (ruling.should_escalate && not (contains p.never (kind_from_decision ruling.kind)))
unfolding evaluate_decision force
evaluate_decision_lem ruling p always = ground arith
