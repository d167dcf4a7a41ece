-- ===== src/Intent.antt =====
-- intent/types.py and intent/clarify.py: what a turn reads in an intent, and the question that a
-- clarification asks. Stripping a text is a parameter.
pub mod Clarify
mod Examples
use kaos_agents.Prelude.{
  ℕ, Bool, true, false, not, Option, none, some, List, [], ◌∷◌, String, if◌then◌else◌,
}
use Prim.Native.String.{◌++◌ as append}
use kaos_agents.Prelude.Equality.{Key, test, test_iff, ◌==◌, string_key}
use kaos_agents.Escalation.People.{UserIntent}

pub data AmbiguityKind : Type 0 where
  unknown_reference ambiguous_pronoun conflicting_requirements : AmbiguityKind
  missing_context out_of_domain : AmbiguityKind

unfoldable pub AmbiguityKind-discrete : Discrete AmbiguityKind
AmbiguityKind-discrete = hlevel

instance abbrev pub ambiguity_kind_key : Key AmbiguityKind
ambiguity_kind_key = record {
  equal = test AmbiguityKind-discrete;
  equal_iff = test_iff AmbiguityKind-discrete;
}

pub record Ambiguity : Type 0 where
  pub kind : AmbiguityKind
  pub excerpt : String
  pub preferred_clarification : String

pub data AgentPattern : Type 0 where
  chat plan research : AgentPattern

-- `pattern.value`.
abbrev pub pattern_value : AgentPattern → String
pattern_value chat = "chat"
pattern_value plan = "plan"
pattern_value research = "research"

-- `statement` and `matter_client` are the goal's.
pub record IntentResult : Type 0 where
  pub statement : String
  pub matter_client : Option (String × String)
  pub ambiguities : List Ambiguity
  pub requires_clarification : Bool
  pub pattern : AgentPattern
  pub confidence : ℕ

unfoldable pub first_clarification : List Ambiguity → Option String
first_clarification [] = none
first_clarification (a ∷ rest) =
    if a.preferred_clarification == "" then none else some a.preferred_clarification

-- What an escalation policy reads in it.
unfoldable pub as_user_intent : IntentResult → UserIntent
unfolding first_clarification
as_user_intent intent = record {
  requires_clarification = intent.requires_clarification;
  confidence = intent.confidence;
  preferred_clarification = first_clarification intent.ambiguities;
}

abbrev pub is_blocking : AmbiguityKind → Bool
is_blocking missing_context = true
is_blocking out_of_domain = true
is_blocking _ = false

unfoldable pub has_blocking_ambiguity : List Ambiguity → Bool
has_blocking_ambiguity [] = false
has_blocking_ambiguity (a ∷ rest) =
    let later = has_blocking_ambiguity rest in if is_blocking a.kind then true else later

-- `by_kind.get(kind)`: the first ambiguity of a kind.
unfoldable pub first_of : AmbiguityKind → List Ambiguity → Option Ambiguity
first_of kind [] = none
first_of kind (a ∷ rest) = if a.kind == kind then some a else first_of kind rest

abbrev pub head? : List Ambiguity → Option Ambiguity
head? [] = none
head? (a ∷ rest) = some a

unfoldable pub select_ambiguity : List Ambiguity → Option Ambiguity
unfolding first_of
select_ambiguity ambiguities = elim (first_of missing_context ambiguities) [
  | some a ↦ some a
  | none ↦ elim (first_of out_of_domain ambiguities) [ some a ↦ some a | none ↦ head? ambiguities ]
]

-- The questions of `_compose_question` by the kind, with an excerpt and without one.
abbrev pub about : AmbiguityKind → String → String
about unknown_reference e = append "Which \"" (append e "\" do you mean?")
about ambiguous_pronoun e = append "What does \"" (append e "\" refer to?")
about conflicting_requirements e =
    append "Your requirements appear to conflict (\"" (append e "\"). Which should I prioritize?")
about missing_context e = append "I need more context before I can proceed: " e
about out_of_domain e =
    append "This appears outside what I can help with (\""
      (append e "\"). Could you reframe it or point me to a more specific aspect?")

abbrev pub in_general : AmbiguityKind → String
in_general unknown_reference = "Which one do you mean?"
in_general ambiguous_pronoun = "What does that refer to?"
in_general conflicting_requirements =
    "Your requirements appear to conflict. Which should I prioritize?"
in_general missing_context = "I need more context before I can proceed. What should I work with?"
in_general out_of_domain = "This appears outside what I can help with. Could you reframe it?"

abbrev pub unclear : String
unclear =
    append "I'm not sure how to proceed with this request. "
      "Could you clarify what you'd like me to do?"

module _ (strip : String → String) where
  unfoldable pub compose_question : Ambiguity → String
  compose_question a =
      let preferred = strip a.preferred_clarification in
      let excerpt = strip a.excerpt in
      if not (preferred == "")
      then preferred
      else if not (excerpt == "")
      then about a.kind excerpt
      else in_general a.kind

  -- `ClarificationLoop.forward`, with the intent that it gives back left out.
  unfoldable pub clarify : IntentResult → String
  unfolding select_ambiguity compose_question
  clarify intent =
      if intent.requires_clarification
      then elim (select_ambiguity intent.ambiguities) [
        | none ↦ unclear
        | some a ↦ compose_question a
      ]
      else ""

-- `AgentLoop._clarification_message`.
unfoldable pub clarification_message : List Ambiguity → String
unfolding first_clarification
clarification_message ambiguities = elim (first_clarification ambiguities) [
  | none ↦ "ambiguous request"
  | some clarification ↦ clarification
]
