-- ===== src/Intent/Clarify.antt =====
-- intent/clarify.py: which ambiguity is asked about.
use Prim.Native.String.{count, ◌++◌ as append}
use text.Mathlib.TextLemmas.{length-append}
use kaos_agents.Prelude.{
  ◌≡◌, refl, ◌↔◌, ◌∙◌, ◌<◌, sym, ap, inl, inr, Bool, true, false, ◌||◌, Option, none, some, List,
  [], ◌∷◌, ◌++◌, subst, String, arith, Bool-cases, Option-cases, if◌then◌else◌,
}
use kaos_agents.Prelude.Equality.{◌==◌, string_key}
use kaos_agents.Intent.{
  AmbiguityKind, ambiguity_kind_key, unknown_reference, ambiguous_pronoun, conflicting_requirements,
  AmbiguityKind-discrete, missing_context, out_of_domain, Ambiguity, IntentResult, is_blocking,
  has_blocking_ambiguity, first_of, head?, select_ambiguity, about, in_general, unclear,
  compose_question, clarify,
}

-- Whether some ambiguity has a kind.
abbrev pub has_kind : AmbiguityKind → List Ambiguity → Bool
has_kind kind [] = false
has_kind kind (a ∷ rest) = let later = has_kind kind rest in if a.kind == kind then true else later

-- The ambiguity stands in the list, and none of the kind stands before it.
abbrev pub IsFirst : AmbiguityKind → List Ambiguity → Ambiguity → Type 0
IsFirst kind ambiguities a =
    (before after : List Ambiguity) × (ambiguities ≡ before ++ a ∷ after)
    × (has_kind kind before ≡ false)

-- What a selection must be.
abbrev pub IsMostBlocking : List Ambiguity → Option Ambiguity → Type 0
IsMostBlocking ambiguities none = ambiguities ≡ []
IsMostBlocking ambiguities (some a) =
    IsFirst a.kind ambiguities a
    × (has_kind missing_context ambiguities ≡ true → a.kind ≡ missing_context)
    × (has_blocking_ambiguity ambiguities ≡ true → is_blocking a.kind ≡ true)
    × (has_blocking_ambiguity ambiguities ≡ false → head? ambiguities ≡ some a)

first_of-kind :
    (kind : AmbiguityKind) (l : List Ambiguity) (a : Ambiguity)
    → first_of kind l ≡ some a
    → a.kind ≡ kind
unfolding first_of
first_of-kind kind [] a h = cc
first_of-kind kind (b ∷ l) a h = elim (Bool-cases (b.kind == kind)) [
  | inl same ↦
      let e : some b ≡ some a = rw same at h in
      let k : b.kind ≡ kind = (ambiguity_kind_key.equal_iff b.kind kind).0 same in cc
  | inr other ↦ first_of-kind kind l a (rw other at h)
]

first_of-IsFirst :
    (kind : AmbiguityKind) (l : List Ambiguity) (a : Ambiguity)
    → first_of kind l ≡ some a
    → IsFirst kind l a
unfolding first_of
first_of-IsFirst kind [] a h = absurd (nothing h)
  where
    nothing : {b : Ambiguity} → none ≡ some b → ⊥
    nothing e = cc
first_of-IsFirst kind (b ∷ l) a h = elim (Bool-cases (b.kind == kind)) [
  | inl same ↦ let e : some b ≡ some a = rw same at h in ([], l, cc, refl)
  | inr other ↦
      let (before, after, split, none_before) = first_of-IsFirst kind l a (rw other at h) in
      (b ∷ before, after, ap (λ r. b ∷ r) split, rw (other, none_before) refl)
]

first_of-IsFirst_own :
    (kind : AmbiguityKind) (l : List Ambiguity) (a : Ambiguity)
    → first_of kind l ≡ some a
    → IsFirst a.kind l a
first_of-IsFirst_own kind l a h =
    subst (λ k. IsFirst k l a) (sym (first_of-kind kind l a h)) (first_of-IsFirst kind l a h)

first_of-none :
    (kind : AmbiguityKind) (l : List Ambiguity) → first_of kind l ≡ none → has_kind kind l ≡ false
unfolding first_of
first_of-none kind [] h = refl
first_of-none kind (b ∷ l) h = ground (arith, first_of-none kind l)

is_blocking-false :
    (kind : AmbiguityKind)
    → is_blocking kind ≡ (if kind == missing_context then true else kind == out_of_domain)
unfolding AmbiguityKind-discrete
is_blocking-false unknown_reference = refl
is_blocking-false ambiguous_pronoun = refl
is_blocking-false conflicting_requirements = refl
is_blocking-false missing_context = refl
is_blocking-false out_of_domain = refl

has_blocking_ambiguity-has_kind :
    (l : List Ambiguity)
    → has_blocking_ambiguity l ≡ (has_kind missing_context l || has_kind out_of_domain l)
unfolding has_blocking_ambiguity
has_blocking_ambiguity-has_kind [] = refl
has_blocking_ambiguity-has_kind (a ∷ l) =
    ground (arith, has_blocking_ambiguity-has_kind l, is_blocking-false a.kind)

first_of-has_kind :
    (kind : AmbiguityKind) (l : List Ambiguity) (a : Ambiguity)
    → first_of kind l ≡ some a
    → has_kind kind l ≡ true
unfolding first_of
first_of-has_kind kind [] a h = cc
first_of-has_kind kind (b ∷ l) a h = ground (arith, first_of-has_kind kind l a)

head?-IsMostBlocking :
    (l : List Ambiguity)
    → has_kind missing_context l ≡ false
    → has_kind out_of_domain l ≡ false
    → IsMostBlocking l (head? l)
head?-IsMostBlocking [] c d = refl
head?-IsMostBlocking (a ∷ l) c d =
    let blocking = has_blocking_ambiguity-has_kind (a ∷ l) in
    (([], l, refl, refl), (λ h. ground arith), (λ h. ground (arith, blocking)), (λ h. refl))

-- Of no ambiguity none is selected. Of others one of them is, before which none of its kind stands: of
-- missing context if there is one of that kind, a blocking one if there is any, and the first one if
-- none is blocking.
pub select_ambiguity-IsMostBlocking :
    (ambiguities : List Ambiguity) → IsMostBlocking ambiguities (select_ambiguity ambiguities)
unfolding select_ambiguity
select_ambiguity-IsMostBlocking l =
    let blocking = has_blocking_ambiguity-has_kind l in
    elim (Option-cases (first_of missing_context l)) [
      | inr (a, found) ↦
          let k = first_of-kind missing_context l a found in
          let there = first_of-has_kind missing_context l a found in
          rw (found, select_ambiguity)
            (
              first_of-IsFirst_own missing_context l a found,
              (λ _. k),
              (λ _. rw k refl),
              (λ h. ground (arith, blocking, there)),
            )
      | inl absent ↦
          let no_context = first_of-none missing_context l absent in
          elim (Option-cases (first_of out_of_domain l)) [
            | inr (a, found) ↦
                let k = first_of-kind out_of_domain l a found in
                let there = first_of-has_kind out_of_domain l a found in
                rw (absent, found, select_ambiguity)
                  (
                    first_of-IsFirst_own out_of_domain l a found,
                    (λ h. ground (arith, no_context)),
                    (λ _. rw k refl),
                    (λ h. ground (arith, blocking, there)),
                  )
            | inl none_left ↦
                let no_domain = first_of-none out_of_domain l none_left in
                rw (absent, none_left, select_ambiguity)
                  (head?-IsMostBlocking l no_context no_domain)
          ]
    ]

append-nonempty : (s e : String) → 0 < count s → (append s e == "") ≡ false
append-nonempty s e h = elim (Bool-cases (append s e == "")) [
  | inr nonempty ↦ nonempty
  | inl empty ↦
      let same : append s e ≡ "" = (string_key.equal_iff (append s e) "").0 empty in
      absurd (omega (arith, ap count same, length-append s e))
]

about-nonempty : (kind : AmbiguityKind) (e : String) → (about kind e == "") ≡ false
about-nonempty unknown_reference e = append-nonempty "Which \"" _ (omega arith)
about-nonempty ambiguous_pronoun e = append-nonempty "What does \"" _ (omega arith)
about-nonempty conflicting_requirements e =
    append-nonempty "Your requirements appear to conflict (\"" _ (omega arith)
about-nonempty missing_context e =
    append-nonempty "I need more context before I can proceed: " e (omega arith)
about-nonempty out_of_domain e =
    append-nonempty "This appears outside what I can help with (\"" _ (omega arith)

in_general-nonempty : (kind : AmbiguityKind) → (in_general kind == "") ≡ false
in_general-nonempty unknown_reference = refl
in_general-nonempty ambiguous_pronoun = refl
in_general-nonempty conflicting_requirements = refl
in_general-nonempty missing_context = refl
in_general-nonempty out_of_domain = refl

asked_something :
    (strip : String → String) (a : Ambiguity) → (compose_question strip a == "") ≡ false
unfolding compose_question
asked_something strip a = elim (Bool-cases (strip a.preferred_clarification == "")) [
  | inr some_words ↦ rw (some_words, compose_question) some_words
  | inl no_words ↦
      rw (no_words, compose_question)
        (elim (Bool-cases (strip a.excerpt == "")) [
          | inl none_there ↦ rw none_there (in_general-nonempty a.kind)
          | inr excerpt ↦ rw excerpt (about-nonempty a.kind (strip a.excerpt))
        ])
]

pub clarify-eq-empty_iff :
    (strip : String → String) (intent : IntentResult)
    → (clarify strip intent ≡ "") ↔ (intent.requires_clarification ≡ false)
unfolding clarify
clarify-eq-empty_iff strip intent = elim (Bool-cases intent.requires_clarification) [
  | inr clear ↦ rw (clear, clarify) ((λ _. refl), (λ _. refl))
  | inl unsure ↦
      rw (unsure, clarify)
        ((λ h. absurd (something (select_ambiguity intent.ambiguities) h)), (λ h. absurd (clash h)))
]
  where
    clash : true ≡ false → ⊥
    clash e = cc

    nonempty : (s : String) → (s == "") ≡ false → s ≡ "" → ⊥
    nonempty s h e = absurd (clash (sym ((string_key.equal_iff s "").1 e) ∙ h))

    something :
        (o : Option Ambiguity)
        → elim o [ none ↦ unclear | some a ↦ compose_question strip a ] ≡ ""
        → ⊥
    something none h = nonempty unclear refl h
    something (some a) h = nonempty (compose_question strip a) (asked_something strip a) h
