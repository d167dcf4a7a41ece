-- ===== src/Intent/Examples.antt =====
-- intent/clarify.py: an intent with two ambiguities.
use kaos_agents.Prelude.{◌≡◌, refl, some, List, [], ◌∷◌}
use kaos_agents.Intent.{
  unknown_reference, missing_context, AmbiguityKind, AmbiguityKind-discrete, Ambiguity, first_of,
  select_ambiguity,
}
use kaos_agents.Intent.Clarify.{IsMostBlocking, select_ambiguity-IsMostBlocking}

abbrev about_a : AmbiguityKind → Ambiguity
about_a kind = record { kind = kind; excerpt = "the contract"; preferred_clarification = "" }

abbrev two_ambiguities : List Ambiguity
two_ambiguities = about_a unknown_reference ∷ about_a missing_context ∷ []

select_ambiguity_runs : select_ambiguity two_ambiguities ≡ some (about_a missing_context)
unfolding select_ambiguity first_of AmbiguityKind-discrete
select_ambiguity_runs = refl

select_ambiguity-IsMostBlocking_example :
    IsMostBlocking two_ambiguities (select_ambiguity two_ambiguities)
select_ambiguity-IsMostBlocking_example = select_ambiguity-IsMostBlocking two_ambiguities
