-- ===== src/Action/Gate/Policy.antt =====
-- runtime/permissions.py: the order of the rules.
use kaos_agents.Prelude.{
  ◌≡◌, refl, inl, inr, Bool, Option, List, [], ◌∷◌, ◌++◌, String, Bool-cases, any, arith,
  if◌then◌else◌,
}
use kaos_agents.Action.Gate.{PermissionRule, ToolAnnotations, matches, first_match, evaluate}

module _ (fnmatch : String → String → Bool) where
  first_match-append :
      (before after : List PermissionRule) (tool : String)
      → first_match fnmatch (before ++ after) tool ≡ (
          if any (λ rule. matches fnmatch rule tool) before
          then first_match fnmatch before tool
          else first_match fnmatch after tool)
  unfolding first_match
  first_match-append [] after tool = refl
  first_match-append (rule ∷ before) after tool =
      ground (arith, first_match-append before after tool)

  -- Rules that stand after others count exactly if none of those matches the tool, whatever they
  -- decide, a denial included.
  pub evaluate-append :
      (before after : List PermissionRule) (tool : String) (annotations : Option ToolAnnotations)
      → evaluate fnmatch (before ++ after) tool annotations ≡ (
          if any (λ rule. matches fnmatch rule tool) before
          then evaluate fnmatch before tool annotations
          else evaluate fnmatch after tool annotations)
  unfolding evaluate
  evaluate-append before after tool annotations =
      elim (Bool-cases (any (λ rule. matches fnmatch rule tool) before)) [
        | inl some_match ↦
            rw some_match (rw (rw some_match at (first_match-append before after tool)) refl)
        | inr no_match ↦
            rw no_match (rw (rw no_match at (first_match-append before after tool)) refl)
      ]
