-- ===== src/Action/Gate/Examples.antt =====
-- Two rules and two plans, and the theorems on the gate at them.
use kaos_agents.Prelude.{
  ◌≡◌, ◌≢◌, ◌↔◌, refl, Bool, true, none, some, [], ◌∷◌, String, if◌then◌else◌,
}
use kaos_agents.Prelude.Equality.{◌==◌, string_key}
use kaos_agents.Action.Gate.{
  PermissionRule, allow, deny, irreversible, externally_visible, ActionPlan, dispatched, matches,
  first_match, evaluate, classify_plan, follow, forward,
}
use kaos_agents.Action.Gate.Dispatch.{Passes, forward_dispatched, forward_irreversible}

-- Patterns without wildcards, and the one that matches every name.
abbrev exactly : String → String → Bool
exactly name pattern = if pattern == "*" then true else name == pattern

abbrev allow_all : PermissionRule
allow_all = record { pattern = "*"; action = allow; reason = "" }

abbrev deny_mail : PermissionRule
deny_mail = record { pattern = "mail"; action = deny; reason = "no mail" }

abbrev mail : ActionPlan
mail = record { tool_name = "mail"; reversibility = externally_visible; approval_required = true }

abbrev wipe : ActionPlan
wipe = record { tool_name = "wipe"; reversibility = irreversible; approval_required = true }

abbrev run : ActionPlan → String
run plan = plan.tool_name

-- The rule that allows stands first, so the one that denies is not reached.
allow_before_deny : evaluate exactly (allow_all ∷ deny_mail ∷ []) "mail" none ≡ allow
unfolding evaluate first_match matches
allow_before_deny = refl

-- With a policy that allows the tool, the flag that asks for approval is not looked at.
mail_dispatched : forward exactly (some run) (some (allow_all ∷ [])) mail ≡ dispatched "mail"
unfolding forward follow classify_plan evaluate first_match matches
mail_dispatched = refl

forward_dispatched_example :
    (forward exactly (some run) (some (allow_all ∷ [])) mail ≡ dispatched "mail")
    ↔ Passes exactly (some (allow_all ∷ [])) mail
forward_dispatched_example = forward_dispatched exactly run (some (allow_all ∷ [])) mail

forward_irreversible_example :
    forward exactly (some run) (some (allow_all ∷ [])) wipe ≢ dispatched "wipe"
forward_irreversible_example =
    forward_irreversible exactly (some run) (some (allow_all ∷ [])) wipe "wipe" refl
