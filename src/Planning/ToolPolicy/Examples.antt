-- ===== src/Planning/ToolPolicy/Examples.antt =====
-- A plan that the planner is sure of, one that falls back, and the theorem at the first.
use kaos_agents.Prelude.{◌≡◌, refl, [], ◌∷◌, true, filter, false}
use kaos_agents.Prelude.Equality.{contains, to_set}
use kaos_agents.Prelude.Reply.{replies}
use kaos_agents.Session.Policy.{Groups, is_empty}
use kaos_agents.Planning.ToolPolicy.{
  TurnToolPolicyResult, TurnToolPolicy, plan_turn_tool_policy, plan_with, apply_ceiling,
  intersection, difference,
}
use kaos_agents.Planning.ToolPolicy.Kept.{Respects, plan_turn_tool_policy-Respects}

abbrev ceiling : Groups
ceiling = "web" ∷ "vfs" ∷ []

abbrev wanted : TurnToolPolicyResult
wanted = record { wanted_groups = "web" ∷ "browser" ∷ "web" ∷ []; confidence = 80; cost = 3 }

abbrev sure_plan : TurnToolPolicy
sure_plan = record {
  kept_groups = "web" ∷ [];
  dropped_groups = "browser" ∷ [];
  confidence = 80;
  fell_back_to_ceiling = false;
  cost = 3;
}

planned : plan_turn_tool_policy ceiling 60 (replies wanted) ≡ replies sure_plan
unfolding plan_turn_tool_policy plan_with apply_ceiling intersection difference to_set contains
    filter is_empty
planned = refl

unsure :
    plan_turn_tool_policy ceiling 90 (replies wanted)
    ≡ replies (record sure_plan { kept_groups = ceiling; fell_back_to_ceiling = true })
unfolding plan_turn_tool_policy plan_with apply_ceiling intersection difference to_set contains
    filter is_empty
unsure = refl

plan_turn_tool_policy-Respects_example : Respects ceiling sure_plan
plan_turn_tool_policy-Respects_example =
    plan_turn_tool_policy-Respects ceiling 60 (replies wanted) sure_plan planned
