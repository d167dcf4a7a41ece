-- ===== src/Session/Policy/Examples.antt =====
-- The policy of a persona, some changes of it, and the theorems at them.
use kaos_agents.Prelude.{◌≡◌, refl, true, List, [], ◌∷◌, filter}
use kaos_agents.Prelude.Equality.{string_key, contains}
use kaos_agents.Prelude.Dict.{lookup}
use kaos_agents.Session.Policy.{
  Groups, SessionPolicy, for_persona, default_elevation_policy, forensics_soft_ceiling,
  research_soft_ceiling, is_empty, with_added_groups, tier_for, can_auto_elevate,
  needs_confirmation, consider_elevation, Change, adds, removes, elevates, change_all,
}
use kaos_agents.Session.Policy.Ceiling.{IsWithin, for_persona-IsWithin}

abbrev forensics : SessionPolicy
forensics = record {
  allowed_groups = forensics_soft_ceiling;
  soft_ceiling = forensics_soft_ceiling;
  elevation_policy = default_elevation_policy;
  auto_elevate = true;
  max_loop_iterations = 3;
  max_loop_cost = 200;
  max_loop_wall_clock = 60000;
  max_per_tool_cost = 0;
}

-- A research session that was narrowed to one group.
abbrev narrowed : SessionPolicy
narrowed = record forensics { allowed_groups = "vfs" ∷ []; soft_ceiling = research_soft_ceiling }

abbrev dropped : Groups
dropped = "web" ∷ "browser" ∷ []

elevated_groups :
    (consider_elevation ("web" ∷ "browser" ∷ "agents" ∷ []) 0 narrowed).policy.allowed_groups
    ≡ "vfs" ∷ "web" ∷ []
unfolding consider_elevation with_added_groups can_auto_elevate needs_confirmation tier_for contains
    is_empty lookup filter
elevated_groups = refl

abbrev changes : List Change
changes = removes ("vfs" ∷ []) ∷ adds ("web" ∷ "vfs" ∷ []) ∷ elevates ("forensics" ∷ []) ∷ []

for_persona-IsWithin_example : IsWithin forensics_soft_ceiling (change_all changes forensics)
unfolding for_persona lookup
for_persona-IsWithin_example = for_persona-IsWithin "forensics" forensics changes refl
