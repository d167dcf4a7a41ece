-- ===== src/Session/Policy.antt =====
-- types/session_policy.py, and `_consider_elevation` of patterns/agentic_loop.py: the groups of tools
-- that a session may use. A set is a list of its elements, of which only the membership is looked at.
pub mod Ceiling
mod Examples
use kaos_agents.Prelude.{
  ℕ, ◌+◌, Bool, true, false, not, ◌&&◌, ◌||◌, Option, none, some, List, [], ◌∷◌, ◌++◌, String,
  filter, all, length, if◌then◌else◌,
}
use kaos_agents.Prelude.Equality.{◌==◌, string_key, contains}
use kaos_agents.Prelude.Dict.{lookup}

pub data ElevationTier : Type 0 where
  green_auto yellow_confirm red_blocked : ElevationTier

abbrev pub Groups : Type 0
Groups = List String

-- The groups, the elevation switches and the loop limits of a policy: amounts are in cents and times
-- in milliseconds. The other switches, the denied tools and the staleness are left out.
pub record SessionPolicy : Type 0 where
  pub allowed_groups : Groups
  pub soft_ceiling : Groups
  pub elevation_policy : List (String × ElevationTier)
  pub auto_elevate : Bool
  pub max_loop_iterations : ℕ
  pub max_loop_cost : ℕ
  pub max_loop_wall_clock : ℕ
  pub max_per_tool_cost : ℕ

abbrev pub default_elevation_policy : List (String × ElevationTier)
default_elevation_policy =
    ("web", green_auto)
    ∷ ("documents", green_auto)
    ∷ ("citations", green_auto)
    ∷ ("retrieval", green_auto)
    ∷ ("vfs", green_auto)
    ∷ ("forensics", green_auto)
    ∷ ("browser", yellow_confirm)
    ∷ ("authoring", yellow_confirm)
    ∷ ("netinfra", yellow_confirm)
    ∷ ("programs", red_blocked)
    ∷ ("agents", red_blocked)
    ∷ []

abbrev pub research_soft_ceiling : Groups
research_soft_ceiling =
    "web" ∷ "browser" ∷ "netinfra" ∷ "documents" ∷ "citations" ∷ "vfs" ∷ "forensics" ∷ "retrieval"
    ∷ []

abbrev pub drafting_soft_ceiling : Groups
drafting_soft_ceiling = research_soft_ceiling ++ "authoring" ∷ []

abbrev pub forensics_soft_ceiling : Groups
forensics_soft_ceiling = "forensics" ∷ "vfs" ∷ []

abbrev pub persona_soft_ceilings : List (String × Groups)
persona_soft_ceilings =
    ("research", research_soft_ceiling)
    ∷ ("drafting", drafting_soft_ceiling)
    ∷ ("forensics", forensics_soft_ceiling)
    ∷ []

-- `none` is the ValueError of an unknown persona.
unfoldable pub for_persona : String → Option SessionPolicy
for_persona persona = elim (lookup persona persona_soft_ceilings) [
  | none ↦ none
  | some ceiling ↦ some record {
    allowed_groups = ceiling;
    soft_ceiling = ceiling;
    elevation_policy = default_elevation_policy;
    auto_elevate = true;
    max_loop_iterations = 3;
    max_loop_cost = 200;
    max_loop_wall_clock = 60000;
    max_per_tool_cost = 0;
  }
]

unfoldable pub is_empty : Groups → Bool
is_empty [] = true
is_empty (g ∷ groups) = false

unfoldable pub with_added_groups : Groups → SessionPolicy → SessionPolicy
with_added_groups groups p =
    let addable = filter (λ g. contains p.soft_ceiling g) groups in
    if is_empty addable then p else record p { allowed_groups = p.allowed_groups ++ addable }

-- Where nothing is removed the source returns the policy itself, which is the same set of groups.
unfoldable pub with_removed_groups : Groups → SessionPolicy → SessionPolicy
with_removed_groups groups p = record p {
  allowed_groups = filter (λ g. not (contains groups g)) p.allowed_groups;
}

unfoldable pub tier_for : String → SessionPolicy → ElevationTier
tier_for group p = elim (lookup group p.elevation_policy) [ none ↦ red_blocked | some tier ↦ tier ]

abbrev pub is_green : ElevationTier → Bool
is_green green_auto = true
is_green _ = false

abbrev pub is_yellow : ElevationTier → Bool
is_yellow yellow_confirm = true
is_yellow _ = false

abbrev pub is_red : ElevationTier → Bool
is_red red_blocked = true
is_red _ = false

unfoldable pub can_auto_elevate : String → SessionPolicy → Bool
can_auto_elevate group p = contains p.soft_ceiling group && is_green (tier_for group p)

unfoldable pub needs_confirmation : String → SessionPolicy → Bool
needs_confirmation group p = contains p.soft_ceiling group && is_yellow (tier_for group p)

unfoldable pub is_blocked : String → SessionPolicy → Bool
is_blocked group p = not (contains p.soft_ceiling group) || is_red (tier_for group p)

-- What `_consider_elevation` returns: the new policy, the groups of the event ToolPolicyElevated and
-- those of CapabilityRequested, each if it is emitted, and the new elevation count of the loop.
pub record Elevation : Type 0 where
  pub policy : SessionPolicy
  pub elevated : Option Groups
  pub requested : Option Groups
  pub elevation_count : ℕ

abbrev pub unless_empty : Groups → Option Groups
unless_empty [] = none
unless_empty (g ∷ groups) = some (g ∷ groups)

unfoldable pub consider_elevation : Groups → ℕ → SessionPolicy → Elevation
consider_elevation dropped elevation_count p =
    let auto_elevate_targets = filter (λ g. can_auto_elevate g p) dropped in
    let confirm_targets = filter (λ g. needs_confirmation g p) dropped in
    if is_empty dropped || not p.auto_elevate
    then record { policy = p; elevated = none; requested = none; elevation_count = elevation_count }
    else record {
      policy =
          if is_empty auto_elevate_targets then p else with_added_groups auto_elevate_targets p;
      elevated = unless_empty auto_elevate_targets;
      requested = unless_empty confirm_targets;
      elevation_count = elevation_count + length auto_elevate_targets;
    }

-- What changes a session's policy.
pub data Change : Type 0 where
  adds removes elevates : Groups → Change

unfoldable pub change : Change → SessionPolicy → SessionPolicy
change (adds groups) p = with_added_groups groups p
change (removes groups) p = with_removed_groups groups p
change (elevates dropped) p = (consider_elevation dropped 0 p).policy

unfoldable pub change_all : List Change → SessionPolicy → SessionPolicy
change_all [] p = p
change_all (c ∷ cs) p = change_all cs (change c p)
