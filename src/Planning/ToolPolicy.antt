-- ===== src/Planning/ToolPolicy.antt =====
-- planning/policy.py: which tool groups a turn keeps. The planner is a language model, whose answer is
-- an argument. Confidences are in hundredths; the rationale's wording and the latency are left out.
pub mod Kept
mod Examples
use kaos_agents.Prelude.{ℕ, Bool, true, false, not, ◌||◌, [], filter, if◌then◌else◌, ltb}
use kaos_agents.Prelude.Equality.{string_key, contains, to_set}
use kaos_agents.Prelude.Reply.{Reply, replies, fails, cancelled}
use kaos_agents.Session.Policy.{Groups, is_empty}

pub record TurnToolPolicyResult : Type 0 where
  pub wanted_groups : Groups
  pub confidence : ℕ
  pub cost : ℕ

pub record TurnToolPolicy : Type 0 where
  pub kept_groups : Groups
  pub dropped_groups : Groups
  pub confidence : ℕ
  pub fell_back_to_ceiling : Bool
  pub cost : ℕ

-- The set operations `a & b` and `a - b`, on lists.
unfoldable pub intersection : Groups → Groups → Groups
intersection a b = filter (λ g. contains b g) a

unfoldable pub difference : Groups → Groups → Groups
difference a b = filter (λ g. not (contains b g)) a

abbrev pub tools_disabled : TurnToolPolicy
tools_disabled = record {
  kept_groups = [];
  dropped_groups = [];
  confidence = 100;
  fell_back_to_ceiling = false;
  cost = 0;
}

-- Also the answer when the package of the planner is not installed.
abbrev pub planner_unavailable : Groups → TurnToolPolicy
planner_unavailable ceiling_groups = record {
  kept_groups = ceiling_groups;
  dropped_groups = [];
  confidence = 0;
  fell_back_to_ceiling = true;
  cost = 0;
}

unfoldable pub apply_ceiling : Groups → ℕ → TurnToolPolicyResult → TurnToolPolicy
apply_ceiling ceiling_groups threshold raw =
    let kept = intersection (to_set raw.wanted_groups) ceiling_groups in
    let dropped = difference (to_set raw.wanted_groups) ceiling_groups in
    let low = ltb raw.confidence threshold || is_empty kept in
    record {
      kept_groups = if low then ceiling_groups else kept;
      dropped_groups = dropped;
      confidence = raw.confidence;
      fell_back_to_ceiling = low;
      cost = raw.cost;
    }

unfoldable pub plan_with : Groups → ℕ → Reply TurnToolPolicyResult → Reply TurnToolPolicy
plan_with ceiling_groups threshold (replies raw) =
    replies (apply_ceiling ceiling_groups threshold raw)
plan_with ceiling_groups threshold (fails message) = replies (planner_unavailable ceiling_groups)
plan_with ceiling_groups threshold cancelled = cancelled

-- The planner is not asked if there is no group to choose from.
unfoldable pub plan_turn_tool_policy :
    Groups → ℕ → Reply TurnToolPolicyResult → Reply TurnToolPolicy
plan_turn_tool_policy ceiling_groups threshold planner =
    if is_empty ceiling_groups
    then replies tools_disabled
    else plan_with ceiling_groups threshold planner
