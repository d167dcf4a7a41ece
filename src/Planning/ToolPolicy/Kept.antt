-- ===== src/Planning/ToolPolicy/Kept.antt =====
-- planning/policy.py: the groups that a plan keeps and drops.
use kaos_agents.Prelude.{
  ◌≡◌, refl, subst, ℕ, true, false, not, ◌&&◌, [], ◌∷◌, String, inl, inr, Bool-cases, arith,
}
use kaos_agents.Prelude.Equality.{string_key, contains, contains-filter, to_set}
use kaos_agents.Prelude.Reply.{Reply, replies, fails, cancelled}
use kaos_agents.Session.Policy.{Groups, is_empty}
use kaos_agents.Planning.ToolPolicy.{
  TurnToolPolicyResult, TurnToolPolicy, intersection, difference, apply_ceiling, plan_with,
  plan_turn_tool_policy,
}

pub contains-intersection :
    (a b : Groups) (g : String) → contains (intersection a b) g ≡ (contains b g && contains a g)
unfolding intersection
contains-intersection a b g = contains-filter (λ x. contains b x) a g

contains-difference :
    (a b : Groups) (g : String) → contains (difference a b) g ≡ (not (contains b g) && contains a g)
unfolding difference
contains-difference a b g = contains-filter (λ x. not (contains b x)) a g

-- What a plan may keep and drop of the groups that a session allows.
pub record Respects (ceiling : Groups) (plan : TurnToolPolicy) : Type 0 where
  pub kept_below : (g : String) → contains plan.kept_groups g ≡ true → contains ceiling g ≡ true
  pub dropped_outside :
      (g : String) → contains plan.dropped_groups g ≡ true → contains ceiling g ≡ false
  pub keeps_some : is_empty plan.kept_groups ≡ is_empty ceiling

apply_ceiling-Respects :
    (ceiling : Groups) (threshold : ℕ) (raw : TurnToolPolicyResult)
    → is_empty ceiling ≡ false
    → Respects ceiling (apply_ceiling ceiling threshold raw)
unfolding apply_ceiling
apply_ceiling-Respects ceiling threshold raw some_group = record {
  kept_below = λ g h. ground (arith, contains-intersection (to_set raw.wanted_groups) ceiling g);
  dropped_outside = λ g h. ground (arith, contains-difference (to_set raw.wanted_groups) ceiling g);
  keeps_some = ground arith;
}

contains-is_empty :
    (ceiling : Groups) (g : String) → is_empty ceiling ≡ true → contains ceiling g ≡ false
unfolding is_empty contains
contains-is_empty [] g h = refl
contains-is_empty (x ∷ ceiling) g h = ground arith

Replied : Groups → Reply TurnToolPolicy → Type 0
Replied ceiling (replies plan) = Respects ceiling plan
Replied ceiling (fails message) = Unit
Replied ceiling cancelled = Unit

plan_with-Replied :
    (ceiling : Groups) (threshold : ℕ) (planner : Reply TurnToolPolicyResult)
    → is_empty ceiling ≡ false
    → Replied ceiling (plan_with ceiling threshold planner)
unfolding plan_with Replied contains
plan_with-Replied ceiling threshold (replies raw) h = apply_ceiling-Respects ceiling threshold raw h
plan_with-Replied ceiling threshold (fails message) h = record {
  kept_below = λ g k. k;
  dropped_outside = λ g k. ground arith;
  keeps_some = refl;
}
plan_with-Replied ceiling threshold cancelled h = tt

plan_turn_tool_policy-Replied :
    (ceiling : Groups) (threshold : ℕ) (planner : Reply TurnToolPolicyResult)
    → Replied ceiling (plan_turn_tool_policy ceiling threshold planner)
unfolding plan_turn_tool_policy Replied contains is_empty
plan_turn_tool_policy-Replied ceiling threshold planner = elim (Bool-cases (is_empty ceiling)) [
  | inl nothing ↦ rw nothing record {
    kept_below = λ g k. ground arith;
    dropped_outside = λ g k. contains-is_empty ceiling g nothing;
    keeps_some = rw nothing refl;
  }
  | inr something ↦ rw something (plan_with-Replied ceiling threshold planner something)
]

-- However the planner answers, and also if it fails: a plan keeps only groups of the session, drops
-- only others, and keeps none exactly if the session has none.
pub plan_turn_tool_policy-Respects :
    (ceiling : Groups) (threshold : ℕ) (planner : Reply TurnToolPolicyResult)
    (plan : TurnToolPolicy)
    → plan_turn_tool_policy ceiling threshold planner ≡ replies plan
    → Respects ceiling plan
unfolding Replied
plan_turn_tool_policy-Respects ceiling threshold planner plan h =
    subst (Replied ceiling) h (plan_turn_tool_policy-Replied ceiling threshold planner)
