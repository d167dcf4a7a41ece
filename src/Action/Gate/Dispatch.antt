-- ===== src/Action/Gate/Dispatch.antt =====
-- action/actor.py: which plans are dispatched.
use kaos_agents.Prelude.{◌≡◌, ◌≢◌, ◌↔◌, refl, Bool, false, Option, none, some, List, String, arith}
use kaos_agents.Action.Gate.{
  PermissionRule, allow, irreversible, ActionPlan, required_for, dispatched, evaluate,
  classify_plan, forward, ClassifyVerdict, auto_allow, deny_verdict, approval_required_verdict,
  follow,
}

follow_dispatched {ℓ} :
    {A : Type ℓ} (run : ActionPlan → A) (plan : ActionPlan) (v : ClassifyVerdict)
    → (follow (some run) plan v ≡ dispatched (run plan)) ↔ (v ≡ auto_allow)
unfolding follow
follow_dispatched run plan deny_verdict = ((λ e. cc), (λ e. cc))
follow_dispatched run plan approval_required_verdict = ((λ e. cc), (λ e. cc))
follow_dispatched run plan auto_allow = ((λ e. refl), (λ e. refl))

follow_passes {ℓ} :
    {A : Type ℓ} (dispatch : Option (ActionPlan → A)) (plan : ActionPlan) (v : ClassifyVerdict)
    (result : A)
    → follow dispatch plan v ≡ dispatched result
    → v ≡ auto_allow
unfolding follow
follow_passes dispatch plan deny_verdict result e = cc
follow_passes dispatch plan approval_required_verdict result e = cc
follow_passes dispatch plan auto_allow result e = refl

module _ (fnmatch : String → String → Bool) where
  -- A plan passes without a policy if the workflow requires no approval, and with one if it allows the
  -- tool and the plan is not irreversible.
  abbrev pub Passes : Option (List PermissionRule) → ActionPlan → Type 0
  Passes none plan = required_for plan ≡ false
  Passes (some rules) plan =
      (evaluate fnmatch rules plan.tool_name none ≡ allow) × (plan.reversibility ≢ irreversible)

  classify_plan-auto_allow :
      (policy : Option (List PermissionRule)) (plan : ActionPlan)
      → (classify_plan fnmatch policy plan ≡ auto_allow) ↔ Passes policy plan
  unfolding classify_plan
  classify_plan-auto_allow none plan = ground arith
  classify_plan-auto_allow (some rules) plan = ground arith

  -- A plan is handed to the dispatch callback exactly if there is one and the plan passes: without a
  -- policy, if the workflow requires no approval for it, and with one, if the policy allows the tool
  -- and the plan is not irreversible.
  pub forward_dispatched {ℓ} :
      {A : Type ℓ} (run : ActionPlan → A) (policy : Option (List PermissionRule))
      (plan : ActionPlan)
      → (forward fnmatch (some run) policy plan ≡ dispatched (run plan)) ↔ Passes policy plan
  unfolding forward
  forward_dispatched run policy plan =
      let (to, from) = classify_plan-auto_allow policy plan in
      let (passes, runs) = follow_dispatched run plan (classify_plan fnmatch policy plan) in
      ((λ e. to (passes e)), (λ p. runs (from p)))

  Passes-irreversible :
      (policy : Option (List PermissionRule)) (plan : ActionPlan)
      → plan.reversibility ≡ irreversible
      → Passes policy plan
      → ⊥
  unfolding required_for
  Passes-irreversible none plan e p = ground arith
  Passes-irreversible (some rules) plan e (_, other) = other e

  -- An irreversible plan is never dispatched, whatever the policy says.
  pub forward_irreversible {ℓ} :
      {A : Type ℓ} (dispatch : Option (ActionPlan → A)) (policy : Option (List PermissionRule))
      (plan : ActionPlan) (result : A)
      → plan.reversibility ≡ irreversible
      → forward fnmatch dispatch policy plan ≢ dispatched result
  unfolding forward
  forward_irreversible dispatch policy plan result e h = Passes-irreversible policy plan e (
      (classify_plan-auto_allow policy plan).0
        (follow_passes dispatch plan (classify_plan fnmatch policy plan) result h))
