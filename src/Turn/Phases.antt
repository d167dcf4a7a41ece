-- ===== src/Turn/Phases.antt =====
-- patterns/agentic_loop.py: the plan and the elevation of a round, for an invariant of the acts.
use kaos_agents.Prelude.{
  ℕ, ◌≤◌, ◌≡◌, ◌≢◌, refl, subst, ◌∙◌, Bool, true, false, Option, none, some, arith,
}
use kaos_agents.Prelude.Equality.{contains, string_key}
use kaos_agents.Planning.ToolPolicy.{TurnToolPolicy, plan_turn_tool_policy}
use kaos_agents.Planning.ToolPolicy.Kept.{Respects, plan_turn_tool_policy-Respects}
use kaos_agents.Session.Policy.{
  Groups, SessionPolicy, consider_elevation, with_added_groups, can_auto_elevate,
}
use kaos_agents.Session.Policy.Ceiling.{consider_elevation-contains}
use kaos_agents.Turn.Types.{LoopState, Reason, Event, tool_policy_elevated, capability_requested}
use kaos_agents.Turn.Run.{Run, and_then, charged, when, await}
use kaos_agents.Turn.Refusal.{budget_exceeded, wall_clock_exceeded}
use kaos_agents.Turn.World.{World, Options, stop, draft_check, check_limits}
use kaos_agents.Turn.Iteration.{plan_phase, elevate_phase, emit_some}
use kaos_agents.Turn.Ends.{Ends, Ends-and_then, Ends-await, Ends-when, Ends-weaken}
use kaos_agents.Turn.Keeps.{
  Invariant, At, Done, Raised, Keeps, Below, is_terminal, At-Raised, At-emitted, stop_for-Ends,
}

elevation-ceiling :
    (dropped : Groups) (count : ℕ) (policy : SessionPolicy)
    → (consider_elevation dropped count policy).policy.soft_ceiling ≡ policy.soft_ceiling
unfolding consider_elevation with_added_groups
elevation-ceiling dropped count policy = ground arith

elevation-max :
    (dropped : Groups) (count : ℕ) (policy : SessionPolicy)
    → (consider_elevation dropped count policy).policy.max_loop_iterations
      ≡ policy.max_loop_iterations
unfolding consider_elevation with_added_groups
elevation-max dropped count policy = ground arith

-- A policy that allows and may come to allow groups of the ceiling only, with the limit of the
-- iterations.
abbrev pub Fits : ℕ → Groups → SessionPolicy → Type 0
Fits max ceiling policy =
    Below ceiling policy.allowed_groups
    × Below ceiling policy.soft_ceiling
    × (policy.max_loop_iterations ≡ max)

elevated-Fits :
    (max : ℕ) (ceiling dropped : Groups) (count : ℕ) (policy : SessionPolicy)
    → Fits max ceiling policy
    → Fits max ceiling (consider_elevation dropped count policy).policy
unfolding can_auto_elevate
elevated-Fits max ceiling dropped count policy (allowed, soft, limit) = (
  λ g h. ground (arith, consider_elevation-contains dropped count policy g, allowed g, soft g),
  λ g h.
      soft g
        (subst (λ groups. contains groups g ≡ true) (elevation-ceiling dropped count policy) h),
  elevation-max dropped count policy ∙ limit,
)

module _ {max : ℕ} {ceiling : Groups} (v : Invariant max ceiling) (k : ℕ) (within : k ≤ max)
    (w : World) (o : Options) where
  abbrev G : {A : Type 0} → A → LoopState → Type 0
  G _ s = At v k s

  abbrev Keep : {A : Type 0} → Run A → Type 0
  Keep = Keeps v k within

  then-Keep :
      {A B : Type 0} (r : Run A) (f : A → LoopState → Run B)
      → Keep r
      → ((a : A) (s : LoopState) → At v k s → Keep (f a s))
      → Keep (and_then r f)
  then-Keep r f = Ends-and_then (Done v) (Raised v) G G r f

  pub stop-Ends :
      (reason : Reason) (s : LoopState)
      → reason ≢ Reason.satisfied
      → At v k s
      → Ends (λ _ _. ⊥) (Done v) (Raised v) (stop w o reason s)
  unfolding stop
  stop-Ends reason s other h = stop_for-Ends v k within reason (draft_check w o s) s other h

  pub stop-Keeps :
      (reason : Reason) (s : LoopState)
      → reason ≢ Reason.satisfied
      → At v k s
      → Keep (stop w o reason s)
  stop-Keeps reason s other h =
      Ends-weaken (Done v) (Raised v) (λ _ _. ⊥) G (stop w o reason s) (stop-Ends reason s other h)
        (λ _ _ e. absurd e)

  pub stop_if :
      (b : Bool) (reason : Reason) (s : LoopState)
      → reason ≢ Reason.satisfied
      → At v k s
      → Keep (when b (stop w o reason) s)
  stop_if b reason s other h =
      Ends-when (Done v) (Raised v) G b (stop w o reason) s (λ _. h)
        (λ _. stop-Keeps reason s other h)

  pub check_limits-Keeps :
      (now : ℕ) (policy : SessionPolicy) (s : LoopState)
      → At v k s
      → Keep (check_limits w o now policy s)
  unfolding check_limits
  check_limits-Keeps now policy s h =
      then-Keep _ _ (stop_if (budget_exceeded s policy) Reason.cost_exceeded s (λ e. cc) h)
        (λ _ t h'.
          stop_if (wall_clock_exceeded now policy) Reason.wall_clock_exceeded t (λ e. cc) h')

  abbrev pub Planned : SessionPolicy → TurnToolPolicy → LoopState → Type 0
  Planned policy plan s = Respects policy.allowed_groups plan × At v k s

  pub plan_phase-Keeps :
      (policy : SessionPolicy) (s : LoopState)
      → At v k s
      → Ends (Planned policy) (Done v) (Raised v) (plan_phase w o policy s)
  unfolding plan_phase charged
  plan_phase-Keeps policy s h =
      let reply =
        plan_turn_tool_policy policy.allowed_groups o.confidence_threshold
          (w.planner s.iteration) in
      Ends-and_then (Done v) (Raised v) (Planned policy) (Planned policy) (await reply s) _
        (Ends-await (Done v) (Raised v) (Planned policy) reply s
          (λ plan e. (plan_turn_tool_policy-Respects _ _ _ plan e, h)) (At-Raised v k within s h))
        (λ plan t h'.
          Ends-and_then (Done v) (Raised v) G (Planned policy)
            (check_limits w o (w.clock_planned s.iteration) policy (charged plan.cost t)) _
            (check_limits-Keeps _ policy _ h'.1) (λ _ t' h''. (h'.0, h'')))

  emit_some-Keeps :
      (make : Groups → Event) (found : Option Groups) (s : LoopState)
      → ((groups : Groups) → is_terminal (make groups) ≡ false)
      → At v k s
      → Keep (emit_some make found s)
  emit_some-Keeps make none s quiet h = h
  emit_some-Keeps make (some groups) s quiet h =
      At-emitted v k within s (make groups) (quiet groups) h

  pub elevate_phase-Keeps :
      (policy : SessionPolicy) (plan : TurnToolPolicy) (s : LoopState)
      → Fits max ceiling policy
      → At v k s
      → Ends
          (λ p t. Fits max ceiling p × At v k t)
          (Done v)
          (Raised v)
          (elevate_phase w o policy plan s)
  unfolding elevate_phase
  elevate_phase-Keeps policy plan s fits h =
      let e = consider_elevation plan.dropped_groups s.elevation_count policy in
      let after = λ (p : SessionPolicy) (t : LoopState). Fits max ceiling p × At v k t in
      Ends-and_then (Done v) (Raised v) G after
        (emit_some tool_policy_elevated e.elevated
          (record s { elevation_count = e.elevation_count }))
        _ (emit_some-Keeps tool_policy_elevated e.elevated _ (λ _. refl) h)
        (λ _ t h'.
          Ends-and_then (Done v) (Raised v) G after (emit_some capability_requested e.requested t) _
            (emit_some-Keeps capability_requested e.requested t (λ _. refl) h')
            (λ _ t' h''.
              (elevated-Fits max ceiling plan.dropped_groups s.elevation_count policy fits, h'')))
