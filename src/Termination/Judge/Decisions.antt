-- ===== src/Termination/Judge/Decisions.antt =====
-- termination/judge.py: when a run is complete, and the shape of every decision.
use kaos_agents.Prelude.{
  sym, ◌∙◌, All, ◌≡◌, ◌≢◌, ◌↔◌, refl, true, false, Option, none, some, List, [], ◌∷◌, subst, String,
  arith, inl, inr, Option-cases, Bool-cases,
}
use kaos_agents.Prelude.Equality.{◌==◌, string_key}
use kaos_agents.Termination.Judge.{
  complete, incomplete, budget_exceeded, quality_failed, degraded, Decision, TerminationJudge,
  Iteration, DegradationPolicy, evaluate, maybe_degrade, over_budget, failure_in, newest, Event,
  run_error, evidence_insufficient, grounding_refusal_triggered, other_event, watch, poor, conclude,
  forward,
}

-- How the fields of a decision go with its kind: only an incomplete run goes on and may be planned
-- anew, and exactly a degraded run has a partial result, which is not asked to be escalated.
abbrev pub IsWellFormed : Decision → Type 0
IsWellFormed d =
    ((d.is_complete ≡ false) ↔ (d.kind ≡ incomplete))
    × ((d.allows_replan ≡ true) ↔ (d.kind ≡ incomplete))
    × ((d.partial_result ≢ none) ↔ (d.kind ≡ degraded))
    × (d.should_escalate ≡ true → (d.kind ≢ degraded) × (d.kind ≢ complete))

maybe_degrade_budget :
    (t : String) (p : DegradationPolicy)
    → let d = maybe_degrade budget_exceeded t p in IsWellFormed d × (d.kind ≢ complete)
unfolding maybe_degrade
maybe_degrade_budget t p = elim (Bool-cases (evaluate budget_exceeded t p)) [
  | inl accepted ↦ rw accepted (ground arith)
  | inr refused ↦ rw refused (ground arith)
]

maybe_degrade_quality :
    (t : String) (p : DegradationPolicy)
    → let d = maybe_degrade quality_failed t p in IsWellFormed d × (d.kind ≢ complete)
unfolding maybe_degrade
maybe_degrade_quality t p = elim (Bool-cases (evaluate quality_failed t p)) [
  | inl accepted ↦ rw accepted (ground arith)
  | inr refused ↦ rw refused (ground arith)
]

-- A decision that the events ask for.
abbrev FromEvents : Option Decision → Type 0
FromEvents none = Unit
FromEvents (some d) = IsWellFormed d × (d.kind ≢ complete)

failure_in_decision :
    (events : List Event) (d : Decision)
    → failure_in events ≡ some d
    → IsWellFormed d × (d.kind ≢ complete)
unfolding failure_in
failure_in_decision [] d e = absurd (nothing d e)
  where
    nothing : (d : Decision) → none ≡ some d → ⊥
    nothing d e = cc
failure_in_decision (run_error ∷ events) d e = subst (λ o. FromEvents o) e (ground arith)
failure_in_decision (evidence_insufficient ∷ events) d e =
    subst (λ o. FromEvents o) e (ground arith)
failure_in_decision (grounding_refusal_triggered ∷ events) d e =
    subst (λ o. FromEvents o) e (ground arith)
failure_in_decision (other_event ∷ events) d e = failure_in_decision events d e

conclude_decision :
    (j : TerminationJudge) (t : String)
    → let d = conclude j t in
      IsWellFormed d × ((d.kind ≡ complete) ↔ (poor j t ≡ false) × ((t == "") ≡ false))
unfolding conclude
conclude_decision j t = elim (Bool-cases (poor j t)) [
  | inl bad ↦
      let (shape, other) = maybe_degrade_quality t j.degrade in
      rw bad (shape, ((λ e. absurd (other e)), (λ (fine, _). absurd (clash fine))))
  | inr good ↦ rw good (elim (Bool-cases (t == "")) [
    | inl empty ↦ rw empty (ground arith)
    | inr text ↦ rw text (ground arith)
  ])
]
  where
    clash : true ≡ false → ⊥
    clash e = cc

failure_in-none :
    (events : List Event) → (failure_in events ≡ none) ↔ All (λ e. e ≡ other_event) events
unfolding failure_in
failure_in-none [] = ((λ e. tt), (λ h. refl))
failure_in-none (run_error ∷ events) = ((λ e. absurd (found e)), (λ (e, _). absurd (other e)))
  where
    found : {d : Decision} → some d ≡ none → ⊥
    found e = cc

    other : run_error ≡ other_event → ⊥
    other e = cc
failure_in-none (evidence_insufficient ∷ events) =
    ((λ e. absurd (found e)), (λ (e, _). absurd (other e)))
  where
    found : {d : Decision} → some d ≡ none → ⊥
    found e = cc

    other : evidence_insufficient ≡ other_event → ⊥
    other e = cc
failure_in-none (grounding_refusal_triggered ∷ events) =
    ((λ e. absurd (found e)), (λ (e, _). absurd (other e)))
  where
    found : {d : Decision} → some d ≡ none → ⊥
    found e = cc

    other : grounding_refusal_triggered ≡ other_event → ⊥
    other e = cc
failure_in-none (other_event ∷ events) =
    let (to, from) = failure_in-none events in ((λ e. (refl, to e)), (λ (_, h). from h))

-- Every decision is well formed, and a run is reported complete exactly if there is a result, no
-- budget is used up, none of the last twenty events is a failure, no loop is detected, and the quality
-- is not below the minimum.
pub forward_complete :
    (i : Iteration) (j : TerminationJudge)
    → let d = (forward i j).1 in
      IsWellFormed d
      × ((d.kind ≡ complete)
          ↔ (over_budget j i ≡ false)
            × All (λ e. e ≡ other_event) (newest 20 i.events)
            × ((watch i.step_signature j.loop_detector).1 ≡ false)
            × (poor j i.partial_text ≡ false)
            × ((i.partial_text == "") ≡ false))
unfolding forward
forward_complete i j = elim (Bool-cases (over_budget j i)) [
  | inl over ↦
      let (shape, other) = maybe_degrade_budget i.partial_text j.degrade in
      rw over (shape, ((λ e. absurd (other e)), (λ (within, _, _, _, _). absurd (clash within))))
  | inr within ↦ rw within (elim (Option-cases (failure_in (newest 20 i.events))) [
    | inr (d, failed) ↦
        let (shape, other) = failure_in_decision (newest 20 i.events) d failed in
        rw failed (
          shape,
          (
            (λ e. absurd (other e)),
            (λ (_, fine, _, _, _).
                absurd (nothing d (sym failed ∙ (failure_in-none (newest 20 i.events)).1 fine))),
          ),
        )
    | inl fine ↦ rw fine (elim (Bool-cases (watch i.step_signature j.loop_detector).1) [
      | inl looping ↦ rw looping (ground arith)
      | inr moving ↦
          let (shape, (to, from)) = conclude_decision j i.partial_text in
          rw moving (
            shape,
            (
              (λ e.
                  (refl, (failure_in-none (newest 20 i.events)).0 fine, refl, (to e).0, (to e).1)),
              (λ (_, _, _, good, text). from (good, text)),
            ),
          )
    ])
  ])
]
  where
    clash : true ≡ false → ⊥
    clash e = cc

    nothing : (d : Decision) → some d ≡ none → ⊥
    nothing d e = cc
