-- ===== src/Turn/Ending.antt =====
-- patterns/agentic_loop.py: how `run_agentic_turn` ends.
use kaos_agents.Prelude.{ℕ, zero, suc, ◌+◌, ◌≤◌, ◌<◌, refl, List, [], arith, ltb}
use kaos_agents.Session.Policy.{SessionPolicy, Groups}
use kaos_agents.Turn.Types.{LoopState, Reason, WorkerResult, Item, no_verdict}
use kaos_agents.Turn.Run.{Run, goes, returns, raises, out_of_fuel, interrupted, failed, and_then}
use kaos_agents.Turn.World.{World, Options, stop}
use kaos_agents.Turn.Decision.{judge_result}
use kaos_agents.Turn.Iteration.{
  iterate, begin_iteration, plan_phase, elevate_phase, work_phase, verify_phase, limits_phase,
  after_work,
}
use kaos_agents.Turn.Loop.{run_loop, finalize, initial, run_agentic_turn}
use kaos_agents.Turn.Ends.{Ends, Ends-and_then, Ends-either}
use kaos_agents.Turn.Keeps.{Invariant, At, Done, Raised, terminated-Done}
use kaos_agents.Turn.Phases.{Fits, Planned, plan_phase-Keeps, elevate_phase-Keeps, stop-Ends}
use kaos_agents.Turn.Labor.{
  work_phase-Keeps, verify_phase-Keeps, limits_phase-Keeps, effective_groups-Below,
}
use kaos_agents.Turn.Verdicts.{judge_result-Keeps}

module _ {max : ℕ} {ceiling : Groups} (v : Invariant max ceiling) (w : World) (o : Options) where
  -- A round leaves a policy for the next one.
  abbrev Next : ℕ → SessionPolicy → LoopState → Type 0
  Next k policy s = Fits max ceiling policy × At v k s

  -- The round after the worker's call.
  after_work-Next :
      (k : ℕ) (within : k ≤ max) (elevated : SessionPolicy) (received : WorkerResult × List Item)
      (s : LoopState)
      → Next k elevated s
      → Ends (Next k) (Done v) (Raised v) (after_work w o elevated received s)
  unfolding after_work
  after_work-Next k within elevated received s (fits, h) =
      let G = λ (_ : Unit {0}) (t : LoopState). At v k t in
      Ends-and_then (Done v) (Raised v) G (Next k) (verify_phase w o received.0 s) _
        (verify_phase-Keeps v k within w o received.0 s h)
        (λ _ t h'.
          Ends-and_then (Done v) (Raised v) G (Next k)
            (limits_phase w o elevated received.0 received.1 t) _
            (limits_phase-Keeps v k within w o elevated received.0 received.1 t h')
            (λ _ t' h''.
              Ends-and_then (Done v) (Raised v) G (Next k) (judge_result w o received.0 t') _
                (judge_result-Keeps v k within w o received.0 t' h'') (λ _ t'' h3. (fits, h3))))

  iterate-Next :
      (k : ℕ) (policy : SessionPolicy) (s : LoopState)
      → suc k ≤ max
      → Next k policy s
      → Ends (Next (suc k)) (Done v) (Raised v) (iterate w o policy s)
  unfolding iterate begin_iteration
  iterate-Next k policy s within (fits, h) =
      let K = suc k in
      let s0 = record s { iteration = s.iteration + 1; last_terminal_verdict = no_verdict } in
      let h0 : At v K s0 = (omega (arith, h.0), h.1) in
      Ends-and_then (Done v) (Raised v) (Planned v K within w o policy) (Next K)
        (plan_phase w o policy s0) _ (plan_phase-Keeps v K within w o policy s0 h0)
        (λ plan s1 planned.
          Ends-and_then (Done v) (Raised v) (Next K) (Next K) (elevate_phase w o policy plan s1) _
            (elevate_phase-Keeps v K within w o policy plan s1 fits planned.1)
            (λ elevated s2 next.
              Ends-and_then (Done v) (Raised v) (λ _ t. At v K t) (Next K)
                (work_phase w o elevated plan s2) _
                (work_phase-Keeps v K within w o elevated plan s2
                  (effective_groups-Below v K within w o policy elevated plan fits next.0 planned.0)
                  next.1)
                (λ received s3 h3. after_work-Next K within elevated received s3 (next.0, h3))))

  run_loop-Ends :
      (fuel : ℕ) (policy : SessionPolicy) (s : LoopState)
      → s.iteration ≤ max
      → max < fuel + s.iteration
      → Next s.iteration policy s
      → Ends (λ _ _. ⊥) (Done v) (Raised v) (run_loop w o fuel policy s)
  unfolding run_loop
  run_loop-Ends zero policy s within enough h = absurd (omega arith)
  run_loop-Ends (suc fuel) policy s within enough (fits, h) =
      Ends-either (Done v) (Raised v) (λ _ _. ⊥) (ltb s.iteration policy.max_loop_iterations)
        (and_then (iterate w o policy s) (λ next s'. run_loop w o fuel next s'))
        (stop w o Reason.max_iterations s)
        (λ more.
          let within' : suc s.iteration ≤ max = ground (arith, fits.2) in
          Ends-and_then (Done v) (Raised v) (Next (suc s.iteration)) (λ _ _. ⊥)
            (iterate w o policy s) _ (iterate-Next s.iteration policy s within' (fits, h))
            (λ next t h'.
              run_loop-Ends fuel next t (omega (arith, h'.1.0)) (omega (arith, h'.1.0))
                (h'.0, (refl, h'.1.1))))
        (λ enough. stop-Ends v s.iteration within w o Reason.max_iterations s (λ e. cc) h)

  -- The run returns or is cancelled with the last act done, or another exception leaves it without.
  abbrev pub Concludes : Run (Unit {0}) → Type 0
  Concludes (returns s) = Done v s
  Concludes (raises interrupted s) = Done v s
  Concludes (raises (failed message) s) = v.I s.sequence s.acts
  Concludes (goes a s) = ⊥
  Concludes (out_of_fuel s) = ⊥

  finalize-Concludes :
      (r : Run (Unit {0})) → Ends (λ _ _. ⊥) (Done v) (Raised v) r → Concludes (finalize w o r)
  finalize-Concludes (returns s) h = h
  finalize-Concludes (raises interrupted s) h =
      terminated-Done v s.iteration h.0 s Reason.user_interrupt (λ e. cc) (refl, h.1)
  finalize-Concludes (goes a s) h = elim h [ ]
  finalize-Concludes (out_of_fuel s) h = elim h [ ]
  finalize-Concludes (raises (failed message) s) h = h.1

  pub run_agentic_turn-Concludes :
      (policy : SessionPolicy)
      → Fits max ceiling policy
      → v.I 0 []
      → Concludes (run_agentic_turn w o policy)
  unfolding run_agentic_turn
  run_agentic_turn-Concludes policy fits start =
      finalize-Concludes (run_loop w o (suc policy.max_loop_iterations) policy initial) (
        run_loop-Ends (suc policy.max_loop_iterations) policy initial (omega arith)
          (omega (arith, fits.2)) (fits, (refl, start)))
