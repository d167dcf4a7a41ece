-- ===== src/Turn/Drafts.antt =====
-- patterns/agentic_loop.py: which text a stopped turn delivers, and what a round leaves for the next.
use kaos_agents.Prelude.{
  ℕ, suc, ◌≤◌, ltb, ◌+◌, ◌≡◌, refl, subst, Bool, false, ◌&&◌, List, [], ◌∷◌, arith, String,
}
use kaos_agents.Session.Policy.{SessionPolicy}
use kaos_agents.Planning.GoalCheck.{GoalCheckResult, is_satisfied, is_insufficient}
use kaos_agents.Turn.Types.{
  LoopState, WorkerResult, ToolCall, Verification, Reason, no_verdict, Act, emits, turn_summary,
  text_delta, loop_terminated, Answer, refusal, Intent, refuse,
}
use kaos_agents.Turn.Run.{
  Run, goes, returns, raises, out_of_fuel, when, and_then, emitted, terminated,
}
use kaos_agents.Turn.Notes.{Override, with_citations, replanned}
use kaos_agents.Turn.Refusal.{
  should_preserve_worker_draft, is_uncriticized, emit_failure_refusal, deliver, deliver_refusal,
  stop_for, finish_with,
}
use kaos_agents.Turn.Loop.{run_loop}
use kaos_agents.Turn.World.{World, Options, stop, draft_check}
use kaos_agents.Turn.Decision.{
  judge_result, goal_phase, critics_phase, decide_phase, is_none, is_repeating,
}
use kaos_agents.Turn.Iteration.{
  iterate, begin_iteration, plan_phase, elevate_phase, work_phase, after_work, verify_phase,
  limits_phase,
}

-- The note for the next call of the worker is written anew: what the verification of the citations
-- had put into it is lost, whatever it found.
pub replanned-with_citations :
    (mentions_try : String → Bool) (mentioned_tools : String → List String) (text : String)
    (calls : List ToolCall) (verdict : GoalCheckResult) (overrides : List Override)
    (found : List Verification) (s : LoopState)
    → replanned mentions_try mentioned_tools text calls verdict overrides (with_citations found s)
      ≡ replanned mentions_try mentioned_tools text calls verdict overrides s
unfolding replanned with_citations
replanned-with_citations m t text calls verdict [] found s = refl
replanned-with_citations m t text calls verdict (x ∷ overrides) found s = refl

-- The last acts are a text, its summary and the end of the loop.
abbrev pub Delivered : Reason → Answer → Intent → List Act → Type 0
Delivered reason answer intent
      (emits n (loop_terminated why k elevations cost)
        ∷ emits m (turn_summary text given cost')
        ∷ emits l (text_delta shown)
        ∷ acts) =
    (why ≡ reason) × (text ≡ answer) × (given ≡ intent) × (shown ≡ answer)
Delivered reason answer intent _ = ⊥

abbrev pub Delivers : {A : Type 0} → Reason → Answer → Intent → Run A → Type 0
Delivers reason answer intent (returns s) = Delivered reason answer intent s.acts
Delivers reason answer intent _ = ⊥

-- What holds if the run goes on.
abbrev Goes : {A : Type 0} → (A → LoopState → Type 0) → Run A → Type 0
Goes G (goes a s) = G a s
Goes G (returns s) = Unit
Goes G (raises e s) = Unit
Goes G (out_of_fuel s) = Unit

Goes-and_then :
    {A B : Type 0} (G : B → LoopState → Type 0) (r : Run A) (f : A → LoopState → Run B)
    → ((a : A) (s : LoopState) → Goes G (f a s))
    → Goes G (and_then r f)
Goes-and_then G (goes a s) f h = h a s
Goes-and_then G (returns s) f h = tt
Goes-and_then G (raises e s) f h = tt
Goes-and_then G (out_of_fuel s) f h = tt

Goes-through :
    {A B : Type 0} (G : A → LoopState → Type 0) (H : B → LoopState → Type 0) (r : Run A)
    (f : A → LoopState → Run B)
    → Goes G r
    → ((a : A) (s : LoopState) → G a s → Goes H (f a s))
    → Goes H (and_then r f)
Goes-through G H (goes a s) f h k = k a s h
Goes-through G H (returns s) f h k = tt
Goes-through G H (raises e s) f h k = tt
Goes-through G H (out_of_fuel s) f h k = tt

module _ (w : World) (o : Options) where
  -- A critic has rejected the text of the round.
  abbrev Rejected : LoopState → Type 0
  Rejected s = is_uncriticized s.last_terminal_verdict ≡ false

  replanned-Rejected :
      (r : WorkerResult) (verdict : GoalCheckResult) (overrides : List Override) (s : LoopState)
      → Rejected
          (replanned w.mentions_try w.mentioned_tools r.text r.tool_calls_made verdict overrides s)
  unfolding replanned
  replanned-Rejected r verdict [] s = refl
  replanned-Rejected r verdict (x ∷ overrides) s = refl

  judge_result-Rejected :
      (r : WorkerResult) (s : LoopState) → Goes (λ _ t. Rejected t) (judge_result w o r s)
  unfolding judge_result decide_phase
  judge_result-Rejected r s =
      let C = λ (_ : Unit {0}) (t : LoopState). Rejected t in
      Goes-and_then C (goal_phase w o r s) _ λ verdict s1.
        Goes-and_then C (critics_phase w o verdict s1) _ λ overrides s2.
          Goes-and_then C
            (when (is_satisfied verdict && is_none w o overrides) (finish_with Reason.satisfied) s2)
            _
            λ _ s3.
              Goes-and_then C
                (when (is_insufficient verdict) (finish_with Reason.insufficient_evidence) s3) _
                λ _ s4.
                  Goes-and_then C
                    (when (is_repeating w o r s4) (stop w o Reason.stuck_no_progress) s4) _
                    λ _ s5. replanned-Rejected r verdict overrides s5

  iterate-Rejected :
      (policy : SessionPolicy) (s : LoopState) → Goes (λ _ t. Rejected t) (iterate w o policy s)
  unfolding iterate begin_iteration after_work
  iterate-Rejected policy s =
      let C = λ (_ : SessionPolicy) (t : LoopState). Rejected t in
      let s0 = record s { iteration = s.iteration + 1; last_terminal_verdict = no_verdict } in
      Goes-and_then C (plan_phase w o policy s0) _ λ plan s1.
        Goes-and_then C (elevate_phase w o policy plan s1) _ λ elevated s2.
          Goes-and_then C (work_phase w o elevated plan s2) _ λ received s3.
            Goes-and_then C (verify_phase w o received.0 s3) _ λ _ s4.
              Goes-and_then C (limits_phase w o elevated received.0 received.1 s4) _ λ _ s5.
                Goes-through (λ _ t. Rejected t) C (judge_result w o received.0 s5) _
                  (judge_result-Rejected received.0 s5) (λ _ t h. h)

  refusal_after :
      (reason : Reason) (t : LoopState)
      → Rejected t
      → emit_failure_refusal reason (draft_check w o t) t ≡ deliver_refusal reason t t
  unfolding emit_failure_refusal should_preserve_worker_draft
  refusal_after reason t h = ground (arith, h)

  -- When the iterations are used up after a round that the loop goes on from, which some check has
  -- rejected, the text of the round is not delivered: the turn ends with a refusal.
  pub run_loop-refuses :
      (fuel : ℕ) (policy next : SessionPolicy) (s t : LoopState)
      → iterate w o policy s ≡ goes next t
      → next.max_loop_iterations ≤ t.iteration
      → Delivers Reason.max_iterations
          (refusal Reason.max_iterations t.iteration t.last_critic_rationale
            t.last_critic_next_action)
          refuse
          (run_loop w o (suc fuel) next t)
  unfolding run_loop stop stop_for deliver terminated emitted
  run_loop-refuses fuel policy next s t h used =
      let last : ltb t.iteration next.max_loop_iterations ≡ false = ground arith in
      let rejected = subst (Goes (λ _ t'. Rejected t')) h (iterate-Rejected policy s) in
      rw last (rw (refusal_after Reason.max_iterations t rejected) (refl, refl, refl, refl))
