-- ===== src/Turn/Verdicts.antt =====
-- patterns/agentic_loop.py: the goal check, the critics and the decision, for an invariant of the acts.
use kaos_agents.Prelude.{
  ℕ, ◌≤◌, ◌≡◌, refl, ◌∙◌, Bool, true, false, ◌&&◌, List, [], ◌∷◌, arith, String, if◌then◌else◌,
}
use kaos_agents.Planning.GoalCheck.{GoalCheckResult, check_goal, is_satisfied, is_insufficient}
use kaos_agents.Turn.Types.{LoopState, WorkerResult, Reason, goal_checked, consistency_checked}
use kaos_agents.Turn.Critics.{
  Critic, m2, m3, m4, m5, JudgeVerdict, allowed_labels, judge_with_rubric, critic_overrides,
}
use kaos_agents.Turn.Run.{emitted, charged, when, await}
use kaos_agents.Turn.Notes.{Override, replanned}
use kaos_agents.Turn.Refusal.{finish_with}
use kaos_agents.Turn.World.{World, Options, stop}
use kaos_agents.Turn.Decision.{
  goal_phase, run_critics, critics_phase, enabled, is_none, is_repeating, decide_phase,
  judge_result,
}
use kaos_agents.Turn.Ends.{Ends, Ends-and_then, Ends-await, Ends-when, Ends-weaken, Ends-if}
use kaos_agents.Turn.Keeps.{
  Invariant, At, Done, Raised, Keeps, approved, At-Raised, At-emitted, finish_with-Keeps,
}
use kaos_agents.Turn.Phases.{stop-Keeps}

module _ {max : ℕ} {ceiling : List String} (v : Invariant max ceiling) (k : ℕ) (within : k ≤ max)
    (w : World) (o : Options) where
  -- The verdict of the goal check is the newest one.
  abbrev pub Checked : GoalCheckResult → LoopState → Type 0
  Checked verdict s = At v k s × (approved s.acts ≡ is_satisfied verdict)

  goal_phase-Checked :
      (r : WorkerResult) (s : LoopState)
      → At v k s
      → Ends Checked (Done v) (Raised v) (goal_phase w o r s)
  unfolding goal_phase emitted charged approved
  goal_phase-Checked r s h =
      let reply = check_goal (w.lines r.text) (w.goal_checker s.iteration) in
      Ends-and_then (Done v) (Raised v) (λ _ t. At v k t) Checked (await reply s) _
        (Ends-await (Done v) (Raised v) (λ _ t. At v k t) reply s (λ _ _. h)
          (At-Raised v k within s h))
        (λ outcome t h'. (
          At-emitted v k within (charged outcome.cost t) (goal_checked outcome.result s.iteration)
              refl h',
          refl,
        ))

  -- The critics override nothing more.
  abbrev pub Weighed : Bool → List Override → LoopState → Type 0
  Weighed before overrides s = At v k s × (approved s.acts ≡ (before && is_none w o overrides))

  run_critics-Weighed :
      (critics : List Critic) (before : Bool) (s : LoopState)
      → At v k s
      → approved s.acts ≡ before
      → Ends (Weighed before) (Done v) (Raised v) (run_critics w o critics s)
  unfolding run_critics emitted charged approved
  run_critics-Weighed [] before s h e = (h, ground arith)
  run_critics-Weighed (critic ∷ critics) before s h e =
      let reply = judge_with_rubric (allowed_labels critic) (w.judge critic s.iteration) in
      let Same =
        λ (verdict : JudgeVerdict) (t : LoopState). At v k t × (approved t.acts ≡ before) in
      Ends-and_then (Done v) (Raised v) Same (Weighed before) (await reply s) _
        (Ends-await (Done v) (Raised v) Same reply s (λ _ _. (h, e)) (At-Raised v k within s h))
        (λ verdict t h'.
          let over = critic_overrides critic verdict in
          let t' = emitted (consistency_checked critic over) (charged verdict.cost t) in
          Ends-and_then (Done v) (Raised v) (Weighed (if over then false else before))
            (Weighed before) (run_critics w o critics t') _
            (run_critics-Weighed critics (if over then false else before) t'
              (At-emitted v k within (charged verdict.cost t) _ refl h'.0) (ground (arith, h'.1)))
            (λ overrides t'' h''. (h''.0, ground (arith, h''.1))))

  -- If the goal is reached and no critic overrides, the acts say so.
  abbrev pub Judged : GoalCheckResult → List Override → LoopState → Type 0
  Judged verdict overrides s =
      At v k s × ((is_satisfied verdict && is_none w o overrides) ≡ true → approved s.acts ≡ true)

  critics_phase-Judged :
      (verdict : GoalCheckResult) (s : LoopState)
      → Checked verdict s
      → Ends (Judged verdict) (Done v) (Raised v) (critics_phase w o verdict s)
  unfolding critics_phase
  critics_phase-Judged verdict s (h, e) =
      Ends-if (Done v) (Raised v) (Judged verdict) (is_satisfied verdict) _ _ s
        (λ reached.
          Ends-weaken (Done v) (Raised v) (Weighed true) (Judged verdict)
            (run_critics w o (enabled w o (m2 ∷ m3 ∷ m4 ∷ m5 ∷ [])) s)
            (run_critics-Weighed _ true s h (e ∙ reached))
            (λ overrides t h'. (h'.0, λ both. ground (arith, h'.1))))
        (λ missed. (h, λ both. ground arith))

  replanned-At :
      (r : WorkerResult) (verdict : GoalCheckResult) (overrides : List Override) (s : LoopState)
      → At v k s
      → At v k
          (replanned w.mentions_try w.mentioned_tools r.text r.tool_calls_made verdict overrides s)
  unfolding replanned
  replanned-At r verdict [] s h = h
  replanned-At r verdict (x ∷ overrides) s h = h

  decide_phase-Keeps :
      (r : WorkerResult) (verdict : GoalCheckResult) (overrides : List Override) (s : LoopState)
      → Judged verdict overrides s
      → Keeps v k within (decide_phase w o r verdict overrides s)
  unfolding decide_phase
  decide_phase-Keeps r verdict overrides s (h, approves) =
      let G = λ (_ : Unit {0}) (t : LoopState). At v k t in
      let reached = is_satisfied verdict && is_none w o overrides in
      Ends-and_then (Done v) (Raised v) G G (when reached (finish_with Reason.satisfied) s) _
        (Ends-when (Done v) (Raised v) G reached (finish_with Reason.satisfied) s (λ _. h)
          (λ both. finish_with-Keeps v k within Reason.satisfied s (λ _. approves both) h))
        (λ _ t h'.
          Ends-and_then (Done v) (Raised v) G G
            (when (is_insufficient verdict) (finish_with Reason.insufficient_evidence) t) _
            (Ends-when (Done v) (Raised v) G (is_insufficient verdict)
              (finish_with Reason.insufficient_evidence) t (λ _. h')
              (λ _. finish_with-Keeps v k within Reason.insufficient_evidence t (λ e. cc) h'))
            (λ _ t' h''.
              Ends-and_then (Done v) (Raised v) G G
                (when (is_repeating w o r t') (stop w o Reason.stuck_no_progress) t') _
                (Ends-when (Done v) (Raised v) G (is_repeating w o r t')
                  (stop w o Reason.stuck_no_progress) t' (λ _. h'')
                  (λ _. stop-Keeps v k within w o Reason.stuck_no_progress t' (λ e. cc) h''))
                (λ _ t'' h3. replanned-At r verdict overrides t'' h3)))

  pub judge_result-Keeps :
      (r : WorkerResult) (s : LoopState) → At v k s → Keeps v k within (judge_result w o r s)
  unfolding judge_result
  judge_result-Keeps r s h =
      Ends-and_then (Done v) (Raised v) Checked (λ _ t. At v k t) (goal_phase w o r s) _
        (goal_phase-Checked r s h)
        (λ verdict t checked.
          Ends-and_then (Done v) (Raised v) (Judged verdict) (λ _ t. At v k t)
            (critics_phase w o verdict t) _ (critics_phase-Judged verdict t checked)
            (λ overrides t' judged. decide_phase-Keeps r verdict overrides t' judged))
