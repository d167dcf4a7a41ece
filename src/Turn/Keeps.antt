-- ===== src/Turn/Keeps.antt =====
-- patterns/agentic_loop.py: invariants of the acts, and how a turn that is stopped treats them.
use kaos_agents.Prelude.{
  ℕ, ◌+◌, ◌≤◌, ◌≡◌, ◌≢◌, refl, Bool, true, false, List, [], ◌∷◌, Option, none, some, String, arith,
  if◌then◌else◌,
}
use kaos_agents.Prelude.Equality.{contains, string_key}
use kaos_agents.Prelude.Reply.{Reply, replies, fails, cancelled}
use kaos_agents.Planning.GoalCheck.{GoalCheckOutcome, Line, is_satisfied, check_goal}
use kaos_agents.Session.Policy.{Groups}
use kaos_agents.Turn.Types.{
  LoopState, Event, Act, emits, forwards, calls_worker, Item, Note, Reason, loop_terminated,
  text_delta, goal_checked, consistency_checked, Answer, Intent,
}
use kaos_agents.Turn.Run.{Run, emitted, charged, terminated}
use kaos_agents.Turn.Refusal.{
  deliver, draft_is_complete, rate_draft, emit_failure_refusal, should_preserve_worker_draft,
  stop_for, finish_with, deliver_draft,
}
use kaos_agents.Turn.Ends.{Ends, Ends-and_then, Ends-if}

-- Whether the last check of a goal was satisfied and no critic has overridden it since.
unfoldable pub approved : List Act → Bool
approved [] = false
approved (emits n (goal_checked verdict k) ∷ acts) = is_satisfied verdict
approved (emits n (consistency_checked critic overrode) ∷ acts) =
    if overrode then false else approved acts
approved (a ∷ acts) = approved acts

abbrev pub is_terminal : Event → Bool
is_terminal (loop_terminated reason iterations elevations cost) = true
is_terminal _ = false

-- Each group is below the ceiling.
abbrev pub Below : Groups → Groups → Type 0
Below ceiling groups = (g : String) → contains groups g ≡ true → contains ceiling g ≡ true

-- A property `I` of the acts and their number that every act keeps but the last, which makes it `D`.
-- The worker is called up to `max` times, with groups below the ceiling.
pub record Invariant (max : ℕ) (ceiling : Groups) : Type 1 where
  pub I : ℕ → List Act → Type 0
  pub D : ℕ → List Act → Type 0
  pub emits_I :
      (n : ℕ) (acts : List Act) (e : Event)
      → is_terminal e ≡ false
      → I n acts
      → I (n + 1) (emits (n + 1) e ∷ acts)
  pub forwards_I : (n : ℕ) (acts : List Act) (item : Item) → I n acts → I n (forwards item ∷ acts)
  pub calls_I :
      (n : ℕ) (acts : List Act) (k : ℕ) (groups : Groups) (note : List Note)
      → k ≤ max
      → Below ceiling groups
      → I n acts
      → I n (calls_worker k groups note ∷ acts)
  pub ends_D :
      (n : ℕ) (acts : List Act) (reason : Reason) (k elevations cost : ℕ)
      → k ≤ max
      → (reason ≡ Reason.satisfied → approved acts ≡ true)
      → I n acts
      → D (n + 1) (emits (n + 1) (loop_terminated reason k elevations cost) ∷ acts)

module _ {max : ℕ} {ceiling : Groups} (v : Invariant max ceiling) where
  abbrev pub At : ℕ → LoopState → Type 0
  At k s = (s.iteration ≡ k) × v.I s.sequence s.acts

  abbrev pub Done : LoopState → Type 0
  Done s = v.D s.sequence s.acts

  abbrev pub Raised : LoopState → Type 0
  Raised s = (s.iteration ≤ max) × v.I s.sequence s.acts

  module _ (k : ℕ) (within : k ≤ max) where
    abbrev pub Keeps : {A : Type 0} → Run A → Type 0
    Keeps = Ends (λ _ s. At k s) Done Raised

    pub At-Raised : (s : LoopState) → At k s → Raised s
    At-Raised s h = (omega (arith, h.0), h.1)

    pub At-emitted :
        (s : LoopState) (e : Event) → is_terminal e ≡ false → At k s → At k (emitted e s)
    unfolding emitted
    At-emitted s e quiet h = (h.0, v.emits_I s.sequence s.acts e quiet h.1)

    pub terminated-Done :
        (s : LoopState) (reason : Reason)
        → (reason ≡ Reason.satisfied → approved s.acts ≡ true)
        → At k s
        → Done (terminated reason s)
    unfolding terminated emitted
    terminated-Done s reason approves h =
        v.ends_D s.sequence s.acts reason s.iteration s.elevation_count s.cumulative_cost
          (omega (arith, h.0)) approves h.1

    deliver-Keeps :
        (answer : Answer) (intent : Intent) (s : LoopState)
        → At k s
        → Keeps (deliver answer intent s)
    unfolding deliver
    deliver-Keeps answer intent s h =
        At-emitted (emitted (text_delta answer) s) _ refl (At-emitted s _ refl h)

    deliver_draft-Keeps :
        (reason : Reason) (complete : Bool) (s t : LoopState)
        → At k t
        → Keeps (deliver_draft reason complete s t)
    deliver_draft-Keeps reason true s t h = deliver-Keeps _ _ t h
    deliver_draft-Keeps reason false s t h = deliver-Keeps _ _ t h

    rate_draft-Keeps :
        (reply : Reply GoalCheckOutcome) (s : LoopState) → At k s → Keeps (rate_draft reply s)
    unfolding charged
    rate_draft-Keeps (replies outcome) s h = h
    rate_draft-Keeps (fails message) s h = h
    rate_draft-Keeps cancelled s h = At-Raised s h

    draft_is_complete-Keeps :
        (critic : Option (List Line × Reply GoalCheckOutcome)) (s : LoopState)
        → At k s
        → Keeps (draft_is_complete critic s)
    unfolding draft_is_complete
    draft_is_complete-Keeps none s h = h
    draft_is_complete-Keeps (some (answer, critic)) s h =
        rate_draft-Keeps (check_goal answer critic) s h

    emit_failure_refusal-Keeps :
        (reason : Reason) (critic : Option (List Line × Reply GoalCheckOutcome)) (s : LoopState)
        → At k s
        → Keeps (emit_failure_refusal reason critic s)
    unfolding emit_failure_refusal
    emit_failure_refusal-Keeps reason critic s h =
        Ends-if Done Raised (λ _ t. At k t) (should_preserve_worker_draft s) _ _ s
          (λ _.
            Ends-and_then Done Raised (λ _ t. At k t) (λ _ t. At k t) (draft_is_complete critic s)
              (λ complete t. deliver_draft reason complete s t) (draft_is_complete-Keeps critic s h)
              (λ complete t k'. deliver_draft-Keeps reason complete s t k'))
          (λ _. deliver-Keeps _ _ s h)

    -- The generator returns: it does not go on.
    pub stop_for-Ends :
        (reason : Reason) (critic : Option (List Line × Reply GoalCheckOutcome)) (s : LoopState)
        → reason ≢ Reason.satisfied
        → At k s
        → Ends (λ _ _. ⊥) Done Raised (stop_for reason critic s)
    unfolding stop_for
    stop_for-Ends reason critic s other h =
        Ends-and_then Done Raised (λ _ t. At k t) (λ _ _. ⊥) (emit_failure_refusal reason critic s)
          _ (emit_failure_refusal-Keeps reason critic s h)
          (λ _ t h'. terminated-Done t reason (λ e. absurd (other e)) h')

    pub finish_with-Keeps :
        (reason : Reason) (s : LoopState)
        → (reason ≡ Reason.satisfied → approved s.acts ≡ true)
        → At k s
        → Keeps (finish_with reason s)
    unfolding finish_with
    finish_with-Keeps reason s approves h = terminated-Done s reason approves h
