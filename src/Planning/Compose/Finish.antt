-- ===== src/Planning/Compose/Finish.antt =====
-- planning/compose.py: how the outer loop ends, and what its stop reason means.
use kaos_agents.Prelude.{
  ℕ, zero, suc, ◌<◌, ◌≡◌, ◌≢◌, ◌⊎◌, inl, inr, refl, ap, subst, Bool, true, false, Option, none,
  some, List, [], ◌∷◌, ◌&&◌, String, Bool-cases, arith,
}
use kaos_agents.Prelude.Equality.{string_key, contains}
use kaos_agents.Planning.Budget.{success, PlanBudget}
use kaos_agents.Planning.Graph.{
  Graphs, GraphLaws, is_pending, has, get_ready_steps, is_complete, has_failures, get_results,
}
use kaos_agents.Planning.Graph.Ready.{get_ready_steps_iff}
use kaos_agents.Planning.Graph.Progress.{
  Advances, Advances-refl, Advances-trans, pending_steps, Advances-pending_steps,
}
use kaos_agents.Planning.Compose.{
  Setting, State, is_success, pass_gate, execute_steps, proceed, turn, loop, finish, compose,
}
use kaos_agents.Planning.Compose.Marks.{
  stays_settled, pass_gate-Advances, Passes, pass_gate-Passes, execute_steps-Advances,
  execute_steps-pending, process-Advances,
}

module _ {G : Type 0} (lib : Graphs G) (laws : GraphLaws lib) (setting : Setting G) where
  -- What a turn on the first ready step `s` leaves if the loop goes on.
  abbrev MovesOn : String → State G → State G × Bool → Type 0
  MovesOn s st (next, goes_on) =
      goes_on ≡ true → Advances lib st.graph next.graph × (has lib is_pending s next.graph ≡ false)

  proceed-MovesOn :
      (s : String) (gated : State G) (survivors : List String) (goal : Option String)
      → Passes lib laws setting s (gated, survivors)
      → MovesOn s gated (proceed lib setting gated survivors goal)
  unfolding proceed
  proceed-MovesOn s gated survivors (some goal) h e = absurd (clash e)
    where
      clash : false ≡ true → ⊥
      clash p = cc
  proceed-MovesOn s gated [] none (inl settled) e = (Advances-refl lib gated.graph, settled)
  proceed-MovesOn s gated [] none (inr (others, p)) e = absurd (clash p)
    where
      clash : [] ≡ s ∷ others → ⊥
      clash q = cc
  proceed-MovesOn s gated (survivor ∷ others) none h e =
      let ran = execute_steps-Advances lib laws setting (survivor ∷ others) gated.graph in
      let processed = process-Advances lib laws setting _ _ in
      let all = Advances-trans lib ran processed in
      (
        all,
        elim h [
          | inl settled ↦ stays_settled lib laws setting s _ _ all settled
          | inr (rest, p) ↦ stays_settled lib laws setting s _ _ processed (
              subst
                (λ v.
                  has lib is_pending v (execute_steps lib setting (survivor ∷ others) gated.graph).0
                  ≡ false)
                (head_eq survivor s others rest p)
                (execute_steps-pending lib laws setting survivor others gated.graph))
        ],
      )
    where
      head_eq : (x y : String) (xs ys : List String) → x ∷ xs ≡ y ∷ ys → x ≡ y
      head_eq x y xs ys q = cc

  turn-MovesOn :
      (s : String) (ready : List String) (st : State G)
      → MovesOn s st (turn lib setting (s ∷ ready) st)
  unfolding turn
  turn-MovesOn s ready st e =
      let prior = get_results lib st.graph in
      let (gated, survivors) = pass_gate lib setting prior (s ∷ ready) st in
      let (a, settled) =
        proceed-MovesOn s gated survivors gated.pivot_goal
          (pass_gate-Passes lib laws setting prior s ready st) e in
      (Advances-trans lib (pass_gate-Advances lib laws setting prior (s ∷ ready) st) a, settled)

  -- One turn from a state with a ready step leaves fewer pending steps, if the loop goes on.
  turn-pending_steps :
      (s : String) (ready : List String) (st : State G)
      → get_ready_steps lib st.graph ≡ s ∷ ready
      → (turn lib setting (s ∷ ready) st).1 ≡ true
      → pending_steps lib (turn lib setting (s ∷ ready) st).0.graph < pending_steps lib st.graph
  unfolding contains
  turn-pending_steps s ready st e goes_on =
      let (a, settled) = turn-MovesOn s ready st goes_on in
      let (known, waits, _) =
        (get_ready_steps_iff lib s st.graph).0
          (rw e (rw ((string_key.equal_iff s s).1 refl) refl)) in
      Advances-pending_steps lib st.graph _ s a known waits settled

  ready_cases : (xs : List String) → (xs ≡ []) ⊎ ((y : String) × (ys : List String) × (xs ≡ y ∷ ys))
  ready_cases [] = inl refl
  ready_cases (y ∷ ys) = inr (y, ys, refl)

  some≢none : (st : State G) → some st ≢ none
  some≢none st e = cc

  loop_ends :
      (fuel : ℕ) (st : State G)
      → pending_steps lib st.graph < fuel
      → loop lib setting fuel st ≢ none
  unfolding loop
  loop_ends zero st h = absurd (omega (arith, h))
  loop_ends (suc fuel) st h = elim (Bool-cases (is_complete lib st.graph)) [
    | inl done ↦ rw (done, loop) (some≢none st)
    | inr open_steps ↦
        rw (open_steps, loop)
          (elim (ready_cases (get_ready_steps lib st.graph)) [
            | inl stuck ↦ rw stuck (some≢none _)
            | inr (s, ready, e) ↦ rw e (elim (Bool-cases (turn lib setting (s ∷ ready) st).1) [
              | inl goes_on ↦ rw goes_on (
                  loop_ends fuel (turn lib setting (s ∷ ready) st).0
                    (omega (arith, h, turn-pending_steps s ready st e goes_on)))
              | inr ended ↦ rw ended (some≢none _)
            ])
          ])
  ]

  -- More turns than there are pending steps are enough for the execution to come to its end.
  pub compose_ends :
      (fuel : ℕ) (budget : PlanBudget) (g : G)
      → pending_steps lib g < fuel
      → compose lib setting fuel budget g ≢ none
  unfolding compose
  compose_ends fuel budget g h e = loop_ends fuel _ h (lowered _ e)
    where
      lowered :
          (o : Option (State G))
          → elim o as (λ _. Option (State G)) [
            | none ↦ none
            | some st ↦ some (finish lib setting st)
          ]
            ≡ none
          → o ≡ none
      lowered none e = refl
      lowered (some st) e = absurd (some≢none _ e)

  proceed_stops :
      (gated : State G) (survivors : List String) (goal : Option String)
      → let (next, goes_on) = proceed lib setting gated survivors goal in
        goes_on ≡ false → is_success next.final_stop ≡ false
  unfolding proceed
  proceed_stops gated survivors (some goal) e = refl
  proceed_stops gated [] none e = absurd (clash e)
    where
      clash : true ≡ false → ⊥
      clash p = cc
  proceed_stops gated (survivor ∷ others) none e = e

  turn_stops :
      (ready : List String) (st : State G)
      → (turn lib setting ready st).1 ≡ false
      → is_success (turn lib setting ready st).0.final_stop ≡ false
  unfolding turn
  turn_stops ready st e = proceed_stops _ _ _ e

  -- A success is only reported of a complete plan.
  abbrev Honest : Option (State G) → Type 0
  Honest none = Unit
  Honest (some end) = is_success end.final_stop ≡ true → is_complete lib end.graph ≡ true

  clash : {b : Bool} → b ≡ false → b ≡ true → ⊥
  clash e f = cc

  loop-Honest : (fuel : ℕ) (st : State G) → Honest (loop lib setting fuel st)
  unfolding loop
  loop-Honest zero st = elim (Bool-cases (is_complete lib st.graph)) [
    | inl done ↦ rw (done, loop) (λ _. done)
    | inr open_steps ↦ rw (open_steps, loop) tt
  ]
  loop-Honest (suc fuel) st = elim (Bool-cases (is_complete lib st.graph)) [
    | inl done ↦ rw (done, loop) (λ _. done)
    | inr open_steps ↦
        rw (open_steps, loop)
          (elim (ready_cases (get_ready_steps lib st.graph)) [
            | inl stuck ↦ rw stuck (λ h. absurd (clash refl h))
            | inr (s, ready, e) ↦ rw e (elim (Bool-cases (turn lib setting (s ∷ ready) st).1) [
              | inl goes_on ↦ rw goes_on (loop-Honest fuel (turn lib setting (s ∷ ready) st).0)
              | inr ended ↦ rw ended (λ h. absurd (clash (turn_stops (s ∷ ready) st ended) h))
            ])
          ])
  ]

  finish-Honest :
      (o : Option (State G))
      → Honest o
      → Honest (elim o [ none ↦ none | some st ↦ some (finish lib setting st) ])
  unfolding finish
  finish-Honest none h = tt
  finish-Honest (some st) h =
      elim (Bool-cases (has_failures lib st.graph && is_success st.final_stop)) [
        | inl bad ↦ rw bad (λ e. absurd (clash refl e))
        | inr fine ↦ rw fine h
      ]

  -- If the execution ends with success, every step of the plan is completed or skipped.
  pub compose_success :
      (fuel : ℕ) (budget : PlanBudget) (g : G) (end : State G)
      → compose lib setting fuel budget g ≡ some end
      → end.final_stop ≡ success
      → is_complete lib end.graph ≡ true
  unfolding compose
  compose_success fuel budget g end e h =
      (subst Honest e (finish-Honest _ (loop-Honest fuel _))) (ap is_success h)
