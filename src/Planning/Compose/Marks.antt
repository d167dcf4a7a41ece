-- ===== src/Planning/Compose/Marks.antt =====
-- planning/compose.py: what the helpers of the loop do to the pending steps.
use kaos_agents.Prelude.{
  ℕ, ltb, ◌≡◌, ◌⊎◌, inl, inr, refl, Bool, true, false, ◌&&◌, List, [], ◌∷◌, String, length,
  Bool-cases,
}
use kaos_agents.Prelude.Equality.{string_key}
use kaos_agents.Planning.Route.{
  Decision, stop_budget, stop_failure, replan, continue_plan, escalate, stop_success,
}
use kaos_agents.Planning.Graph.{
  Graphs, GraphLaws, is_pending, has, mark_running, mark_complete, mark_failed, mark_skipped,
}
use kaos_agents.Planning.Graph.Progress.{
  Advances, Advances-refl, Advances-trans, mark-Advances, mark-pending,
}
use kaos_agents.Planning.Compose.{
  ActResult, Setting, State, skip_all, skip_remaining, skip_dependents, aborts, abort, gate,
  pass_gate, execute_sequential, mark_all_running, execute_parallel, execute_steps, settle, follow,
  process,
}

module _ {G : Type 0} (lib : Graphs G) (laws : GraphLaws lib) (setting : Setting G) where
  -- A step that is not pending stays so.
  pub stays_settled :
      (s : String) (g h : G)
      → Advances lib g h
      → has lib is_pending s g ≡ false
      → has lib is_pending s h ≡ false
  stays_settled s g h a settled = elim (Bool-cases (has lib is_pending s h)) [
    | inl later ↦ absurd (clash (a.was_pending s later) settled)
    | inr settled_later ↦ settled_later
  ]
    where
      clash : {b : Bool} → b ≡ true → b ≡ false → ⊥
      clash e f = cc

  mark_running-Advances : (s : String) (g : G) → Advances lib g (mark_running lib s g)
  unfolding mark_running
  mark_running-Advances s g = mark-Advances lib laws _ s g (λ n. refl)

  mark_running-pending : (s : String) (g : G) → has lib is_pending s (mark_running lib s g) ≡ false
  unfolding mark_running
  mark_running-pending s g = mark-pending lib laws _ s g (λ n. refl)

  mark_skipped-Advances : (s reason : String) (g : G) → Advances lib g (mark_skipped lib s reason g)
  unfolding mark_skipped
  mark_skipped-Advances s reason g = mark-Advances lib laws _ s g (λ n. refl)

  mark_failed-Advances : (s error : String) (g : G) → Advances lib g (mark_failed lib s error g)
  unfolding mark_failed
  mark_failed-Advances s error g = mark-Advances lib laws _ s g (λ n. refl)

  skip_all-Advances :
      (ids : List String) (reason : String) (g : G)
      → Advances lib g (skip_all lib setting ids reason g)
  unfolding skip_all
  skip_all-Advances [] reason g = Advances-refl lib g
  skip_all-Advances (s ∷ ids) reason g = elim (Bool-cases (has lib is_pending s g)) [
    | inl waits ↦ rw waits (
        Advances-trans lib (mark_skipped-Advances s reason g)
          (skip_all-Advances ids reason (mark_skipped lib s reason g)))
    | inr settled ↦ rw settled (skip_all-Advances ids reason g)
  ]

  pub skip_remaining-Advances : (g : G) → Advances lib g (skip_remaining lib setting g)
  unfolding skip_remaining
  skip_remaining-Advances g = skip_all-Advances _ _ g

  pub skip_dependents-Advances :
      (s : String) (g : G) → Advances lib g (skip_dependents lib setting s g)
  unfolding skip_dependents
  skip_dependents-Advances s g = skip_all-Advances _ _ g

  abort-Advances :
      (prior : List (String × String)) (s : String) (st : State G)
      → Advances lib st.graph (abort lib setting prior s st).graph
  unfolding abort
  abort-Advances prior s st =
      Advances-trans lib (mark_skipped-Advances s _ st.graph) (skip_dependents-Advances s _)

  abort-pending :
      (prior : List (String × String)) (s : String) (st : State G)
      → has lib is_pending s (abort lib setting prior s st).graph ≡ false
  unfolding abort mark_skipped
  abort-pending prior s st =
      stays_settled s _ _ (skip_dependents-Advances s _)
        (mark-pending lib laws _ s st.graph (λ n. refl))

  gate-Advances :
      (prior : List (String × String)) (ready : List String) (st : State G)
      → Advances lib st.graph (gate lib setting prior ready st).0.graph
  unfolding gate
  gate-Advances prior [] st = Advances-refl lib st.graph
  gate-Advances prior (s ∷ ready) st = elim (Bool-cases (aborts lib setting prior s st)) [
    | inl stop ↦ rw stop (
        Advances-trans lib (abort-Advances prior s st)
          (gate-Advances prior ready (abort lib setting prior s st)))
    | inr go ↦ rw go (gate-Advances prior ready st)
  ]

  pub pass_gate-Advances :
      (prior : List (String × String)) (ready : List String) (st : State G)
      → Advances lib st.graph (pass_gate lib setting prior ready st).0.graph
  unfolding pass_gate
  pass_gate-Advances [] ready st = Advances-refl lib st.graph
  pass_gate-Advances (p ∷ prior) ready st = gate-Advances (p ∷ prior) ready st

  -- The first ready step is settled by the gate or is the first survivor.
  abbrev pub Passes : String → State G × List String → Type 0
  Passes s (st, survivors) =
      (has lib is_pending s st.graph ≡ false) ⊎ ((others : List String) × (survivors ≡ s ∷ others))

  pub pass_gate-Passes :
      (prior : List (String × String)) (s : String) (ready : List String) (st : State G)
      → Passes s (pass_gate lib setting prior (s ∷ ready) st)
  unfolding pass_gate gate
  pass_gate-Passes [] s ready st = inr (ready, refl)
  pass_gate-Passes (p ∷ prior) s ready st =
      elim (Bool-cases (aborts lib setting (p ∷ prior) s st)) [
        | inl stop ↦ rw stop (
            inl (
              stays_settled s _ _
                (gate-Advances (p ∷ prior) ready (abort lib setting (p ∷ prior) s st))
                (abort-pending (p ∷ prior) s st)))
        | inr go ↦ rw go (inr (_, refl))
      ]

  sequential-Advances :
      (ids : List String) (g : G) → Advances lib g (execute_sequential lib setting ids g).0
  unfolding execute_sequential
  sequential-Advances [] g = Advances-refl lib g
  sequential-Advances (s ∷ ids) g =
      Advances-trans lib (mark_running-Advances s g)
        (sequential-Advances ids (mark_running lib s g))

  mark_all-Advances :
      (ids : List String) (g : G) → Advances lib g (mark_all_running lib setting ids g)
  unfolding mark_all_running
  mark_all-Advances [] g = Advances-refl lib g
  mark_all-Advances (s ∷ ids) g =
      Advances-trans lib (mark_running-Advances s g) (mark_all-Advances ids (mark_running lib s g))

  pub execute_steps-Advances :
      (ids : List String) (g : G) → Advances lib g (execute_steps lib setting ids g).0
  unfolding execute_steps execute_parallel
  execute_steps-Advances ids g = elim (Bool-cases (setting.parallel && ltb 1 (length ids))) [
    | inl all_at_once ↦ rw all_at_once (mark_all-Advances ids g)
    | inr in_turn ↦ rw in_turn (sequential-Advances ids g)
  ]

  pub execute_steps-pending :
      (s : String) (ids : List String) (g : G)
      → has lib is_pending s (execute_steps lib setting (s ∷ ids) g).0 ≡ false
  unfolding execute_steps execute_parallel execute_sequential mark_all_running
  execute_steps-pending s ids g = elim (Bool-cases (setting.parallel && ltb 1 (length (s ∷ ids)))) [
    | inl all_at_once ↦
        rw all_at_once (stays_settled s _ _ (mark_all-Advances ids _) (mark_running-pending s g))
    | inr in_turn ↦
        rw in_turn (stays_settled s _ _ (sequential-Advances ids _) (mark_running-pending s g))
  ]

  settle-Advances :
      (s : String) (res : ActResult) (g : G) → Advances lib g (settle lib setting s res g)
  unfolding settle mark_complete
  settle-Advances s res g = elim (Bool-cases res.is_error) [
    | inl failed_step ↦ rw failed_step (mark_failed-Advances s _ g)
    | inr done ↦ rw done (mark-Advances lib laws _ s g (λ n. refl))
  ]

  follow-Advances :
      (d : Decision) (s : String) (now : ℕ) (st rest : State G)
      → Advances lib st.graph rest.graph
      → Advances lib st.graph (follow lib setting d s now st rest).graph
  unfolding follow
  follow-Advances stop_budget s now st rest a = skip_remaining-Advances st.graph
  follow-Advances stop_failure s now st rest a = skip_remaining-Advances st.graph
  follow-Advances replan s now st rest a =
      Advances-trans lib (mark_failed-Advances s _ st.graph)
        (Advances-trans lib (skip_dependents-Advances s _) (skip_remaining-Advances _))
  follow-Advances continue_plan s now st rest a = a
  follow-Advances escalate s now st rest a = a
  follow-Advances stop_success s now st rest a = a

  pub process-Advances :
      (results : List (String × ActResult)) (st : State G)
      → Advances lib st.graph (process lib setting results st).graph
  unfolding process
  process-Advances [] st = Advances-refl lib st.graph
  process-Advances ((s, res) ∷ results) st =
      Advances-trans lib (settle-Advances s res st.graph)
        (follow-Advances _ s _ _ _ (process-Advances results _))
