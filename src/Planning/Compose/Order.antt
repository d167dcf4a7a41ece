-- ===== src/Planning/Compose/Order.antt =====
-- planning/compose.py: which steps a turn of the outer loop runs.
use kaos_agents.Prelude.{
  ℕ, ltb, ◌≡◌, refl, ap, inl, inr, ◌&&◌, ◌||◌, Bool, true, false, Option, none, some, List, [], ◌∷◌,
  String, map, length, arith, Bool-cases,
}
use kaos_agents.Prelude.Equality.{◌==◌, string_key, contains}
use kaos_agents.Planning.Route.{
  Decision, continue_plan, escalate, stop_success, stop_budget, stop_failure, replan,
}
use kaos_agents.Planning.Graph.{
  Graphs, is_pending, is_completed, has, mark_running, get_ready_steps, get_results,
}
use kaos_agents.Planning.Graph.Ready.{get_ready_steps_iff}
use kaos_agents.Planning.Compose.{
  ActResult, Setting, State, skip_all, skip_remaining, skip_dependents, aborts, abort, abort_if_of,
  pivot_to_of, gate, pass_gate, execute_sequential, execute_parallel, execute_steps,
  mark_all_running, settle, follow, process, proceed, turn,
}

module _ {G : Type 0} (lib : Graphs G) (setting : Setting G) where
  gate-contains :
      (prior : List (String × String)) (ready : List String) (st : State G) (s : String)
      → contains (gate lib setting prior ready st).1 s ≡ true
      → contains ready s ≡ true
  unfolding gate contains
  gate-contains prior [] st s h = h
  gate-contains prior (r ∷ ready) st s h = elim (Bool-cases (aborts lib setting prior r st)) [
    | inl stop ↦
        let later = gate-contains prior ready (abort lib setting prior r st) s (rw stop at h) in
        ground (arith, later)
    | inr go ↦ widen (r == s) _ _ (rw go at h) (gate-contains prior ready st s)
  ]
    where
      widen : (a b c : Bool) → (a || b) ≡ true → (b ≡ true → c ≡ true) → (a || c) ≡ true
      widen true b c h f = refl
      widen false b c h f = f h

  pass_gate-contains :
      (prior : List (String × String)) (ready : List String) (st : State G) (s : String)
      → contains (pass_gate lib setting prior ready st).1 s ≡ true
      → contains ready s ≡ true
  unfolding pass_gate
  pass_gate-contains [] ready st s h = h
  pass_gate-contains (p ∷ prior) ready st s h = gate-contains (p ∷ prior) ready st s h

-- Two ways to run steps, in the same setting otherwise.
module _ {G : Type 0} (lib : Graphs G) (setting : Setting G)
    (execute : String → G → ActResult) where
  abbrev pub other : Setting G
  other = record setting { execute = execute }

  abbrev pub Agrees : List String → Type 0
  Agrees ids = (s : String) → contains ids s ≡ true → (g : G) → execute s g ≡ setting.execute s g

  Agrees-head :
      (s : String) (ids : List String)
      → Agrees (s ∷ ids)
      → (g : G) → execute s g ≡ setting.execute s g
  unfolding contains
  Agrees-head s ids agree = agree s (ground (arith, (string_key.equal_iff s s).1 refl))

  Agrees-tail : (s : String) (ids : List String) → Agrees (s ∷ ids) → Agrees ids
  unfolding contains
  Agrees-tail s ids agree t h = agree t (ground arith)

  skip_all-other :
      (ids : List String) (reason : String) (g : G)
      → skip_all lib other ids reason g ≡ skip_all lib setting ids reason g
  unfolding skip_all
  skip_all-other [] reason g = refl
  skip_all-other (s ∷ ids) reason g = skip_all-other ids reason _

  skip_remaining-other : (g : G) → skip_remaining lib other g ≡ skip_remaining lib setting g
  unfolding skip_remaining
  skip_remaining-other g = skip_all-other (lib.node_ids g) _ g

  skip_dependents-other :
      (s : String) (g : G) → skip_dependents lib other s g ≡ skip_dependents lib setting s g
  unfolding skip_dependents
  skip_dependents-other s g = skip_all-other (lib.descendants s g) _ g

  abort-other :
      (prior : List (String × String)) (s : String) (st : State G)
      → abort lib other prior s st ≡ abort lib setting prior s st
  unfolding abort abort_if_of pivot_to_of
  abort-other prior s st = rw skip_dependents-other refl

  gate-other :
      (prior : List (String × String)) (ready : List String) (st : State G)
      → gate lib other prior ready st ≡ gate lib setting prior ready st
  unfolding gate aborts abort_if_of
  gate-other prior [] st = refl
  gate-other prior (s ∷ ready) st = rw (abort-other prior s st, gate-other prior ready) refl

  pass_gate-other :
      (prior : List (String × String)) (ready : List String) (st : State G)
      → pass_gate lib other prior ready st ≡ pass_gate lib setting prior ready st
  unfolding pass_gate
  pass_gate-other [] ready st = refl
  pass_gate-other (p ∷ prior) ready st = gate-other (p ∷ prior) ready st

  execute_sequential-other :
      (ids : List String) (g : G)
      → Agrees ids
      → execute_sequential lib other ids g ≡ execute_sequential lib setting ids g
  unfolding execute_sequential
  execute_sequential-other [] g agree = refl
  execute_sequential-other (s ∷ ids) g agree =
      rw
        (
          Agrees-head s ids agree (mark_running lib s g),
          execute_sequential-other ids (mark_running lib s g) (Agrees-tail s ids agree),
        )
        refl

  map-other :
      (ids : List String) (g : G)
      → Agrees ids
      → map {B = String × ActResult} (λ s. (s, execute s g)) ids
        ≡ map (λ s. (s, setting.execute s g)) ids
  map-other [] g agree = refl
  map-other (s ∷ ids) g agree =
      rw (Agrees-head s ids agree g, map-other ids g (Agrees-tail s ids agree)) refl

  mark_all_running-other :
      (ids : List String) (g : G)
      → mark_all_running lib other ids g ≡ mark_all_running lib setting ids g
  unfolding mark_all_running
  mark_all_running-other [] g = refl
  mark_all_running-other (s ∷ ids) g = mark_all_running-other ids (mark_running lib s g)

  execute_steps-other :
      (ids : List String) (g : G)
      → Agrees ids
      → execute_steps lib other ids g ≡ execute_steps lib setting ids g
  unfolding execute_steps execute_parallel
  execute_steps-other ids g agree = elim (Bool-cases (setting.parallel && ltb 1 (length ids))) [
    | inl all_at_once ↦
        rw (all_at_once, mark_all_running-other ids g)
          (ap (λ l. (mark_all_running lib setting ids g, l)) (map-other ids _ agree))
    | inr in_turn ↦ rw in_turn (execute_sequential-other ids g agree)
  ]

  follow-other :
      (d : Decision) (s : String) (now : ℕ) (st a b : State G)
      → a ≡ b
      → follow lib other d s now st a ≡ follow lib setting d s now st b
  unfolding follow
  follow-other stop_budget s now st a b e = rw skip_remaining-other refl
  follow-other stop_failure s now st a b e = rw skip_remaining-other refl
  follow-other replan s now st a b e = rw (skip_remaining-other, skip_dependents-other) refl
  follow-other continue_plan s now st a b e = e
  follow-other escalate s now st a b e = e
  follow-other stop_success s now st a b e = e

  process-other :
      (results : List (String × ActResult)) (st : State G)
      → process lib other results st ≡ process lib setting results st
  unfolding process settle
  process-other [] st = refl
  process-other ((s, res) ∷ results) st = follow-other _ s _ _ _ _ (process-other results _)

  proceed-other :
      (gated : State G) (survivors : List String) (goal : Option String)
      → Agrees survivors
      → proceed lib other gated survivors goal ≡ proceed lib setting gated survivors goal
  unfolding proceed
  proceed-other gated survivors (some goal) agree = rw skip_remaining-other refl
  proceed-other gated [] none agree = refl
  proceed-other gated (survivor ∷ others) none agree =
      rw (execute_steps-other (survivor ∷ others) gated.graph agree, process-other) refl

  -- A turn runs no step but those that are pending at its start and whose predecessors are all completed
  -- then: two ways to run a step that agree on these lead to the same state, and to the same answer whether the
  -- loop goes on, however they differ on other steps and whatever the conditions to abort answer.
  pub turn-ready :
      (st : State G)
      → ((s : String)
          → has lib is_pending s st.graph ≡ true
          → ((p : String)
              → contains (lib.predecessors s st.graph) p ≡ true
              → has lib is_completed p st.graph ≡ true)
          → (g : G) → execute s g ≡ setting.execute s g)
      → turn lib (record setting { execute = execute }) (get_ready_steps lib st.graph) st
        ≡ turn lib setting (get_ready_steps lib st.graph) st
  unfolding turn
  turn-ready st agree =
      let ready = get_ready_steps lib st.graph in
      let prior = get_results lib st.graph in
      let passed = pass_gate lib setting prior ready st in
      rw (pass_gate-other prior ready st) (
        proceed-other passed.0 passed.1 passed.0.pivot_goal (λ s h.
          let (_, waits, done) =
            (get_ready_steps_iff lib s st.graph).0
              (pass_gate-contains lib setting prior ready st s h) in
          agree s waits done))
