-- ===== src/Planning/Graph/Ready.antt =====
-- planning/graph.py, `get_ready_steps`: which steps are ready.
use kaos_agents.Prelude.{
  ◌≡◌, refl, subst, inl, inr, Bool-cases, ◌↔◌, ◌&&◌, Bool, true, false, List, [], ◌∷◌, String, all,
  arith,
}
use kaos_agents.Prelude.Equality.{◌==◌, string_key, contains, contains-filter}
use kaos_agents.Planning.Graph.{Graphs, is_pending, is_completed, has, get_ready_steps}

module _ {G : Type 0} (lib : Graphs G) where
  all-contains :
      (p : String → Bool) (xs : List String) (y : String)
      → all p xs ≡ true
      → contains xs y ≡ true
      → p y ≡ true
  unfolding contains
  all-contains p [] y h e = absurd (clash e)
    where
      clash : false ≡ true → ⊥
      clash e = cc
  all-contains p (x ∷ xs) y h e = elim (Bool-cases (x == y)) [
    | inl same ↦ subst (λ z. p z ≡ true) ((string_key.equal_iff x y).0 same) (ground arith)
    | inr other ↦ all-contains p xs y (ground arith) (rw other at e)
  ]

  contains-all :
      (p : String → Bool) (xs : List String)
      → ((y : String) → contains xs y ≡ true → p y ≡ true)
      → all p xs ≡ true
  unfolding contains
  contains-all p [] h = refl
  contains-all p (x ∷ xs) h =
      rw (h x (rw ((string_key.equal_iff x x).1 refl) refl))
        (contains-all p xs (λ y e. h y (ground arith)))

  -- A step is ready exactly if it is a pending step of the graph whose predecessors are all
  -- completed.
  pub get_ready_steps_iff :
      (s : String) (g : G)
      → (contains (get_ready_steps lib g) s ≡ true)
        ↔ (contains (lib.node_ids g) s ≡ true)
          × (has lib is_pending s g ≡ true)
          × ((p : String)
              → contains (lib.predecessors s g) p ≡ true
              → has lib is_completed p g ≡ true)
  unfolding get_ready_steps
  get_ready_steps_iff s g =
      let kept =
        contains-filter
          (λ t.
            has lib is_pending t g && all (λ p. has lib is_completed p g) (lib.predecessors t g))
          (lib.node_ids g) s in
      let preds = lib.predecessors s g in
      (
        λ h. (
          ground (arith, kept),
          ground (arith, kept),
          λ p e. all-contains (λ q. has lib is_completed q g) preds p (ground (arith, kept)) e,
        ),
        λ (known, waits, done).
            let all_done = contains-all (λ q. has lib is_completed q g) preds done in
            ground (arith, kept),
      )
