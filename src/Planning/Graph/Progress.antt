-- ===== src/Planning/Graph/Progress.antt =====
-- planning/graph.py: the number of pending steps, and what the marks do to it.
use kaos_agents.Prelude.{
  ℕ, ◌+◌, ◌≤◌, ◌<◌, ◌≡◌, inl, inr, refl, ◌∙◌, ap, Bool, true, false, Option, none, some, List, [],
  ◌∷◌, String, arith, Bool-cases, Option-cases, if◌then◌else◌,
}
use kaos_agents.Prelude.Equality.{◌==◌, string_key, contains}
use kaos_agents.Planning.Graph.{Node, Graphs, GraphLaws, is_pending, has, mark, StepStatus}

abbrev pub count : (String → Bool) → List String → ℕ
count p [] = 0
count p (x ∷ xs) = (if p x then 1 else 0) + count p xs

count-le :
    (p q : String → Bool) (xs : List String)
    → ((x : String) → q x ≡ true → p x ≡ true)
    → count q xs ≤ count p xs
count-le p q [] h = omega arith
count-le p q (x ∷ xs) h = ground (arith, h x, count-le p q xs h)

count-lt :
    (p q : String → Bool) (xs : List String) (y : String)
    → ((x : String) → q x ≡ true → p x ≡ true)
    → contains xs y ≡ true
    → p y ≡ true
    → q y ≡ false
    → count q xs < count p xs
unfolding contains
count-lt p q [] y h c before after = absurd (clash c)
  where
    clash : false ≡ true → ⊥
    clash e = cc
count-lt p q (x ∷ xs) y h c before after = elim (Bool-cases (x == y)) [
  | inl same ↦
      let e : x ≡ y = (string_key.equal_iff x y).0 same in
      ground (arith, count-le p q xs h, ap p e, ap q e)
  | inr other ↦ ground (arith, h x, count-lt p q xs y h (rw other at c) before after)
]

module _ {G : Type 0} (lib : Graphs G) where
  -- The number of pending steps.
  unfoldable pub pending_steps : G → ℕ
  pending_steps g = count (λ s. has lib is_pending s g) (lib.node_ids g)

  -- From `g` to `h` no step becomes pending.
  pub record Advances (g h : G) : Type 0 where
    pub same_ids : lib.node_ids h ≡ lib.node_ids g
    pub was_pending : (s : String) → has lib is_pending s h ≡ true → has lib is_pending s g ≡ true

  pub Advances-refl : (g : G) → Advances g g
  Advances-refl g = record { same_ids = refl; was_pending = λ s e. e }

  pub Advances-trans : {g h k : G} → Advances g h → Advances h k → Advances g k
  Advances-trans a b = record {
    same_ids = b.same_ids ∙ a.same_ids;
    was_pending = λ s e. a.was_pending s (b.was_pending s e);
  }

  -- A step that stops pending leaves fewer pending steps.
  pub Advances-pending_steps :
      (g h : G) (s : String)
      → Advances g h
      → contains (lib.node_ids g) s ≡ true
      → has lib is_pending s g ≡ true
      → has lib is_pending s h ≡ false
      → pending_steps h < pending_steps g
  unfolding pending_steps
  Advances-pending_steps g h s a c before after = rw (a.same_ids) (
      count-lt (λ t. has lib is_pending t g) (λ t. has lib is_pending t h) (lib.node_ids g) s
        a.was_pending c before after)

  module _ (laws : GraphLaws lib) where
    has-set_node :
        (p : StepStatus → Bool) (s t : String) (n m : Node) (g : G)
        → lib.node s g ≡ some m
        → has lib p t (lib.set_node s n g) ≡ (if s == t then p n.status else has lib p t g)
    unfolding has
    has-set_node p s t n m g found = elim (Bool-cases (s == t)) [
      | inl same ↦ rw same (ap seen (rw same at (laws.sets_node s t n m g found)))
      | inr other ↦ rw other (ap seen (rw other at (laws.sets_node s t n m g found)))
    ]
      where
        seen : Option Node → Bool
        seen o = elim o [ none ↦ false | some k ↦ p k.status ]

    -- A mark that does not set the status to pending.
    pub mark-Advances :
        (f : Node → Node) (s : String) (g : G)
        → ((n : Node) → is_pending (f n).status ≡ false)
        → Advances g (mark lib f s g)
    unfolding mark
    mark-Advances f s g settled = elim (Option-cases (lib.node s g)) [
      | inl absent ↦ rw (absent, mark) (Advances-refl g)
      | inr (n, found) ↦
          rw (found, mark)
            (record {
              same_ids = laws.keeps_ids s (f n) n g found;
              was_pending =
                  λ t e. ground (arith, has-set_node is_pending s t (f n) n g found, settled n);
            })
    ]

    pub mark-pending :
        (f : Node → Node) (s : String) (g : G)
        → ((n : Node) → is_pending (f n).status ≡ false)
        → has lib is_pending s (mark lib f s g) ≡ false
    unfolding mark has
    mark-pending f s g settled = elim (Option-cases (lib.node s g)) [
      | inl absent ↦ rw (absent, mark) (rw (absent, has) refl)
      | inr (n, found) ↦
          rw (found, mark)
            (rw (has-set_node is_pending s s (f n) n g found, (string_key.equal_iff s s).1 refl)
              (settled n))
    ]
