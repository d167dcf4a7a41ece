-- ===== src/Turn/Ends.antt =====
-- patterns/agentic_loop.py: how a run ends, as a predicate on its outcome with a rule for each way to
-- go on.
use kaos_agents.Prelude.{◌≡◌, refl, Bool, true, false, if◌then◌else◌}
use kaos_agents.Prelude.Reply.{Reply, replies, fails, cancelled}
use kaos_agents.Turn.Types.{LoopState}
use kaos_agents.Turn.Run.{M, Run, goes, returns, raises, out_of_fuel, Effect, and_then, await, when}

-- The run goes on with `G`, or it returns with `D`, or it raises with `R`: it has enough fuel.
abbrev pub Ends :
    {A : Type 0}
    → (A → LoopState → Type 0)
    → (LoopState → Type 0)
    → (LoopState → Type 0)
    → Run A
    → Type 0
Ends G D R (goes a s) = G a s
Ends G D R (returns s) = D s
Ends G D R (raises e s) = R s
Ends G D R (out_of_fuel s) = ⊥

module _ (D R : LoopState → Type 0) where
  pub Ends-and_then :
      {A B : Type 0} (G : A → LoopState → Type 0) (H : B → LoopState → Type 0) (r : Run A)
      (f : A → LoopState → Run B)
      → Ends G D R r
      → ((a : A) (s : LoopState) → G a s → Ends H D R (f a s))
      → Ends H D R (and_then r f)
  Ends-and_then G H (goes a s) f h k = k a s h
  Ends-and_then G H (returns s) f h k = h
  Ends-and_then G H (raises e s) f h k = h
  Ends-and_then G H (out_of_fuel s) f h k = h

  pub Ends-await :
      {A : Type 0} (G : A → LoopState → Type 0) (reply : Reply A) (s : LoopState)
      → ((a : A) → reply ≡ replies a → G a s)
      → R s
      → Ends G D R (await reply s)
  Ends-await G (replies a) s g r = g a refl
  Ends-await G (fails message) s g r = r
  Ends-await G cancelled s g r = r

  pub Ends-when :
      (G : Unit → LoopState → Type 0) (b : Bool) (m : Effect) (s : LoopState)
      → (b ≡ false → G tt s)
      → (b ≡ true → Ends G D R (m s))
      → Ends G D R (when b m s)
  Ends-when G true m s no_case yes_case = yes_case refl
  Ends-when G false m s no_case yes_case = no_case refl

  pub Ends-if :
      {A : Type 0} (G : A → LoopState → Type 0) (b : Bool) (m n : M A) (s : LoopState)
      → (b ≡ true → Ends G D R (m s))
      → (b ≡ false → Ends G D R (n s))
      → Ends G D R ((if b then m else n) s)
  Ends-if G true m n s yes_case no_case = yes_case refl
  Ends-if G false m n s yes_case no_case = no_case refl

  pub Ends-weaken :
      {A : Type 0} (G H : A → LoopState → Type 0) (r : Run A)
      → Ends G D R r
      → ((a : A) (s : LoopState) → G a s → H a s)
      → Ends H D R r
  Ends-weaken G H (goes a s) h k = k a s h
  Ends-weaken G H (returns s) h k = h
  Ends-weaken G H (raises e s) h k = h
  Ends-weaken G H (out_of_fuel s) h k = h

  pub Ends-either :
      {A : Type 0} (G : A → LoopState → Type 0) (b : Bool) (r q : Run A)
      → (b ≡ true → Ends G D R r)
      → (b ≡ false → Ends G D R q)
      → Ends G D R (if b then r else q)
  Ends-either G true r q yes_case no_case = yes_case refl
  Ends-either G false r q yes_case no_case = no_case refl
