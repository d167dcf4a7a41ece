-- ===== src/Turn/Outcome.antt =====
-- patterns/agentic_loop.py: what the acts of a whole run of `run_agentic_turn` are.
use kaos_agents.Prelude.{ℕ, zero, suc, ◌+◌, ◌≤◌, ◌≡◌, refl, true, false, List, [], ◌∷◌, ◌++◌, arith}
use kaos_agents.Session.Policy.{SessionPolicy, Groups}
use kaos_agents.Prelude.Equality.{contains-append, string_key}
use kaos_agents.Turn.Types.{Act, emits, forwards, calls_worker, Reason, loop_terminated}
use kaos_agents.Turn.Run.{Run, goes, returns, raises, out_of_fuel, interrupted, failed}
use kaos_agents.Turn.World.{World, Options}
use kaos_agents.Turn.Loop.{run_agentic_turn}
use kaos_agents.Turn.Keeps.{Invariant, Below, approved, is_terminal}
use kaos_agents.Turn.Phases.{Fits}
use kaos_agents.Turn.Ending.{Concludes, run_agentic_turn-Concludes}

-- The acts of a run that was not broken off by another exception than a cancellation.
abbrev pub Finishes : (List Act → Type 0) → (List Act → Type 0) → Run (Unit {0}) → Type 0
Finishes D I (returns s) = D s.acts
Finishes D I (raises interrupted s) = D s.acts
Finishes D I (raises (failed message) s) = I s.acts
Finishes D I (goes a s) = ⊥
Finishes D I (out_of_fuel s) = ⊥

abbrev pub IsQuiet : List Act → Type 0
IsQuiet [] = Unit
IsQuiet (emits n e ∷ acts) = (is_terminal e ≡ false) × IsQuiet acts
IsQuiet (forwards item ∷ acts) = IsQuiet acts
IsQuiet (calls_worker k groups note ∷ acts) = IsQuiet acts

-- The newest act, and no other, is a LoopTerminated event.
abbrev pub EndsOnce : ℕ → List Act → Type 0
EndsOnce max (emits n (loop_terminated reason k elevations cost) ∷ acts) =
    IsQuiet acts × (k ≤ max) × (reason ≡ Reason.satisfied → approved acts ≡ true)
EndsOnce max _ = ⊥

once : (max : ℕ) (ceiling : Groups) → Invariant max ceiling
once max ceiling = record {
  I = λ n acts. IsQuiet acts;
  D = λ n acts. EndsOnce max acts;
  emits_I = λ n acts e quiet h. (quiet, h);
  forwards_I = λ n acts item h. h;
  calls_I = λ n acts k groups note within below h. h;
  ends_D = λ n acts reason k elevations cost within approves h. (h, within, approves);
}

module _ {max : ℕ} {ceiling : Groups} (v : Invariant max ceiling) (w : World) (o : Options) where
  Concludes-Finishes :
      (D I : List Act → Type 0) (r : Run (Unit {0}))
      → ((n : ℕ) (acts : List Act) → v.D n acts → D acts)
      → ((n : ℕ) (acts : List Act) → v.I n acts → I acts)
      → Concludes v w o r
      → Finishes D I r
  Concludes-Finishes D I (returns s) d i h = d s.sequence s.acts h
  Concludes-Finishes D I (raises interrupted s) d i h = d s.sequence s.acts h
  Concludes-Finishes D I (raises (failed message) s) d i h = i s.sequence s.acts h
  Concludes-Finishes D I (goes a s) d i h = h
  Concludes-Finishes D I (out_of_fuel s) d i h = h

-- The groups that a policy allows or may come to allow.
abbrev pub reachable : SessionPolicy → Groups
reachable policy = policy.allowed_groups ++ policy.soft_ceiling

reachable-Fits :
    (policy : SessionPolicy) → Fits policy.max_loop_iterations (reachable policy) policy
reachable-Fits policy = (
  λ g h. ground (arith, contains-append policy.allowed_groups policy.soft_ceiling g),
  λ g h. ground (arith, contains-append policy.allowed_groups policy.soft_ceiling g),
  refl,
)

-- A turn ends, by a return or by a cancellation, with one LoopTerminated event as its last act, after
-- no more iterations than the policy allows; if the reason is `satisfied`, the last goal check was
-- satisfied and no critic overrode it since. If another exception leaves it, there is no such event.
pub run_agentic_turn-EndsOnce :
    (w : World) (o : Options) (policy : SessionPolicy)
    → Finishes (EndsOnce policy.max_loop_iterations) IsQuiet (run_agentic_turn w o policy)
unfolding once
run_agentic_turn-EndsOnce w o policy =
    let v = once policy.max_loop_iterations (reachable policy) in
    Concludes-Finishes v w o (EndsOnce policy.max_loop_iterations) IsQuiet
      (run_agentic_turn w o policy) (λ _ _ h. h) (λ _ _ h. h)
      (run_agentic_turn-Concludes v w o policy (reachable-Fits policy) tt)

-- The sequence numbers of the events, the newest first.
abbrev pub numbers : List Act → List ℕ
numbers [] = []
numbers (emits n e ∷ acts) = n ∷ numbers acts
numbers (forwards item ∷ acts) = numbers acts
numbers (calls_worker k groups note ∷ acts) = numbers acts

abbrev pub countdown : ℕ → List ℕ
countdown zero = []
countdown (suc n) = suc n ∷ countdown n

next_number : (n : ℕ) (ns : List ℕ) → ns ≡ countdown n → (n + 1) ∷ ns ≡ countdown (n + 1)
next_number n ns h = let e : n + 1 ≡ suc n = omega arith in rw (e, h) refl

-- The events of the loop are numbered from 1 without a gap.
abbrev pub IsNumbered : List Act → Type 0
IsNumbered acts = (n : ℕ) × (numbers acts ≡ countdown n)

numbered : (max : ℕ) (ceiling : Groups) → Invariant max ceiling
numbered max ceiling = record {
  I = λ n acts. numbers acts ≡ countdown n;
  D = λ n acts. numbers acts ≡ countdown n;
  emits_I = λ n acts e quiet h. next_number n (numbers acts) h;
  forwards_I = λ n acts item h. h;
  calls_I = λ n acts k groups note within below h. h;
  ends_D = λ n acts reason k elevations cost within approves h. next_number n (numbers acts) h;
}

-- Whatever happens in a turn, the events of the loop are numbered 1, 2, 3 and so on.
pub run_agentic_turn-IsNumbered :
    (w : World) (o : Options) (policy : SessionPolicy)
    → Finishes IsNumbered IsNumbered (run_agentic_turn w o policy)
unfolding numbered
run_agentic_turn-IsNumbered w o policy =
    let v = numbered policy.max_loop_iterations (reachable policy) in
    Concludes-Finishes v w o IsNumbered IsNumbered (run_agentic_turn w o policy) (λ n _ h. (n, h))
      (λ n _ h. (n, h)) (run_agentic_turn-Concludes v w o policy (reachable-Fits policy) refl)

-- Each call of the worker is one of an iteration that the policy allows, with groups that the policy
-- allowed at the start or that it may come to allow.
abbrev pub CallsWithin : SessionPolicy → List Act → Type 0
CallsWithin policy [] = Unit
CallsWithin policy (emits n e ∷ acts) = CallsWithin policy acts
CallsWithin policy (forwards item ∷ acts) = CallsWithin policy acts
CallsWithin policy (calls_worker k groups note ∷ acts) =
    (k ≤ policy.max_loop_iterations) × Below (reachable policy) groups × CallsWithin policy acts

confined : (policy : SessionPolicy) → Invariant policy.max_loop_iterations (reachable policy)
confined policy = record {
  I = λ n acts. CallsWithin policy acts;
  D = λ n acts. CallsWithin policy acts;
  emits_I = λ n acts e quiet h. h;
  forwards_I = λ n acts item h. h;
  calls_I = λ n acts k groups note within below h. (within, below, h);
  ends_D = λ n acts reason k elevations cost within approves h. h;
}

-- Whatever the planner asks for, in a whole turn the worker is given only groups that the policy
-- allowed at the start or that stand in its soft ceiling, in no more iterations than it allows.
pub run_agentic_turn-CallsWithin :
    (w : World) (o : Options) (policy : SessionPolicy)
    → Finishes (CallsWithin policy) (CallsWithin policy) (run_agentic_turn w o policy)
unfolding confined
run_agentic_turn-CallsWithin w o policy =
    Concludes-Finishes (confined policy) w o (CallsWithin policy) (CallsWithin policy)
      (run_agentic_turn w o policy) (λ _ _ h. h) (λ _ _ h. h)
      (run_agentic_turn-Concludes (confined policy) w o policy (reachable-Fits policy) tt)
