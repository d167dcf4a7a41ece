-- ===== src/Action/Circuit/Probe.antt =====
-- action/circuit.py: what a tripped circuit lets through until a result is recorded.
use kaos_agents.Prelude.{
  ℕ, suc, ◌+◌, ◌≤◌, ◌≡◌, ◌⊎◌, refl, sym, ap, ◌∙◌, subst, inl, inr, leb, ◌&&◌, ◌||◌, none, some,
  Option-cases, Bool, true, false, List, [], ◌∷◌, String, arith, Bool-cases, if◌then◌else◌,
}
use kaos_agents.Prelude.Equality.{◌==◌, string_key}
use kaos_agents.Prelude.Dict.{lookup}
use kaos_agents.Action.Circuit.{
  circuit_closed, circuit_open, circuit_half_open, ToolState, CircuitBreaker, get, put, refresh,
  attempt, allow,
}
use kaos_agents.Action.Circuit.Tally.{put-mine, put-others, is_closed, closed_for}

-- The answers of `allow` to a sequence of attempts, each a time and a tool.
unfoldable pub answers : List (ℕ × String) → CircuitBreaker → List Bool
answers [] b = []
answers ((now, tool) ∷ attempts) b =
    let (b', allowed) = allow now tool b in allowed ∷ answers attempts b'

-- How many of the attempts on the tool are allowed.
unfoldable pub allowed_for : String → List (ℕ × String) → CircuitBreaker → ℕ
allowed_for t [] b = 0
allowed_for t ((now, tool) ∷ attempts) b =
    let (b', allowed) = allow now tool b in
    let rest = allowed_for t attempts b' in
    if tool == t then if allowed then suc rest else rest else rest

-- The probes that the tool's state still lets through.
abbrev pub probes : ToolState → ℕ
probes st = elim st.state [
  | circuit_closed ↦ 2
  | circuit_open ↦ 1
  | circuit_half_open ↦ if st.probe_in_flight then 0 else 1
]

attempt-probes :
    (timeout now : ℕ) (st : ToolState)
    → probes st ≤ 1
    → let (st', allowed) = attempt now (refresh timeout now st) in
      (if allowed then 1 else 0) + probes st' ≤ probes st
unfolding attempt refresh
attempt-probes timeout now st h = ground arith

-- `allow` on the tool's state and on the others'.
allow-mine :
    (P : ToolState → Type 0) (t u : String) (now n : ℕ) (b : CircuitBreaker)
    → (u == t) ≡ true
    → P (attempt now (refresh b.reset_timeout now (get now t b))).0
    → P (get n t (allow now u b).0)
unfolding allow
allow-mine P t u now n b same h =
    put-mine P n t u (attempt now (refresh b.reset_timeout now (get now u b))).0 b same (
      subst (λ v. P (attempt now (refresh b.reset_timeout now (get now v b))).0)
        (sym ((string_key.equal_iff u t).0 same)) h)

allow-others :
    (P : ToolState → Type 0) (t u : String) (now n : ℕ) (b : CircuitBreaker)
    → (u == t) ≡ false
    → P (get n t b)
    → P (get n t (allow now u b).0)
unfolding allow
allow-others P t u now n b other h =
    put-others P n t u (attempt now (refresh b.reset_timeout now (get now u b))).0 b other h

allow-answer :
    (t u : String) (now : ℕ) (b : CircuitBreaker)
    → (u == t) ≡ true
    → (allow now u b).1 ≡ (attempt now (refresh b.reset_timeout now (get now t b))).1
unfolding allow
allow-answer t u now b same =
    ap (λ v. (attempt now (refresh b.reset_timeout now (get now v b))).1)
      ((string_key.equal_iff u t).0 same)

tally :
    (allowed : Bool) (left rest p : ℕ)
    → rest ≤ left
    → (if allowed then 1 else 0) + left ≤ p
    → (if allowed then suc rest else rest) ≤ p
tally allowed left rest p h k = ground arith

allowed_for-probes :
    (t : String) (attempts : List (ℕ × String)) (p : ℕ) (b : CircuitBreaker)
    → p ≤ 1
    → ((n : ℕ) → probes (get n t b) ≤ p)
    → allowed_for t attempts b ≤ p
unfolding allowed_for
allowed_for-probes t [] p b one h = omega arith
allowed_for-probes t ((now, u) ∷ attempts) p b one h = elim (Bool-cases (u == t)) [
  | inl same ↦
      let after = attempt now (refresh b.reset_timeout now (get now t b)) in
      let left = probes after.0 in
      let spent = attempt-probes b.reset_timeout now (get now t b) (omega (arith, one, h now)) in
      let rest =
        allowed_for-probes t attempts left (allow now u b).0 (omega (arith, spent, one, h now))
          (λ n. allow-mine (λ st. probes st ≤ left) t u now n b same (omega arith)) in
      rw (same, allow-answer t u now b same)
        (tally after.1 left (allowed_for t attempts (allow now u b).0) p rest
          (omega (arith, spent, h now)))
  | inr other ↦ rw other (
      allowed_for-probes t attempts p (allow now u b).0 one
        (λ n. allow-others (λ st. probes st ≤ p) t u now n b other (h n)))
]

-- While no result is recorded, a circuit that is not closed lets at most one attempt on its tool
-- through, however many are made, at whatever times, and whatever is attempted on other tools.
pub allowed_for-not_closed :
    (t : String) (attempts : List (ℕ × String)) (b : CircuitBreaker)
    → closed_for t b ≡ false
    → allowed_for t attempts b ≤ 1
unfolding closed_for get
allowed_for-not_closed t attempts b h =
    allowed_for-probes t attempts 1 b (omega arith) (λ n. go n (Option-cases (lookup t b.states)))
  where
    clash : true ≡ false → ⊥
    clash e = cc

    below : (st : ToolState) → is_closed st.state ≡ false → probes st ≤ 1
    below st e = ground arith

    go :
        (n : ℕ)
        → (lookup t b.states ≡ none) ⊎ ((st : ToolState) × (lookup t b.states ≡ some st))
        → probes (get n t b) ≤ 1
    go n (inl absent) = absurd (clash (rw (absent, closed_for) at h))
    go n (inr (st, found)) = rw (found, get) (below st (rw (found, closed_for) at h))

-- Whether one of the attempts is on the tool and not before the deadline.
pub reaches : ℕ → String → List (ℕ × String) → Bool
reaches deadline t [] = false
reaches deadline t ((now, u) ∷ attempts) = u == t && leb deadline now || reaches deadline t attempts

-- The circuit is open since the time `o`.
abbrev IsOpen : ℕ → ToolState → Type 0
IsOpen o st = (st.state ≡ circuit_open) × (st.opened_at ≡ o)

attempt-late :
    (o timeout now : ℕ) (st : ToolState)
    → IsOpen o st
    → leb (o + timeout) now ≡ true
    → let (st', allowed) = attempt now (refresh timeout now st) in
      (allowed ≡ true) × (probes st' ≡ 0)
unfolding attempt refresh
attempt-late o timeout now st h late = ground arith

attempt-early :
    (o timeout now : ℕ) (st : ToolState)
    → IsOpen o st
    → leb (o + timeout) now ≡ false
    → let (st', allowed) = attempt now (refresh timeout now st) in (allowed ≡ false) × IsOpen o st'
unfolding attempt refresh
attempt-early o timeout now st h early = ground arith

allow-timeout :
    (u : String) (now : ℕ) (b : CircuitBreaker) → (allow now u b).0.reset_timeout ≡ b.reset_timeout
unfolding allow put
allow-timeout u now b = refl

allowed_for-IsOpen :
    (t : String) (attempts : List (ℕ × String)) (o timeout : ℕ) (b : CircuitBreaker)
    → b.reset_timeout ≡ timeout
    → ((n : ℕ) → IsOpen o (get n t b))
    → allowed_for t attempts b ≡ (if reaches (o + timeout) t attempts then 1 else 0)
unfolding allowed_for reaches
allowed_for-IsOpen t [] o timeout b e h = refl
allowed_for-IsOpen t ((now, u) ∷ attempts) o timeout b e h = elim (Bool-cases (u == t)) [
  | inr other ↦ rw other (
      allowed_for-IsOpen t attempts o timeout (allow now u b).0 (allow-timeout u now b ∙ e)
        (λ n. allow-others (IsOpen o) t u now n b other (h n)))
  | inl same ↦ elim (Bool-cases (leb (o + timeout) now)) [
    | inl late ↦
        let (allowed, none_left) =
          attempt-late o b.reset_timeout now (get now t b) (h now) (rw e late) in
        let rest =
          allowed_for-probes t attempts 0 (allow now u b).0 (omega arith)
            (λ n. allow-mine (λ st. probes st ≤ 0) t u now n b same (omega (arith, none_left))) in
        rw (same, late, allow-answer t u now b same, allowed) (omega (arith, rest))
    | inr early ↦
        let (refused, kept) =
          attempt-early o b.reset_timeout now (get now t b) (h now) (rw e early) in
        rw (same, early, allow-answer t u now b same, refused)
          (allowed_for-IsOpen t attempts o timeout (allow now u b).0 (allow-timeout u now b ∙ e)
            (λ n. allow-mine (IsOpen o) t u now n b same kept))
  ]
]

-- An open circuit refuses every attempt before its reset timeout has passed since it was opened, and
-- lets exactly one through if an attempt is made after it, while no result is recorded.
pub allowed_for-open :
    (t : String) (attempts : List (ℕ × String)) (b : CircuitBreaker) (st : ToolState)
    → lookup t b.states ≡ some st
    → st.state ≡ circuit_open
    → allowed_for t attempts b
      ≡ (if reaches (st.opened_at + b.reset_timeout) t attempts then 1 else 0)
unfolding get
allowed_for-open t attempts b st found o =
    allowed_for-IsOpen t attempts st.opened_at b.reset_timeout b refl
      (λ n. rw (found, get) (o, refl))
