-- ===== src/Action/Circuit/History.antt =====
-- action/circuit.py: the state of a tool, read off the history of its results.
use kaos_agents.Prelude.{
  ℕ, suc, ◌≤◌, ◌≡◌, refl, ◌∙◌, ap, subst, inl, inr, ltb, Bool, true, some, List, [], ◌∷◌, String,
  arith, Bool-cases, Option-cases, if◌then◌else◌,
}
use kaos_agents.Prelude.Equality.{◌==◌, string_key}
use kaos_agents.Prelude.Dict.{lookup}
use kaos_agents.Action.Circuit.{
  CircuitBreaker, new, get, put, refresh, allow, record_success, record_failure, on_tool_call_start,
  is_failure, on_tool_call_result, Event, starts, results, step, run,
}
use kaos_agents.Action.Circuit.Tally.{
  is_closed, closed_for, failures_of, Tallies, refresh-Tallies, attempt-Tallies, succeed-Tallies,
  fail-Tallies, put-mine, put-others,
}

-- `k` failures of the tool in a row are on record, and its circuit is closed exactly below the
-- threshold.
abbrev OnRecord : String → ℕ → CircuitBreaker → Type 0
OnRecord t k b =
    (1 ≤ b.failure_threshold) × ((now : ℕ) → Tallies b.failure_threshold k (get now t b))

same_tool :
    (u t : String) (now : ℕ) (b : CircuitBreaker) → (u == t) ≡ true → get now u b ≡ get now t b
same_tool u t now b same = ap (λ v. get now v b) ((string_key.equal_iff u t).0 same)

allow-OnRecord :
    (t u : String) (k now : ℕ) (b : CircuitBreaker)
    → OnRecord t k b
    → OnRecord t k (allow now u b).0
unfolding allow
allow-OnRecord t u k now b (one, h) = elim (Bool-cases (u == t)) [
  | inl same ↦ (
    one,
    λ n. put-mine (Tallies b.failure_threshold k) n t u _ b same (
        attempt-Tallies b.failure_threshold k now (refresh b.reset_timeout now (get now u b)) (
          refresh-Tallies b.failure_threshold k b.reset_timeout now (get now u b)
            (rw (same_tool u t now b same) (h now)))),
  )
  | inr other ↦ (one, λ n. put-others (Tallies b.failure_threshold k) n t u _ b other (h n))
]

success-OnRecord :
    (t u : String) (k now : ℕ) (b : CircuitBreaker)
    → OnRecord t k b
    → OnRecord t (if u == t then 0 else k) (record_success now u b)
unfolding record_success
success-OnRecord t u k now b (one, h) = elim (Bool-cases (u == t)) [
  | inl same ↦ rw same (
    one,
    λ n.
        put-mine (Tallies b.failure_threshold 0) n t u _ b same
          (succeed-Tallies b.failure_threshold (get now u b) one),
  )
  | inr other ↦
      rw other (one, λ n. put-others (Tallies b.failure_threshold k) n t u _ b other (h n))
]

failure-OnRecord :
    (t u : String) (k now : ℕ) (b : CircuitBreaker)
    → OnRecord t k b
    → OnRecord t (if u == t then suc k else k) (record_failure now u b)
unfolding record_failure
failure-OnRecord t u k now b (one, h) = elim (Bool-cases (u == t)) [
  | inl same ↦ rw same (
    one,
    λ n. put-mine (Tallies b.failure_threshold (suc k)) n t u _ b same (
        fail-Tallies b.failure_threshold k now (get now u b)
          (rw (same_tool u t now b same) (h now))),
  )
  | inr other ↦
      rw other (one, λ n. put-others (Tallies b.failure_threshold k) n t u _ b other (h n))
]

views :
    (t : String) (b : CircuitBreaker)
    → (failures_of t b ≡ (get 0 t b).consecutive_failures)
      × (closed_for t b ≡ is_closed (get 0 t b).state)
unfolding failures_of closed_for get
views t b = elim (Option-cases (lookup t b.states)) [
  | inl absent ↦ rw (absent, failures_of, closed_for, get) (refl, refl)
  | inr (st, found) ↦ rw (found, failures_of, closed_for, get) (refl, refl)
]

-- What the constructor promises, if it does not raise.
abbrev Made : ℕ → Bool → CircuitBreaker → Type 0
Made threshold counts b =
    (1 ≤ threshold)
    × (b.failure_threshold ≡ threshold)
    × (b.uninformative_counts_as_failure ≡ counts)
    × (b.states ≡ [])

new-Made :
    (threshold timeout : ℕ) (counts : Bool) (b : CircuitBreaker)
    → new threshold timeout counts ≡ some b
    → Made threshold counts b
unfolding new
new-Made threshold timeout counts b made = ground arith

Made-OnRecord :
    (threshold : ℕ) (counts : Bool) (b : CircuitBreaker) (t : String)
    → Made threshold counts b
    → OnRecord t 0 b
unfolding get lookup
Made-OnRecord threshold counts b t (one, f, c, e) =
    (omega (arith, one, f), λ now. rw e (refl, ground (arith, one, f)))

module _ (is_uninformative : String → Bool) where
  -- The failures of the tool in a row, counted in the history alone: a success ends the row.
  pub next : Bool → String → Event → ℕ → ℕ
  next counts t (starts now event) k = k
  next counts t (results now event) k =
      if event.tool_name == ""
      then k
      else if event.tool_name == t
      then if is_failure is_uninformative counts event then suc k else 0
      else k

  unfoldable pub row : Bool → String → List Event → ℕ → ℕ
  unfolding next
  row counts t [] k = k
  row counts t (e ∷ es) k = row counts t es (next counts t e k)

  step-OnRecord :
      (t : String) (e : Event) (k : ℕ) (b : CircuitBreaker)
      → OnRecord t k b
      → OnRecord t (next b.uninformative_counts_as_failure t e k) (step is_uninformative e b)
  unfolding next step on_tool_call_start on_tool_call_result
  step-OnRecord t (starts now event) k b h = elim (Bool-cases (event.tool_name == "")) [
    | inl empty ↦ rw (empty, step, on_tool_call_start) h
    | inr named ↦ rw (named, step, on_tool_call_start) (allow-OnRecord t event.tool_name k now b h)
  ]
  step-OnRecord t (results now event) k b h = elim (Bool-cases (event.tool_name == "")) [
    | inl empty ↦ rw (empty, step, on_tool_call_result, next) h
    | inr named ↦
        rw (named, step, on_tool_call_result, next)
          (elim (Bool-cases (is_failure is_uninformative b.uninformative_counts_as_failure event)) [
            | inl bad ↦ rw bad (failure-OnRecord t event.tool_name k now b h)
            | inr good ↦ rw good (success-OnRecord t event.tool_name k now b h)
          ])
  ]

  step-counts :
      (e : Event) (b : CircuitBreaker)
      → ((step is_uninformative e b).uninformative_counts_as_failure
          ≡ b.uninformative_counts_as_failure)
        × ((step is_uninformative e b).failure_threshold ≡ b.failure_threshold)
  unfolding step on_tool_call_start on_tool_call_result allow record_success record_failure put
  step-counts (starts now event) b = ground arith
  step-counts (results now event) b = ground arith

  run-OnRecord :
      (t : String) (es : List Event) (k threshold : ℕ) (counts : Bool) (b : CircuitBreaker)
      → b.uninformative_counts_as_failure ≡ counts
      → b.failure_threshold ≡ threshold
      → OnRecord t k b
      → OnRecord t (row counts t es k) (run is_uninformative es b)
        × ((run is_uninformative es b).failure_threshold ≡ threshold)
  unfolding row run
  run-OnRecord t [] k threshold counts b c f h = (h, f)
  run-OnRecord t (e ∷ es) k threshold counts b c f h =
      let (c', f') = step-counts e b in
      run-OnRecord t es (next counts t e k) threshold counts (step is_uninformative e b) (c' ∙ c)
        (f' ∙ f)
        (subst (λ c. OnRecord t (next c t e k) (step is_uninformative e b)) c
          (step-OnRecord t e k b h))

  -- After any history on a new breaker, the number of failures that it has on record for a tool is
  -- the number of failed results of that tool since its last success, and its circuit is closed
  -- exactly if that number is below the threshold. The other tools' calls do not count.
  pub run-row :
      (threshold timeout : ℕ) (counts : Bool) (b : CircuitBreaker) (t : String) (es : List Event)
      → new threshold timeout counts ≡ some b
      → let end = run is_uninformative es b in
        (failures_of t end ≡ row counts t es 0)
        × (closed_for t end ≡ ltb (row counts t es 0) threshold)
  run-row threshold timeout counts b t es made =
      let m = new-Made threshold timeout counts b made in
      let (_, f, c, _) = m in
      let ((_, h), end) =
        run-OnRecord t es 0 threshold counts b c f (Made-OnRecord threshold counts b t m) in
      let (failures, closed) = views t (run is_uninformative es b) in
      (failures ∙ (h 0).0, closed ∙ (h 0).1 ∙ ap (ltb (row counts t es 0)) end)
