-- ===== src/Turn/Labor.antt =====
-- patterns/agentic_loop.py: the work of a round and its limits, for an invariant of the acts.
use kaos_agents.Prelude.{
  ℕ, ◌≤◌, refl, inl, inr, not, ◌&&◌, ◌||◌, List, [], ◌∷◌, Option, none, some, arith, Bool-cases,
  ltb,
}
use kaos_agents.Prelude.Equality.{string_key, ◌==◌, contains-append}
use kaos_agents.Planning.ToolPolicy.{TurnToolPolicy, intersection}
use kaos_agents.Planning.ToolPolicy.Kept.{Respects, contains-intersection}
use kaos_agents.Session.Policy.{Groups, SessionPolicy}
use kaos_agents.Turn.Types.{
  LoopState, Item, Streamed, event, result, WorkerCall, buffered, streams, WorkerResult,
  Verification, Reason, citation_verified, Attributes,
}
use kaos_agents.Turn.Run.{Run, and_then, emitted, charged, forwarded, when, await}
use kaos_agents.Turn.Breaker.{observe_event, count_call, count_if_named, tool_call_complete_attrs}
use kaos_agents.Turn.Notes.{with_citations}
use kaos_agents.Turn.Refusal.{per_tool_budget_exceeded, lstrip}
use kaos_agents.Turn.World.{World, Options}
use kaos_agents.Turn.Iteration.{
  pass_on, pass_on_all, drain, last_result, result_or_raise, receive, called, worked, work_phase,
  effective_groups, emit_citations, verify_citations, verify_phase, limits_phase, stop_tripped,
}
use kaos_agents.Turn.Ends.{Ends-and_then, Ends-await, Ends-when}
use kaos_agents.Turn.Keeps.{Invariant, At, Done, Raised, Keeps, Below, At-Raised, At-emitted}
use kaos_agents.Turn.Phases.{Fits, stop-Keeps, stop_if, check_limits-Keeps}

module _ {max : ℕ} {ceiling : Groups} (v : Invariant max ceiling) (k : ℕ) (within : k ≤ max)
    (w : World) (o : Options) where
  abbrev G : {A : Type 0} → A → LoopState → Type 0
  G _ s = At v k s

  abbrev Keep : {A : Type 0} → Run A → Type 0
  Keep = Keeps v k within

  then-Keep :
      {A B : Type 0} (r : Run A) (f : A → LoopState → Run B)
      → Keep r
      → ((a : A) (s : LoopState) → At v k s → Keep (f a s))
      → Keep (and_then r f)
  then-Keep r f = Ends-and_then (Done v) (Raised v) G G r f

  counted-At :
      (threshold : ℕ) (found : Option Attributes) (s : LoopState)
      → At v k s
      → At v k (count_if_named w.is_uninformative threshold found s)
  unfolding count_call
  counted-At threshold none s h = h
  counted-At threshold (some a) s h = elim (Bool-cases (a.tool_name == "")) [
    | inl e ↦ rw e h
    | inr e ↦ rw e h
  ]

  pass_on-At : (item : Item) (s : LoopState) → At v k s → At v k (pass_on w o item s)
  unfolding observe_event forwarded
  pass_on-At item s h =
      let h' : At v k (forwarded item s) = (h.0, v.forwards_I s.sequence s.acts item h.1) in
      elim (Bool-cases (not (s.tripped_tool == "") || ltb o.circuit_breaker_threshold 1)) [
        | inl e ↦ rw e h'
        | inr e ↦ rw e (
            counted-At o.circuit_breaker_threshold (tool_call_complete_attrs item)
              (forwarded item s) h')
      ]

  pub pass_on_all-At :
      (items : List Item) (s : LoopState) → At v k s → At v k (pass_on_all w o items s)
  unfolding pass_on_all
  pass_on_all-At [] s h = h
  pass_on_all-At (item ∷ items) s h =
      pass_on_all-At items (pass_on w o item s) (pass_on-At item s h)

  drain-At : (items : List Streamed) (s : LoopState) → At v k s → At v k (drain w o items s)
  unfolding drain
  drain-At [] s h = h
  drain-At (event item ∷ items) s h = drain-At items (pass_on w o item s) (pass_on-At item s h)
  drain-At (result r ∷ items) s h = drain-At items s h

  received-Keeps :
      (found : Option WorkerResult) (s : LoopState) → At v k s → Keep (result_or_raise w o found s)
  received-Keeps none s h = At-Raised v k within s h
  received-Keeps (some r) s h = h

  receive-Keeps : (call : WorkerCall) (s : LoopState) → At v k s → Keep (receive w o call s)
  receive-Keeps (buffered reply) s h =
      then-Keep (await reply s) _
        (Ends-await (Done v) (Raised v) G reply s (λ _ _. h) (At-Raised v k within s h))
        (λ _ t h'. h')
  receive-Keeps (streams items ending) s h =
      let h0 = drain-At items s h in
      then-Keep (await ending (drain w o items s)) _
        (Ends-await (Done v) (Raised v) G ending (drain w o items s) (λ _ _. h0)
          (At-Raised v k within (drain w o items s) h0))
        (λ _ t h'.
          then-Keep (result_or_raise w o (last_result w o items none) t) _ (received-Keeps _ t h')
            (λ _ t' h''. h''))

  pub effective_groups-Below :
      (policy elevated : SessionPolicy) (plan : TurnToolPolicy)
      → Fits max ceiling policy
      → Fits max ceiling elevated
      → Respects policy.allowed_groups plan
      → Below ceiling (effective_groups plan elevated)
  unfolding effective_groups
  effective_groups-Below policy elevated plan fits fits' kept g h = ground (
    arith,
    contains-append plan.kept_groups (intersection elevated.allowed_groups plan.dropped_groups) g,
    contains-intersection elevated.allowed_groups plan.dropped_groups g,
    fits.0 g,
    fits'.0 g,
    kept.kept_below g,
  )

  pub work_phase-Keeps :
      (elevated : SessionPolicy) (plan : TurnToolPolicy) (s : LoopState)
      → Below ceiling (effective_groups plan elevated)
      → At v k s
      → Keep (work_phase w o elevated plan s)
  unfolding work_phase worked charged called
  work_phase-Keeps elevated plan s below h =
      let groups = effective_groups plan elevated in
      let h0 : At v k (called w o groups s) = (
        h.0,
        v.calls_I s.sequence s.acts s.iteration groups s.thinking_note (omega (arith, h.0)) below
            h.1,
      ) in
      then-Keep (receive w o (w.worker s.iteration groups s.thinking_note) (called w o groups s)) _
        (receive-Keeps (w.worker s.iteration groups s.thinking_note) (called w o groups s) h0)
        (λ received t h'.
          then-Keep _ _
            (stop_if v k within w o (per_tool_budget_exceeded received.0.cost elevated)
              Reason.cost_exceeded (worked w o received.0 t) (λ e. cc) h')
            (λ _ t' h''. h''))

  emit_citations-Keeps :
      (vs : List Verification) (s : LoopState) → At v k s → Keep (emit_citations w o vs s)
  unfolding emit_citations
  emit_citations-Keeps [] s h = h
  emit_citations-Keeps (c ∷ vs) s h =
      emit_citations-Keeps vs (emitted (citation_verified c) s) (At-emitted v k within s _ refl h)

  verify_citations-Keeps : (s : LoopState) → At v k s → Keep (verify_citations w o s)
  unfolding verify_citations with_citations
  verify_citations-Keeps s h =
      then-Keep (await (w.verifier s.iteration) s) _
        (Ends-await (Done v) (Raised v) G (w.verifier s.iteration) s (λ _ _. h)
          (At-Raised v k within s h))
        (λ vs t h'.
          then-Keep (emit_citations w o vs t) _ (emit_citations-Keeps vs t h') (λ _ t' h''. h''))

  pub verify_phase-Keeps :
      (r : WorkerResult) (s : LoopState) → At v k s → Keep (verify_phase w o r s)
  unfolding verify_phase
  verify_phase-Keeps r s h =
      Ends-when (Done v) (Raised v) G (o.citation_verification_enabled && not (lstrip r.text == ""))
        (verify_citations w o) s (λ _. h) (λ _. verify_citations-Keeps s h)

  pub limits_phase-Keeps :
      (elevated : SessionPolicy) (r : WorkerResult) (items : List Item) (s : LoopState)
      → At v k s
      → Keep (limits_phase w o elevated r items s)
  unfolding limits_phase
  limits_phase-Keeps elevated r items s h =
      let t = pass_on_all w o items s in
      let h0 = pass_on_all-At items s h in
      then-Keep (when (not (t.tripped_tool == "")) (stop_tripped w o t) t) _
        (Ends-when (Done v) (Raised v) G _ (stop_tripped w o t) t (λ _. h0)
          (λ _.
            stop-Keeps v k within w o Reason.circuit_breaker_tripped _ (λ e. cc)
              (At-emitted v k within t _ refl h0)))
        (λ _ t1 h1.
          then-Keep _ _ (stop_if v k within w o _ Reason.tool_call_cap_exceeded t1 (λ e. cc) h1)
            (λ _ t2 h2.
              check_limits-Keeps v k within w o (w.clock_worked t.iteration) elevated t2 h2))
