-- ===== src/AgentLoop/Within.antt =====
-- loop/agent_loop.py: the open span of a turn that works.
use mathlib.Core.List.{map-append}
use kaos_agents.Prelude.{
  ℕ, ◌+◌, ◌<◌, ◌≡◌, refl, ap, ◌∙◌, inl, inr, false, List, [], ◌∷◌, ◌++◌, String, arith, Bool-cases,
  if◌then◌else◌,
}
use kaos_agents.Prelude.Equality.{◌==◌, string_key, contains}
use kaos_agents.Events.{
  SpanSubject, Value, intent_classified, usage_observed, escalation_required, turn_summary,
  citation_found, value_event, stream_delta, run_error, evidence_insufficient,
  grounding_refusal_triggered, other, Payload, span, Span, KaosEvent, start, progress, complete,
  error, SpanPhase, emit_event, collect, event_of, stack_with, stack_after, del_from, span_start,
  span_complete, Scope,
}
use kaos_agents.Events.Log.{payloads}
use kaos_agents.AgentLoop.Types.{Act, emits, pushes, queues, finds, ToolExecution}
use kaos_agents.AgentLoop.State.{TurnState, act}
use kaos_agents.AgentLoop.Report.{tool_call_span}
use kaos_agents.AgentLoop.Keeps.{IsPlain, KeepEvents}

-- The first span stays open under a span of another id.
stack_after-head :
    (s : Span) (id : String) (above : List String)
    → (id == s.span_id) ≡ false
    → (rest : List String) × (stack_after s (id ∷ above) ≡ id ∷ rest)
unfolding stack_after del_from contains
stack_after-head s id above h = by_phase s.phase refl
  where
    cut : List String
    cut = if contains above s.span_id then del_from s.span_id above else above

    left :
        (if contains (id ∷ above) s.span_id then del_from s.span_id (id ∷ above) else id ∷ above)
        ≡ id ∷ cut
    left = elim (Bool-cases (contains above s.span_id)) [
      | inl there ↦ rw h (rw there refl)
      | inr absent ↦ rw h (rw absent refl)
    ]

    by_phase :
        (phase : SpanPhase)
        → s.phase ≡ phase
        → (rest : List String) × (stack_after s (id ∷ above) ≡ id ∷ rest)
    by_phase start e = (above ++ s.span_id ∷ [], rw (e, stack_after) refl)
    by_phase progress e = (above, rw (e, stack_after) refl)
    by_phase complete e = (cut, rw (e, stack_after) left)
    by_phase error e = (cut, rw (e, stack_after) left)
    by_phase SpanPhase.cancelled e = (above, rw (e, stack_after) refl)

-- An event that does not speak of the span of an id.
abbrev pub IsForeign : String → Payload → Type 0
IsForeign id (span s) = (id == s.span_id) ≡ false
IsForeign id _ = Unit {0}

IsPlain-IsForeign : (id : String) (x : Payload) → IsPlain x → IsForeign id x
IsPlain-IsForeign id (span s) h = elim h [ ]
IsPlain-IsForeign id (intent_classified a b) h = tt
IsPlain-IsForeign id (usage_observed a b) h = tt
IsPlain-IsForeign id (escalation_required a b c d) h = tt
IsPlain-IsForeign id (turn_summary a b c) h = tt
IsPlain-IsForeign id (citation_found a) h = tt
IsPlain-IsForeign id (value_event a) h = tt
IsPlain-IsForeign id (stream_delta a) h = tt
IsPlain-IsForeign id run_error h = tt
IsPlain-IsForeign id evidence_insufficient h = tt
IsPlain-IsForeign id grounding_refusal_triggered h = tt
IsPlain-IsForeign id (other a) h = tt

stack_with-head :
    (x : Payload) (id : String) (above : List String)
    → IsForeign id x
    → (rest : List String) × (stack_with x (id ∷ above) ≡ id ∷ rest)
stack_with-head (span s) id above h = stack_after-head s id above h
stack_with-head (intent_classified a b) id above h = (above, refl)
stack_with-head (usage_observed a b) id above h = (above, refl)
stack_with-head (escalation_required a b c d) id above h = (above, refl)
stack_with-head (turn_summary a b c) id above h = (above, refl)
stack_with-head (citation_found a) id above h = (above, refl)
stack_with-head (value_event a) id above h = (above, refl)
stack_with-head (stream_delta a) id above h = (above, refl)
stack_with-head run_error id above h = (above, refl)
stack_with-head evidence_insufficient id above h = (above, refl)
stack_with-head grounding_refusal_triggered id above h = (above, refl)
stack_with-head (other a) id above h = (above, refl)

-- An act that leaves the span of an id alone.
abbrev pub IsTame : String → Act → Type 0
IsTame id (emits x) = IsForeign id x
IsTame id (pushes e) = IsForeign id e.payload
IsTame id _ = Unit {0}

module _ (id : String) (first : Payload) (drawn : ℕ) where
  -- The span of the turn is open, its start is the first event, and its id is drawn.
  abbrev pub IsWithin : Scope → Type 0
  IsWithin s =
      ((middle : List Payload) × (payloads s.collector.events ≡ first ∷ middle))
      × ((above : List String) × (s.collector.span_stack ≡ id ∷ above))
      × (drawn < s.emitter.drawn)

  collect-IsWithin :
      (e : KaosEvent) (s : Scope)
      → IsForeign id e.payload
      → IsWithin s
      → IsWithin (record s { collector = collect e s.collector })
  unfolding collect
  collect-IsWithin e s h w =
      let (rest, kept) = stack_with-head e.payload id w.1.0 h in
      (
        (
          w.0.0 ++ e.payload ∷ [],
          map-append (λ (x : KaosEvent). x.payload) s.collector.events _
              ∙ ap (λ l. l ++ e.payload ∷ []) w.0.1,
        ),
        (rest, ap (stack_with e.payload) w.1.1 ∙ kept),
        w.2,
      )

  emit_event-IsWithin :
      (x : Payload) (s : Scope) → IsForeign id x → IsWithin s → IsWithin (emit_event x s)
  unfolding emit_event event_of
  emit_event-IsWithin x s h w = collect-IsWithin (event_of s.emitter x) s h w

  pub act-IsWithin :
      {P : Type 0} (x : Act)
      → IsTame id x
      → (s : TurnState P) → IsWithin s.scope
      → IsWithin (act x s).scope
  unfolding act
  act-IsWithin (emits x) h s w = emit_event-IsWithin x s.scope h w
  act-IsWithin (pushes e) h s w = collect-IsWithin e s.scope h w
  act-IsWithin (queues e) h s w = w
  act-IsWithin (finds f) h s w = w

  module _ (new_span_id : ℕ → String)
      (distinct : (n : ℕ) → drawn < n → (id == new_span_id n) ≡ false) where
    span_start-IsWithin :
        (subject : SpanSubject) (name : String) (attributes : List (String × Value)) (s : Scope)
        → IsWithin s
        → IsWithin (span_start new_span_id subject name attributes s)
    unfolding span_start
    span_start-IsWithin subject name attributes s w =
        emit_event-IsWithin _
          (record s { emitter = record s.emitter { drawn = s.emitter.drawn + 1 } })
          (distinct s.emitter.drawn w.2) (w.0, w.1, omega (arith, w.2))

    span_complete-IsWithin :
        (subject : SpanSubject) (other_id name : String) (attributes : List (String × Value))
        (s : Scope)
        → (id == other_id) ≡ false
        → IsWithin s
        → IsWithin (span_complete subject other_id name attributes s)
    unfolding span_complete
    span_complete-IsWithin subject other_id name attributes s h w = emit_event-IsWithin _ s h w

    pub own-IsWithin : (P : Type 0) → KeepEvents IsWithin P new_span_id
    unfolding tool_call_span
    own-IsWithin P = record {
      plain = λ x h s w. emit_event-IsWithin x s (IsPlain-IsForeign id x h) w;
      calls = calls;
    }
      where
        calls :
            (e : ToolExecution) (s : Scope) → IsWithin s → IsWithin (tool_call_span new_span_id e s)
        calls e s w = elim (Bool-cases (e.tool_name == "")) [
          | inl unnamed ↦ rw unnamed w
          | inr named ↦ rw named (
              span_complete-IsWithin _ _ _ _ _ (distinct s.emitter.drawn w.2)
                (span_start-IsWithin _ _ _ s w))
        ]
