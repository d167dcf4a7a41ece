-- ===== src/Events/Log.antt =====
-- events/emitter.py and events/collector.py: what a scope has collected, and its open spans.
use mathlib.Core.List.{map-append}
use kaos_agents.Prelude.{
  ℕ, ◌+◌, ◌≡◌, refl, ap, subst, ◌∙◌, false, Option, none, some, List, [], ◌∷◌, ◌++◌, String, map,
  if◌then◌else◌,
}
use kaos_agents.Prelude.Equality.{contains, string_key}
use kaos_agents.Events.{
  Payload, span, KaosEvent, SpanSubject, Value, start, complete, error, emit_event, event_of,
  collect, stack_with, stack_after, last, del_from, span_start, span_complete, span_error, Scope,
}
use kaos_agents.Events.Stack.{del_from-append, contains-middle}

abbrev pub payloads : List KaosEvent → List Payload
payloads events = map (λ (e : KaosEvent). e.payload) events

-- A span's start, completion and error, as an emitter's shortcuts write them.
abbrev pub starts :
    SpanSubject → (id : String) → Option String → (name : String) → List (String × Value) → Payload
starts subject id parent name attributes = span (record {
  subject = subject;
  phase = start;
  span_id = id;
  parent_span_id = parent;
  name = name;
  error = none;
  attributes = attributes;
})

abbrev pub completes : SpanSubject → (id name : String) → List (String × Value) → Payload
completes subject id name attributes = span (record {
  subject = subject;
  phase = complete;
  span_id = id;
  parent_span_id = none;
  name = name;
  error = none;
  attributes = attributes;
})

abbrev pub errs : SpanSubject → (id error_type error_message : String) → Payload
errs subject id error_type error_message = span (record {
  subject = subject;
  phase = error;
  span_id = id;
  parent_span_id = none;
  name = "";
  error = some (error_type, error_message);
  attributes = [];
})

-- The payloads that were collected, the stack, and the number of span ids that were drawn.
abbrev pub IsLog : List Payload → List String → ℕ → Scope → Type 0
IsLog ps stack n s =
    (payloads s.collector.events ≡ ps) × (s.collector.span_stack ≡ stack) × (s.emitter.drawn ≡ n)

pub emit_event-IsLog :
    (ps : List Payload) (stack : List String) (n : ℕ) (s : Scope)
    → IsLog ps stack n s
    → (x : Payload) → IsLog (ps ++ x ∷ []) (stack_with x stack) n (emit_event x s)
unfolding emit_event event_of collect
emit_event-IsLog ps stack n s log x = (
  map-append (λ (e : KaosEvent). e.payload) s.collector.events _ ∙ ap (λ l. l ++ x ∷ []) log.0,
  ap (stack_with x) log.1,
  log.2,
)

-- A span that is open is closed with those above it.
closes :
    (id : String) (stack below above : List String)
    → stack ≡ below ++ id ∷ above
    → contains below id ≡ false
    → (if contains stack id then del_from id stack else stack) ≡ below
closes id stack below above e new = rw e (rw contains-middle (del_from-append id below above new))

module _ (ps : List Payload) (stack : List String) (n : ℕ) (s : Scope)
    (log : IsLog ps stack n s) where
  pub span_start-IsLog :
      (new_span_id : ℕ → String) (subject : SpanSubject) (name : String)
      (attributes : List (String × Value))
      → IsLog
          (ps ++ starts subject (new_span_id n) (last stack) name attributes ∷ [])
          (stack ++ new_span_id n ∷ [])
          (n + 1)
          (span_start new_span_id subject name attributes s)
  unfolding span_start stack_after
  span_start-IsLog new_span_id subject name attributes =
      let drawn = record s { emitter = record s.emitter { drawn = s.emitter.drawn + 1 } } in
      let started = span_start new_span_id subject name attributes s in
      subst
        (λ m.
          IsLog (ps ++ starts subject (new_span_id m) (last stack) name attributes ∷ [])
            (stack ++ new_span_id m ∷ []) (m + 1) started)
        log.2
        (subst
          (λ l.
            IsLog (ps ++ starts subject (new_span_id s.emitter.drawn) (last l) name attributes ∷ [])
              (l ++ new_span_id s.emitter.drawn ∷ []) (s.emitter.drawn + 1) started)
          log.1
          (emit_event-IsLog ps s.collector.span_stack (s.emitter.drawn + 1) drawn
            (log.0, refl, refl) _))

  module _ (id : String) (below above : List String) (e : stack ≡ below ++ id ∷ above)
      (new : contains below id ≡ false) where
    pub span_complete-IsLog :
        (subject : SpanSubject) (name : String) (attributes : List (String × Value))
        → IsLog
            (ps ++ completes subject id name attributes ∷ [])
            below
            n
            (span_complete subject id name attributes s)
    unfolding span_complete stack_after
    span_complete-IsLog subject name attributes =
        let logged = emit_event-IsLog ps stack n s log (completes subject id name attributes) in
        (logged.0, logged.1 ∙ closes id stack below above e new, logged.2)

    pub span_error-IsLog :
        (subject : SpanSubject) (error_type error_message : String)
        → IsLog
            (ps ++ errs subject id error_type error_message ∷ [])
            below
            n
            (span_error subject id error_type error_message s)
    unfolding span_error stack_after
    span_error-IsLog subject error_type error_message =
        let logged = emit_event-IsLog ps stack n s log (errs subject id error_type error_message) in
        (logged.0, logged.1 ∙ closes id stack below above e new, logged.2)
