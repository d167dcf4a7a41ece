-- ===== src/Turn/Streak.antt =====
-- patterns/agentic_loop.py: the circuit breaker of the loop against the calls that it has seen.
use kaos_agents.Prelude.{
  ℕ, ◌+◌, ◌≤◌, ◌<◌, ◌≡◌, ◌≢◌, ◌⊎◌, inl, inr, refl, ap, ◌∙◌, Bool, true, false, not, ◌&&◌, ◌||◌,
  Option, none, some, List, [], ◌∷◌, String, arith, if◌then◌else◌, Bool-cases, ltb, leb, IsSuffix,
  IsSuffix-refl, IsSuffix-cons,
}
use kaos_agents.Prelude.Equality.{◌==◌, string_key}
use kaos_agents.Prelude.Dict.{lookup-insert}
use kaos_agents.Turn.Types.{Attributes, Item, LoopState}
use kaos_agents.Turn.Run.{forwarded}
use kaos_agents.Turn.Breaker.{
  tool_call_complete_attrs, failure_count, counts_as_failure, count_call, count_if_named,
  observe_event,
}
use kaos_agents.Turn.World.{World, Options}
use kaos_agents.Turn.Iteration.{pass_on, pass_on_all}

module _ (is_uninformative : String → Bool) (threshold : ℕ) where
  -- How many of the last calls of a tool failed in a row, the newest event first.
  abbrev pub next_streak : String → Option Attributes → ℕ → ℕ
  next_streak tool none n = n
  next_streak tool (some a) n =
      if a.tool_name == tool then (if counts_as_failure is_uninformative a then n + 1 else 0) else n

  abbrev pub streak : String → List Item → ℕ
  streak tool [] = 0
  streak tool (item ∷ seen) = next_streak tool (tool_call_complete_attrs item) (streak tool seen)

  -- No tool has reached the threshold.
  abbrev pub OnTrack : List Item → LoopState → Type 0
  OnTrack seen s =
      (s.tripped_tool ≡ "")
      × ((tool : String)
          → tool ≢ ""
          → (failure_count tool s.consecutive_tool_failures ≡ streak tool seen)
            × (streak tool seen < threshold))

  -- The tripped tool has failed `threshold` times in a row at some time.
  abbrev pub HasTripped : List Item → LoopState → Type 0
  HasTripped seen s =
      (s.tripped_tool ≢ "")
      × (s.tripped_failures ≡ threshold)
      × ((before : List Item) × IsSuffix before seen × (streak s.tripped_tool before ≡ threshold))

  abbrev pub Follows : List Item → LoopState → Type 0
  Follows seen s = OnTrack seen s ⊎ HasTripped seen s

  name_failures :
      (a : Attributes) (s : LoopState) (tool : String)
      → a.tool_name ≡ tool
      → failure_count a.tool_name s.consecutive_tool_failures
        ≡ failure_count tool s.consecutive_tool_failures
  name_failures a s tool e = ap (λ name. failure_count name s.consecutive_tool_failures) e

  count_call-failures :
      (a : Attributes) (s : LoopState) (tool : String)
      → failure_count tool (count_call is_uninformative threshold a s).consecutive_tool_failures
        ≡ next_streak tool (some a) (failure_count tool s.consecutive_tool_failures)
  unfolding count_call
  count_call-failures a s tool = ground (
    arith,
    lookup-insert a.tool_name tool
        (if counts_as_failure is_uninformative a
          then failure_count a.tool_name s.consecutive_tool_failures + 1
          else 0)
        s.consecutive_tool_failures,
    string_key.equal_iff a.tool_name tool,
    name_failures a s tool,
  )

  -- A call of a named tool while no tool has tripped, which does not trip it and which does.
  count_call-OnTrack :
      (item : Item) (a : Attributes) (seen : List Item) (s : LoopState)
      → tool_call_complete_attrs item ≡ some a
      → (counts_as_failure is_uninformative a
          && leb threshold (failure_count a.tool_name s.consecutive_tool_failures + 1))
        ≡ false
      → a.tool_name ≢ ""
      → OnTrack seen s
      → OnTrack (item ∷ seen) (count_call is_uninformative threshold a s)
  unfolding count_call
  count_call-OnTrack item a seen s e goes_on named (fresh, track) = (
    rw goes_on fresh,
    λ tool other. rw e (
      count_call-failures a s tool ∙ ap (next_streak tool (some a)) (track tool other).0,
      ground (
        arith,
        goes_on,
        track tool other,
        track a.tool_name named,
        string_key.equal_iff a.tool_name tool,
        ap (λ name. streak name seen) {x = a.tool_name} {y = tool},
      ),
    ),
  )

  count_call-HasTripped :
      (item : Item) (a : Attributes) (seen : List Item) (s : LoopState)
      → tool_call_complete_attrs item ≡ some a
      → (counts_as_failure is_uninformative a
          && leb threshold (failure_count a.tool_name s.consecutive_tool_failures + 1))
        ≡ true
      → a.tool_name ≢ ""
      → OnTrack seen s
      → HasTripped (item ∷ seen) (count_call is_uninformative threshold a s)
  unfolding count_call
  count_call-HasTripped item a seen s e trips named (fresh, track) = rw trips (
    named,
    ground (arith, trips, track a.tool_name named),
    (
      item ∷ seen,
      IsSuffix-refl (item ∷ seen),
      rw e (
          ground
            (arith, trips, track a.tool_name named, string_key.equal_iff a.tool_name a.tool_name)),
    ),
  )

  count_call-Follows :
      (item : Item) (a : Attributes) (seen : List Item) (s : LoopState)
      → tool_call_complete_attrs item ≡ some a
      → a.tool_name ≢ ""
      → OnTrack seen s
      → Follows (item ∷ seen) (count_call is_uninformative threshold a s)
  count_call-Follows item a seen s e named track =
      elim (Bool-cases (
        counts_as_failure is_uninformative a
        && leb threshold (failure_count a.tool_name s.consecutive_tool_failures + 1))) [
          | inl trips ↦ inr (count_call-HasTripped item a seen s e trips named track)
          | inr goes_on ↦ inl (count_call-OnTrack item a seen s e goes_on named track)
        ]

  counted-Follows :
      (item : Item) (found : Option Attributes) (seen : List Item) (s : LoopState)
      → tool_call_complete_attrs item ≡ found
      → OnTrack seen s
      → Follows (item ∷ seen) (count_if_named is_uninformative threshold found s)
  counted-Follows item none seen s e (fresh, track) =
      inl (fresh, λ tool named. rw e (track tool named))
  counted-Follows item (some a) seen s e (fresh, track) = elim (Bool-cases (a.tool_name == "")) [
    | inl nameless ↦ rw nameless (
        inl (
          fresh,
          λ tool named. ground (
            arith,
            e,
            track tool named,
            string_key.equal_iff a.tool_name tool,
            string_key.equal_iff a.tool_name "",
          ),
        ))
    | inr other ↦ rw other (
        count_call-Follows item a seen s e
          (λ q. ground (arith, string_key.equal_iff a.tool_name "")) (fresh, track))
  ]

  observe_event-Follows :
      (item : Item) (seen : List Item) (s : LoopState)
      → 1 ≤ threshold
      → Follows seen s
      → Follows (item ∷ seen) (observe_event is_uninformative threshold item s)
  unfolding observe_event
  observe_event-Follows item seen s positive (inl (fresh, track)) =
      let idle : (not (s.tripped_tool == "") || ltb threshold 1) ≡ false =
        ground (arith, string_key.equal_iff s.tripped_tool "") in
      rw idle (counted-Follows item (tool_call_complete_attrs item) seen s refl (fresh, track))
  observe_event-Follows item seen s positive (inr (tripped, exact, (before, suffix, e))) =
      let busy : (not (s.tripped_tool == "") || ltb threshold 1) ≡ true =
        ground (arith, string_key.equal_iff s.tripped_tool "") in
      rw busy (inr (tripped, exact, (before, IsSuffix-cons suffix, e)))

-- The events with those seen before, the newest first.
abbrev pub onto : List Item → List Item → List Item
onto [] seen = seen
onto (item ∷ items) seen = onto items (item ∷ seen)

forwarded-Follows :
    (w : World) (o : Options) (item : Item) (seen : List Item) (s : LoopState)
    → 1 ≤ o.circuit_breaker_threshold
    → Follows w.is_uninformative o.circuit_breaker_threshold seen s
    → Follows w.is_uninformative o.circuit_breaker_threshold (item ∷ seen) (pass_on w o item s)
unfolding forwarded
forwarded-Follows w o item seen s positive h =
    observe_event-Follows w.is_uninformative o.circuit_breaker_threshold item seen
      (forwarded item s) positive h

-- With a threshold above 0: as long as no tool has tripped, the loop counts for each tool how many of
-- its last calls failed in a row, which is below the threshold; and a tool that has tripped failed as
-- often in a row as the threshold says.
pub pass_on_all-Follows :
    (w : World) (o : Options) (items seen : List Item) (s : LoopState)
    → 1 ≤ o.circuit_breaker_threshold
    → Follows w.is_uninformative o.circuit_breaker_threshold seen s
    → Follows w.is_uninformative o.circuit_breaker_threshold
        (onto items seen)
        (pass_on_all w o items s)
unfolding pass_on_all
pass_on_all-Follows w o [] seen s positive h = h
pass_on_all-Follows w o (item ∷ items) seen s positive h =
    pass_on_all-Follows w o items (item ∷ seen) (pass_on w o item s) positive
      (forwarded-Follows w o item seen s positive h)
