-- ===== src/Replay/Divergence.antt =====
-- replay/diff.py: when two runs are equivalent.
use kaos_agents.Prelude.{
  ℕ, ◌+◌, ◌≡◌, ◌↔◌, refl, ap, true, Option, none, some, List, [], ◌∷◌, String, length, map, all,
  arith,
}
use kaos_agents.Prelude.Equality.{string_key}
use kaos_agents.Replay.{
  RecordedEvent, RunSummary, tally, count_in, observed, summarize, build_summary, empty_summary,
  first_divergence, all_types, is_zero_delta, never_diverges, is_equivalent, is_turn,
}

abbrev pub types_of : List RecordedEvent → List String
types_of = map (λ (e : RecordedEvent). e.type_name)

abbrev pub turns_of : List RecordedEvent → ℕ
turns_of [] = 0
turns_of (e ∷ events) = is_turn e + turns_of events

-- No divergence means the same types in the same order.
pub first_divergence-types :
    (a b : List RecordedEvent) → first_divergence a b ≡ none → types_of a ≡ types_of b
unfolding first_divergence
first_divergence-types [] [] h = refl
first_divergence-types [] (y ∷ b) h = cc
first_divergence-types (x ∷ a) [] h = cc
first_divergence-types (x ∷ a) (y ∷ b) h =
    ground (arith, string_key.equal_iff x.type_name y.type_name, first_divergence-types a b)

pub types-first_divergence :
    (a b : List RecordedEvent) → types_of a ≡ types_of b → first_divergence a b ≡ none
unfolding first_divergence
types-first_divergence [] [] h = refl
types-first_divergence [] (y ∷ b) h = cc
types-first_divergence (x ∷ a) [] h = cc
types-first_divergence (x ∷ a) (y ∷ b) h =
    ground (arith, string_key.equal_iff x.type_name y.type_name, types-first_divergence a b)

summarize-fields :
    (events : List RecordedEvent) (s : RunSummary)
    → ((summarize events s).event_count ≡ s.event_count)
      × ((summarize events s).turn_count ≡ s.turn_count + turns_of events)
unfolding summarize
summarize-fields [] s = (refl, omega arith)
summarize-fields (e ∷ events) s = ground (arith, summarize-fields events (observed e s))

same_tally :
    (x y : RecordedEvent) (s t : RunSummary)
    → x.type_name ≡ y.type_name
    → s.type_histogram ≡ t.type_histogram
    → tally x.type_name s.type_histogram ≡ tally y.type_name t.type_histogram
same_tally x y s t h e = cc

-- The histogram depends on the types only.
summarize-histogram :
    (a b : List RecordedEvent) (s t : RunSummary)
    → types_of a ≡ types_of b
    → s.type_histogram ≡ t.type_histogram
    → (summarize a s).type_histogram ≡ (summarize b t).type_histogram
unfolding summarize
summarize-histogram [] [] s t h e = e
summarize-histogram [] (y ∷ b) s t h e = cc
summarize-histogram (x ∷ a) [] s t h e = cc
summarize-histogram (x ∷ a) (y ∷ b) s t h e =
    summarize-histogram a b (observed x s) (observed y t) (cc (h)) (same_tally x y s t (cc (h)) e)

length-types : (a b : List RecordedEvent) → types_of a ≡ types_of b → length a ≡ length b
length-types [] [] h = refl
length-types [] (y ∷ b) h = cc
length-types (x ∷ a) [] h = cc
length-types (x ∷ a) (y ∷ b) h = omega (arith, length-types a b (cc (h)))

no_deltas :
    (bs cs : RunSummary) (ts : List String)
    → bs.type_histogram ≡ cs.type_histogram
    → all (is_zero_delta bs cs) ts ≡ true
no_deltas bs cs [] e = refl
no_deltas bs cs (t ∷ ts) e =
    ground (arith, no_deltas bs cs ts e, ap (λ histogram. count_in t histogram) e)

divergence_none : (o : Option ℕ) → never_diverges o ≡ true → o ≡ none
divergence_none none h = refl
divergence_none (some n) h = cc

-- Two runs are equivalent exactly if they have the same event types in the same order and as many
-- turns.
pub is_equivalent_iff :
    (a b : List RecordedEvent)
    → (is_equivalent a b ≡ true) ↔ ((types_of a ≡ types_of b) × (turns_of a ≡ turns_of b))
unfolding is_equivalent build_summary
is_equivalent_iff a b = (λ h. forwards h, λ h. backwards h.0 h.1)
  where
    sa : RunSummary
    sa = empty_summary (length a)

    sb : RunSummary
    sb = empty_summary (length b)

    forwards : is_equivalent a b ≡ true → (types_of a ≡ types_of b) × (turns_of a ≡ turns_of b)
    forwards h = (
      first_divergence-types a b (divergence_none (first_divergence a b) (ground arith)),
      ground (arith, summarize-fields a sa, summarize-fields b sb),
    )

    backwards : types_of a ≡ types_of b → turns_of a ≡ turns_of b → is_equivalent a b ≡ true
    backwards h k = ground (
      arith,
      types-first_divergence a b h,
      length-types a b h,
      summarize-fields a sa,
      summarize-fields b sb,
      no_deltas (summarize a sa) (summarize b sb) (all_types (summarize a sa) (summarize b sb))
          (summarize-histogram a b sa sb h refl),
    )
