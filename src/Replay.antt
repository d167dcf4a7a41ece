-- ===== src/Replay.antt =====
-- replay/recorder.py and replay/diff.py: a recorded run and how two of them differ. An event is its
-- type's name, its cost, and the text of a TurnSummary; the diff of the texts is left out.
pub mod Divergence
mod Examples
use kaos_agents.Prelude.{
  ℕ, suc, ◌+◌, Bool, true, false, not, ◌&&◌, Option, none, some, List, [], ◌∷◌, ◌++◌, String,
  length, map, all, if◌then◌else◌, ◌==◌ as nat_beq,
}
use kaos_agents.Prelude.Equality.{◌==◌, string_key, to_set}
use kaos_agents.Prelude.Dict.{lookup, insert}

pub record RecordedEvent : Type 0 where
  pub type_name : String
  pub cost : ℕ
  pub summary_text : Option String

abbrev pub Histogram : Type 0
Histogram = List (String × ℕ)

pub record RunSummary : Type 0 where
  pub event_count : ℕ
  pub type_histogram : Histogram
  pub total_cost : ℕ
  pub turn_count : ℕ

abbrev pub count_in : String → Histogram → ℕ
count_in t histogram = elim (lookup t histogram) [ none ↦ 0 | some n ↦ n ]

abbrev pub is_turn : RecordedEvent → ℕ
is_turn event = elim event.summary_text [ none ↦ 0 | some text ↦ 1 ]

unfoldable pub tally : String → Histogram → Histogram
tally t histogram = insert t (count_in t histogram + 1) histogram

abbrev pub observed : RecordedEvent → RunSummary → RunSummary
observed event s = record {
  event_count = s.event_count;
  type_histogram = tally event.type_name s.type_histogram;
  total_cost = s.total_cost + event.cost;
  turn_count = s.turn_count + is_turn event;
}

unfoldable pub summarize : List RecordedEvent → RunSummary → RunSummary
summarize [] s = s
summarize (event ∷ events) s = summarize events (observed event s)

abbrev pub empty_summary : ℕ → RunSummary
empty_summary n = record { event_count = n; type_histogram = []; total_cost = 0; turn_count = 0 }

unfoldable pub build_summary : List RecordedEvent → RunSummary
build_summary events = summarize events (empty_summary (length events))

-- `zip` stops with the shorter run; then the lengths are compared.
unfoldable pub first_divergence : List RecordedEvent → List RecordedEvent → Option ℕ
first_divergence [] [] = none
first_divergence [] (b ∷ bs) = some 0
first_divergence (a ∷ as') [] = some 0
first_divergence (a ∷ as') (b ∷ bs) =
    let later = first_divergence as' bs in
    if a.type_name == b.type_name
    then elim later [ none ↦ none | some n ↦ some (suc n) ]
    else some 0

-- The types of either run.
unfoldable pub all_types : RunSummary → RunSummary → List String
all_types bs cs = to_set (
    map (λ (p : String × ℕ). p.0) bs.type_histogram
    ++ map (λ (p : String × ℕ). p.0) cs.type_histogram)

abbrev pub is_zero_delta : RunSummary → RunSummary → String → Bool
is_zero_delta bs cs t = nat_beq (count_in t bs.type_histogram) (count_in t cs.type_histogram)

abbrev pub never_diverges : Option ℕ → Bool
never_diverges none = true
never_diverges (some n) = false

-- `is_equivalent` of the diff of two runs.
unfoldable pub is_equivalent : List RecordedEvent → List RecordedEvent → Bool
is_equivalent baseline candidate =
    let bs = build_summary baseline in
    let cs = build_summary candidate in
    nat_beq bs.event_count cs.event_count
    && (nat_beq bs.turn_count cs.turn_count
        && (never_diverges (first_divergence baseline candidate)
            && all (is_zero_delta bs cs) (all_types bs cs)))
