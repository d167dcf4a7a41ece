-- ===== src/Turn/Run.antt =====
-- patterns/agentic_loop.py: the run of the generator. A step may end it, as by `return`, or raise.
use kaos_agents.Prelude.{ℕ, ◌+◌, ◌∷◌, String, Bool, if◌then◌else◌}
use kaos_agents.Prelude.Reply.{Reply, replies, fails, cancelled}
use kaos_agents.Turn.Types.{LoopState, Event, emits, forwards, Item, Reason, loop_terminated}

pub data Fault : Type 0 where
  interrupted : Fault
  failed : String → Fault

-- `out_of_fuel` is no outcome of the program: the loop was given too little fuel.
pub data Run (A : Type 0) : Type 0 where
  goes : A → LoopState → Run A
  returns : LoopState → Run A
  raises : Fault → LoopState → Run A
  out_of_fuel : LoopState → Run A

abbrev pub M : Type 0 → Type 0
M A = LoopState → Run A

-- A step without a value.
abbrev pub Effect : Type 0
Effect = M (Unit {0})

abbrev pub and_then : {A B : Type 0} → Run A → (A → LoopState → Run B) → Run B
and_then (goes a s) f = f a s
and_then (returns s) f = returns s
and_then (raises e s) f = raises e s
and_then (out_of_fuel s) f = out_of_fuel s

infixl 5 ◌>>=◌ ◌>>◌
abbrev pub ◌>>=◌ : {A B : Type 0} → M A → (A → M B) → M B
◌>>=◌ m f s = and_then (m s) f

abbrev pub ◌>>◌ : {B : Type 0} → Effect → M B → M B
m >> k = m >>= λ _. k

abbrev pub pure : {A : Type 0} → A → M A
pure a s = goes a s

abbrev pub get : M LoopState
get s = goes s s

abbrev pub modify : (LoopState → LoopState) → Effect
modify f s = goes tt (f s)

abbrev pub quit : Effect
quit s = returns s

-- `await`: CancelledError and any other exception leave the generator.
abbrev pub await : {A : Type 0} → Reply A → M A
await (replies a) s = goes a s
await (fails message) s = raises (failed message) s
await cancelled s = raises interrupted s

abbrev pub when : Bool → Effect → Effect
when b m = if b then m else pure tt

-- `_evt_base` numbers the event, which is then yielded.
unfoldable pub emitted : Event → LoopState → LoopState
emitted e s = record s { sequence = s.sequence + 1; acts = emits (s.sequence + 1) e ∷ s.acts }

abbrev pub emit : Event → Effect
emit e = modify (emitted e)

unfoldable pub forwarded : Item → LoopState → LoopState
forwarded item s = record s { acts = forwards item ∷ s.acts }

-- `_terminate`, with the wall clock left out.
unfoldable pub terminated : Reason → LoopState → LoopState
unfolding emitted
terminated reason s =
    emitted (loop_terminated reason s.iteration s.elevation_count s.cumulative_cost) s

unfoldable pub charged : ℕ → LoopState → LoopState
charged cost s = record s { cumulative_cost = s.cumulative_cost + cost }
