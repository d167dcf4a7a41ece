-- ===== src/Events/Stack.antt =====
-- events/collector.py: the stack of the open spans.
use kaos_agents.Prelude.{◌≡◌, refl, true, false, List, [], ◌∷◌, ◌++◌, String, some, arith}
use kaos_agents.Prelude.Equality.{string_key, contains}
use kaos_agents.Events.{del_from, last}

-- What stands above a span goes with it.
pub del_from-append :
    (s : String) (below above : List String)
    → contains below s ≡ false
    → del_from s (below ++ s ∷ above) ≡ below
unfolding del_from contains
del_from-append s [] above h = rw ((string_key.equal_iff s s).1 refl) refl
del_from-append s (x ∷ below) above h = ground (arith, del_from-append s below above)

pub contains-middle :
    (s : String) (below above : List String) → contains (below ++ s ∷ above) s ≡ true
unfolding contains
contains-middle s [] above = rw ((string_key.equal_iff s s).1 refl) refl
contains-middle s (x ∷ below) above = ground (arith, contains-middle s below above)

pub last-append : (s : String) (below : List String) → last (below ++ s ∷ []) ≡ some s
unfolding last
last-append s [] = refl
last-append s (x ∷ []) = refl
last-append s (x ∷ y ∷ below) = last-append s (y ∷ below)
