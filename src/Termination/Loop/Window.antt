-- ===== src/Termination/Loop/Window.antt =====
-- termination/loop_detect.py: the calls that the detector remembers.
use kaos_agents.Prelude.{
  ℕ, zero, suc, ◌+◌, ◌-◌, ◌≤◌, ◌≡◌, refl, sym, ap, ◌∙◌, max, Option, List, [], ◌∷◌, ◌++◌, String,
  drop, length, arith, length-append, ◌<◌, ◌⊎◌, inl, inr, Bool,
}
use mathlib.Core.List.{append_assoc, append-nil}
use kaos_agents.Termination.Loop.{LoopDetector, new, append_bounded, observe, observe_all}

-- The last `n` of a list.
abbrev pub last : ℕ → List String → List String
last n xs = drop (length xs - n) xs

drop-append : (k : ℕ) (xs ys : List String) → k ≤ length xs → drop k (xs ++ ys) ≡ drop k xs ++ ys
drop-append zero xs ys h = refl
drop-append (suc k) [] ys h = absurd (omega (arith, h))
drop-append (suc k) (x ∷ xs) ys h = drop-append k xs ys (omega (arith, h))

drop_nil : (k : ℕ) → drop {A = String} k [] ≡ []
drop_nil zero = refl
drop_nil (suc k) = refl

drop-drop : (j k : ℕ) (xs : List String) → drop j (drop k xs) ≡ drop (k + j) xs
drop-drop j zero xs = ap (λ n. drop n xs) (omega arith)
drop-drop j (suc k) [] = drop_nil j ∙ sym (drop_nil (suc k + j))
drop-drop j (suc k) (x ∷ xs) = drop-drop j k xs ∙ sym (ap (λ n. drop n (x ∷ xs)) (shift k j))
  where
    shift : (k j : ℕ) → suc k + j ≡ suc (k + j)
    shift k j = omega arith

length-drop : (k : ℕ) (xs : List String) → length (drop k xs) ≡ length xs - k
length-drop zero xs = omega arith
length-drop (suc k) [] = omega arith
length-drop (suc k) (x ∷ xs) = omega (arith, length-drop k xs)

-- Appending to the last `w` calls gives the last `w` calls.
append_bounded-last :
    (w : ℕ) (past : List String) (s : String)
    → 1 ≤ w
    → append_bounded w (last w past) s ≡ last w (past ++ s ∷ [])
unfolding append_bounded
append_bounded-last w past s h = elim (le_or_lt w (length past)) [
  | inl long ↦
      let k = length past - w in
      ap (λ (xs : List String). drop (length xs - w) xs)
        (sym (drop-append k past (s ∷ []) (omega arith)))
      ∙ drop-drop (length (drop k (past ++ s ∷ [])) - w) k (past ++ s ∷ [])
      ∙ ap (λ n. drop n (past ++ s ∷ []))
          (omega (arith, long, length-drop k (past ++ s ∷ []), length-append past (s ∷ [])))
  | inr short ↦
      ap (λ (xs : List String). drop (length (xs ++ s ∷ []) - w) (xs ++ s ∷ []))
        (ap (λ n. drop n past) (nothing_over w (length past) short))
]
  where
    le_or_lt : (a b : ℕ) → (a ≤ b) ⊎ (b < a)
    le_or_lt a b = ground arith

    nothing_over : (a b : ℕ) → b < a → b - a ≡ 0
    nothing_over a b h = omega arith

observe_all_from :
    (later past : List String) (d : LoopDetector)
    → 1 ≤ d.window_size
    → d.signatures ≡ last d.window_size past
    → (observe_all later d).signatures ≡ last d.window_size (past ++ later)
unfolding observe_all observe
observe_all_from [] past d one e = e ∙ ap (λ xs. last d.window_size xs) (sym (append-nil past))
observe_all_from (s ∷ later) past d one e =
    observe_all_from later (past ++ s ∷ []) (observe s d).0 one (
      ap (λ xs. append_bounded d.window_size xs s) e ∙ append_bounded-last d.window_size past s one)
    ∙ ap (λ xs. last d.window_size xs) (append_assoc past (s ∷ []) later)

-- After any calls, a new detector remembers exactly the last of them, as many as its window has, which
-- is at least two.
pub observe_all-last :
    (window_size : ℕ) (scorer : Option (String → String → Bool)) (calls : List String)
    → (observe_all calls (new window_size scorer)).signatures ≡ last (max 2 window_size) calls
unfolding new
observe_all-last window_size scorer calls =
    observe_all_from calls [] (new window_size scorer) (omega arith) (sym (drop_nil _))
