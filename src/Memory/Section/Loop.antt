-- ===== src/Memory/Section/Loop.antt =====
-- memory/sections.py, `_evict_tokens`: how its loop ends, and the single evictions that it does.
use kaos_agents.Prelude.{
  ℕ, zero, suc, ◌+◌, ◌≤◌, ◌≡◌, refl, ◌⊎◌, inl, inr, false, not, ◌&&◌, Option, none, some, List, [],
  ◌∷◌, length, arith, ltb, Bool-cases, if◌then◌else◌,
}
use kaos_agents.Memory.Types.{MemoryItem, tokens}
use kaos_agents.Memory.Section.{Section, forget, pick, evict_one, evict_loop, evict_tokens, is_nil}
use kaos_agents.Memory.Section.Removal.{Removal, tokens-Removal, length-Removal, evict_one_cases}

-- The counter is the sum of what the items count.
pub record IsConsistent (s : Section) : Type 0 where
  pub counted : s.token_count ≡ tokens s.items

-- From `s` and `n` freed tokens, single evictions lead to `t` and `m` freed tokens.
pub data Evictions (t : Section) (m : ℕ) : Section → ℕ → Type 0 where
  done : Evictions t m t m
  evicts :
      {s : Section} {n : ℕ} (y : MemoryItem) (ys : List MemoryItem)
      → Removal s.items y ys
      → Evictions t m (forget s y ys) (n + y.token_count)
      → Evictions t m s n

abbrev round : ℕ → ℕ → ℕ → Section × Option MemoryItem → Section × ℕ
round fuel needed freed (s', none) = (s', freed)
round fuel needed freed (s', some item) = evict_loop fuel needed (freed + item.token_count) s'

-- One turn of the loop, with its test.
evict_loop-suc :
    (fuel needed freed : ℕ) (s : Section)
    → evict_loop (suc fuel) needed freed s ≡ (
        if ltb freed needed && not (is_nil s.items)
        then round fuel needed freed (evict_one s)
        else (s, freed))
unfolding evict_loop
evict_loop-suc fuel needed freed s = go (evict_one s) refl
  where
    go :
        (r : Section × Option MemoryItem)
        → evict_one s ≡ r
        → evict_loop (suc fuel) needed freed s ≡ (
            if ltb freed needed && not (is_nil s.items)
            then round fuel needed freed (evict_one s)
            else (s, freed))
    go (s', none) e = rw (e, e) refl
    go (s', some item) e = rw (e, e) refl

pub evict_loop-Evictions :
    (fuel needed freed : ℕ) (s : Section)
    → let r = evict_loop fuel needed freed s in Evictions r.0 r.1 s freed
unfolding evict_loop
evict_loop-Evictions zero needed freed s = done
evict_loop-Evictions (suc fuel) needed freed s =
    rw (evict_loop-suc fuel needed freed s)
      (elim (Bool-cases (ltb freed needed && not (is_nil s.items))) [
        | inr stop ↦ rw stop done
        | inl goes ↦ rw goes (elim (evict_one_cases s) [
          | inl (_, e) ↦ rw e done
          | inr (y, ys, removal, e) ↦ rw e (
              evicts y ys removal
                (evict_loop-Evictions fuel needed (freed + y.token_count) (forget s y ys)))
        ])
      ])

-- Why the loop stopped: enough is freed, or no item is left, or the policy gives none up.
abbrev pub IsFinished : ℕ → Section × ℕ → Type 0
IsFinished needed (s, freed) =
    (needed ≤ freed) ⊎ ((s.items ≡ []) ⊎ (pick s.config.eviction_policy s s.items ≡ none))

test_fails :
    (freed needed : ℕ) (items : List MemoryItem)
    → (ltb freed needed && not (is_nil items)) ≡ false
    → (needed ≤ freed) ⊎ (items ≡ [])
unfolding is_nil
test_fails freed needed [] h = inr refl
test_fails freed needed (x ∷ xs) h = ground arith

pub evict_loop-IsFinished :
    (fuel needed freed : ℕ) (s : Section)
    → length s.items ≤ fuel
    → IsFinished needed (evict_loop fuel needed freed s)
unfolding forget
evict_loop-IsFinished zero needed freed s h = unfold evict_loop in inr (inl (no_items s.items h))
  where
    no_items : (items : List MemoryItem) → length items ≤ 0 → items ≡ []
    no_items [] h = refl
    no_items (x ∷ xs) h = absurd (omega arith)
evict_loop-IsFinished (suc fuel) needed freed s h =
    rw (evict_loop-suc fuel needed freed s)
      (elim (Bool-cases (ltb freed needed && not (is_nil s.items))) [
        | inr stop ↦ rw stop (elim (test_fails freed needed s.items stop) [
          | inl enough ↦ inl enough
          | inr empty ↦ inr (inl empty)
        ])
        | inl goes ↦ rw goes (elim (evict_one_cases s) [
          | inl (stuck, e) ↦ rw e (inr (inr stuck))
          | inr (y, ys, removal, e) ↦ rw e (
              evict_loop-IsFinished fuel needed (freed + y.token_count) (forget s y ys)
                (omega (arith, length-Removal removal)))
        ])
      ])

module _ {t : Section} {m : ℕ} where
  pub Evictions-config : {s : Section} {n : ℕ} → Evictions t m s n → t.config ≡ s.config
  unfolding forget
  Evictions-config done = refl
  Evictions-config (evicts y ys removal r) = Evictions-config r

  -- What is freed is what the items that are gone count.
  pub Evictions-tokens :
      {s : Section} {n : ℕ} → Evictions t m s n → tokens s.items + n ≡ tokens t.items + m
  unfolding forget
  Evictions-tokens done = refl
  Evictions-tokens (evicts y ys removal r) =
      omega (arith, Evictions-tokens r, tokens-Removal removal)

  pub Evictions-IsConsistent :
      {s : Section} {n : ℕ} → Evictions t m s n → IsConsistent s → IsConsistent t
  unfolding forget
  Evictions-IsConsistent done c = c
  Evictions-IsConsistent (evicts y ys removal r) c =
      Evictions-IsConsistent r
        (record { counted = omega (arith, c.counted, tokens-Removal removal) })

  pub Evictions-length : {s : Section} {n : ℕ} → Evictions t m s n → length t.items ≤ length s.items
  unfolding forget
  Evictions-length done = omega arith
  Evictions-length (evicts y ys removal r) =
      omega (arith, Evictions-length r, length-Removal removal)

-- `_evict_tokens` stops where the source's loop does, and never for lack of rounds.
pub evict_tokens-IsFinished : (needed : ℕ) (s : Section) → IsFinished needed (evict_tokens needed s)
unfolding evict_tokens
evict_tokens-IsFinished needed s = evict_loop-IsFinished (length s.items) needed 0 s (omega arith)

pub evict_tokens-Evictions :
    (needed : ℕ) (s : Section) → let r = evict_tokens needed s in Evictions r.0 r.1 s 0
unfolding evict_tokens
evict_tokens-Evictions needed s = evict_loop-Evictions (length s.items) needed 0 s

round_keeps :
    (P : Section → Type 0) (fuel needed freed : ℕ)
    → ((n : ℕ) (s : Section) → P s → P (evict_loop fuel needed n s).0)
    → (r : Section × Option MemoryItem) → P r.0
    → P (round fuel needed freed r).0
round_keeps P fuel needed freed rest (s', none) q = q
round_keeps P fuel needed freed rest (s', some item) q = rest (freed + item.token_count) s' q

-- What every single eviction keeps, the loop keeps.
evict_loop_keeps :
    (P : Section → Type 0)
    → ((s : Section) → P s → P (evict_one s).0)
    → (fuel needed freed : ℕ) (s : Section) → P s
    → P (evict_loop fuel needed freed s).0
evict_loop_keeps P step zero needed freed s p = unfold evict_loop in p
evict_loop_keeps P step (suc fuel) needed freed s p =
    rw (evict_loop-suc fuel needed freed s)
      (elim (Bool-cases (ltb freed needed && not (is_nil s.items))) [
        | inr stop ↦ rw stop p
        | inl goes ↦ rw goes (
            round_keeps P fuel needed freed (λ n t q. evict_loop_keeps P step fuel needed n t q)
              (evict_one s) (step s p))
      ])

pub evict_tokens_keeps :
    (P : Section → Type 0)
    → ((s : Section) → P s → P (evict_one s).0)
    → (needed : ℕ) (s : Section) → P s
    → P (evict_tokens needed s).0
unfolding evict_tokens
evict_tokens_keeps P step needed s p = evict_loop_keeps P step (length s.items) needed 0 s p
