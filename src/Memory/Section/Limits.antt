-- ===== src/Memory/Section/Limits.antt =====
-- memory/sections.py, `add`: which items stay, `max_items`, and what a failed `add` leaves behind.
use kaos_agents.Prelude.{
  if◌then◌else◌, ℕ, suc, ◌+◌, ◌-◌, ◌≤◌, ◌<◌, ◌≡◌, refl, sym, ap, inl, inr, true, false, Option,
  none, some, List, [], ◌∷◌, String, length, length-append, arith, leb, Bool-cases, ◌∙◌, subst,
}
use kaos_agents.Prelude.Result.{Result, is_ok}
use kaos_agents.Memory.Types.{MemoryType, MemoryItem, ItemOptions}
use kaos_agents.Memory.Section.{
  Section, MemoryError, forget, pick, evict_one, evict_tokens, add_item, cap_items, admit, add,
}
use kaos_agents.Memory.Section.Removal.{
  length-Removal, evict_one_cases, keeps_all, pick-keeps_all, pick-ne-none,
}
use kaos_agents.Memory.Section.Loop.{
  Evictions, Evictions-config, Evictions-length, IsFinished, evict_tokens-Evictions,
  evict_tokens-IsFinished, evict_tokens_keeps,
}
use kaos_agents.Memory.Section.Budget.{
  cap_items-config, cap_items_cases, Admits, fits, overflowing, refused, evicted, failed,
  admit-Admits,
}
use kaos_agents.Memory.Section.Add.{item, add_cases}

evict_one-keeps_all :
    (s : Section) → keeps_all s.config.eviction_policy ≡ true → evict_one s ≡ (s, none)
unfolding evict_one
evict_one-keeps_all s h = rw (pick-keeps_all s.config.eviction_policy s s.items h, evict_one)

cap_items-keeps_all : (s : Section) → keeps_all s.config.eviction_policy ≡ true → cap_items s ≡ s
cap_items-keeps_all s h = elim (cap_items_cases s) [
  | inl e ↦ e
  | inr e ↦ e ∙ ap (λ (r : Section × Option MemoryItem). r.0) (evict_one-keeps_all s h)
]

evict_tokens-keeps_all :
    (needed : ℕ) (s : Section)
    → keeps_all s.config.eviction_policy ≡ true
    → (evict_tokens needed s).0 ≡ s
evict_tokens-keeps_all needed s h =
    evict_tokens_keeps (λ t. t ≡ s)
      (λ t e.
        subst (λ u. (evict_one u).0 ≡ s) (sym e)
          (ap (λ (r : Section × Option MemoryItem). r.0) (evict_one-keeps_all s h)))
      needed s refl

Admits-err_unchanged :
    {item : MemoryItem} {s : Section} (r : Section × Result MemoryError MemoryItem)
    → Admits item s r
    → keeps_all s.config.eviction_policy ≡ true
    → is_ok r.1 ≡ false
    → r.0 ≡ s
Admits-err_unchanged _ (fits _) h f = cc
Admits-err_unchanged _ (overflowing _) h f = cc
Admits-err_unchanged _ (refused _) h f = refl
Admits-err_unchanged _ (evicted _ _ _ _) h f = cc
Admits-err_unchanged {item} {s} _ (failed t freed e _) h f =
    let n = s.token_count + item.token_count - s.config.budget_tokens in
    ap (λ (r : Section × ℕ). r.0) (sym e) ∙ evict_tokens-keeps_all n s h

-- A loop that stopped short, under a policy that evicts, has run out of items.
finished_short :
    (needed : ℕ) (t : Section) (freed : ℕ)
    → IsFinished needed (t, freed)
    → freed < needed
    → keeps_all t.config.eviction_policy ≡ false
    → t.items ≡ []
finished_short needed t freed (inl enough) short h = absurd (omega arith)
finished_short needed t freed (inr (inl e)) short h = e
finished_short needed t freed (inr (inr stuck)) short h = go t.items stuck
  where
    go : (items : List MemoryItem) → pick t.config.eviction_policy t items ≡ none → items ≡ []
    go [] e = refl
    go (x ∷ xs) e = let (y, ys, picked) = pick-ne-none t.config.eviction_policy t x xs h in cc

Admits-failed_empty :
    {item : MemoryItem} {s : Section} (r : Section × Result MemoryError MemoryItem)
    → Admits item s r
    → keeps_all s.config.eviction_policy ≡ false
    → is_ok r.1 ≡ false
    → r.0.items ≡ []
Admits-failed_empty _ (fits _) h f = cc
Admits-failed_empty _ (overflowing _) h f = cc
Admits-failed_empty _ (refused e) h f = absurd (clash (rw e at h))
  where
    clash : true ≡ false → ⊥
    clash e = cc
Admits-failed_empty _ (evicted _ _ _ _) h f = cc
Admits-failed_empty {item} {s} _ (failed t freed e short) h f =
    let n = s.token_count + item.token_count - s.config.budget_tokens in
    finished_short n t freed (subst (IsFinished n) e (evict_tokens-IsFinished n s)) short
      (rw (Evictions-config (subst (λ r. Evictions r.0 r.1 s 0) e (evict_tokens-Evictions n s))) h)

Admits-length :
    {item : MemoryItem} {s : Section} (r : Section × Result MemoryError MemoryItem)
    → Admits item s r
    → length r.0.items ≤ suc (length s.items)
unfolding add_item
Admits-length {item} {s} _ (fits _) = omega (arith, length-append s.items (item ∷ []))
Admits-length {item} {s} _ (overflowing _) = omega (arith, length-append s.items (item ∷ []))
Admits-length _ (refused _) = omega arith
Admits-length {item} {s} _ (evicted t _ r _) =
    omega (arith, length-append t.items (item ∷ []), Evictions-length r)
Admits-length {item} {s} _ (failed t freed e _) =
    let n = s.token_count + item.token_count - s.config.budget_tokens in
    omega
      (arith, Evictions-length (subst (λ r. Evictions r.0 r.1 s 0) e (evict_tokens-Evictions n s)))

evict_one-length :
    (s : Section) (n : ℕ)
    → keeps_all s.config.eviction_policy ≡ false
    → length s.items ≤ suc n
    → length (evict_one s).0.items ≤ n
unfolding forget
evict_one-length s n h bound = elim (evict_one_cases s) [
  | inr (y, ys, removal, e) ↦ rw e (omega (arith, length-Removal removal))
  | inl (stuck, e) ↦ rw e (go s.items stuck)
]
  where
    go : (items : List MemoryItem) → pick s.config.eviction_policy s items ≡ none → length items ≤ n
    go [] e = omega arith
    go (x ∷ xs) e = let (y, ys, picked) = pick-ne-none s.config.eviction_policy s x xs h in cc

cap_items-some :
    (s : Section) (limit : ℕ)
    → s.config.max_items ≡ some limit
    → cap_items s ≡ (if leb limit (length s.items) then (evict_one s).0 else s)
unfolding cap_items
cap_items-some s limit h = ground arith

cap_items-length :
    (s : Section) (n : ℕ)
    → s.config.max_items ≡ some (suc n)
    → keeps_all s.config.eviction_policy ≡ false
    → length s.items ≤ suc n
    → length (cap_items s).items ≤ n
cap_items-length s n limit h bound = elim (Bool-cases (leb (suc n) (length s.items))) [
  | inl full ↦ rw (cap_items-some s (suc n) limit, full) (evict_one-length s n h bound)
  | inr room ↦ rw (cap_items-some s (suc n) limit, room) (ground arith)
]

module _ (make_id : String → MemoryType → ℕ → String) (now : ℕ) (content : String) (o : ItemOptions)
    (s : Section) where
  -- Under an evicting policy a section within `max_items` is within it after `add`, which may raise.
  pub add-within_max_items :
      (n : ℕ)
      → s.config.max_items ≡ some (suc n)
      → keeps_all s.config.eviction_policy ≡ false
      → length s.items ≤ suc n
      → length (add make_id now content o s).0.items ≤ suc n
  add-within_max_items n limit h bound = elim (add_cases make_id now content o s) [
    | inl (_, e) ↦ rw e bound
    | inr (_, e) ↦ rw e (
        omega (
          arith,
          Admits-length _ (admit-Admits (item make_id now content o s) (cap_items s)),
          cap_items-length s n limit h bound,
        ))
  ]

  -- Under the policies NONE and REFUSE an `add` that raises leaves the section as it was.
  pub add-err_unchanged :
      keeps_all s.config.eviction_policy ≡ true
      → is_ok (add make_id now content o s).1 ≡ false
      → (add make_id now content o s).0 ≡ s
  add-err_unchanged h fails = elim (add_cases make_id now content o s) [
    | inl (_, e) ↦ rw e
    | inr (_, e) ↦
        let admitted =
          subst
            (λ t. Admits (item make_id now content o s) t (admit (item make_id now content o s) t))
            (cap_items-keeps_all s h) (admit-Admits (item make_id now content o s) (cap_items s)) in
        rw (e, cap_items-keeps_all s h)
          (Admits-err_unchanged _ admitted h (rw (e, cap_items-keeps_all s h) at fails))
  ]

  -- Under every other policy an `add` to a section that is not explicit-only, if it raises, has
  -- first evicted all the items.
  pub add-failed_empty :
      keeps_all s.config.eviction_policy ≡ false
      → s.config.explicit_only ≡ false
      → is_ok (add make_id now content o s).1 ≡ false
      → (add make_id now content o s).0.items ≡ []
  add-failed_empty h open_section fails = elim (add_cases make_id now content o s) [
    | inl (closed, e) ↦ cc
    | inr (_, e) ↦ rw e (
        Admits-failed_empty _ (admit-Admits (item make_id now content o s) (cap_items s))
          (rw (cap_items-config s) h) (rw e at fails))
  ]
