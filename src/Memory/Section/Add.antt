-- ===== src/Memory/Section/Add.antt =====
-- memory/sections.py, `add`: what the method promises of the section that it leaves.
use kaos_agents.Prelude.{
  ℕ, ◌+◌, ◌-◌, ◌≤◌, ◌≡◌, ◌⊎◌, inl, inr, true, false, String, arith, Bool-cases, subst,
}
use kaos_agents.Prelude.Result.{Result, err, is_ok}
use kaos_agents.Memory.Types.{MemoryType, MemoryItem, ItemOptions, create_item}
use kaos_agents.Memory.Section.{
  Section, MemoryError, budget_exceeded, is_over_budget, add_item, cap_items, admit, add,
}
use kaos_agents.Memory.Section.Loop.{
  IsConsistent, Evictions, Evictions-config, Evictions-tokens, Evictions-IsConsistent,
  evict_tokens-Evictions,
}
use kaos_agents.Memory.Section.Budget.{
  overflows, add_item-IsConsistent, cap_items-IsConsistent, cap_items-config, cap_items-tokens,
  Admits, fits, overflowing, refused, evicted, failed, admit-Admits,
}

Admits-IsConsistent :
    {item : MemoryItem} {s : Section} (r : Section × Result MemoryError MemoryItem)
    → Admits item s r
    → IsConsistent s
    → IsConsistent r.0
Admits-IsConsistent {item} {s} _ (fits h) c = add_item-IsConsistent item s c
Admits-IsConsistent {item} {s} _ (overflowing h) c = add_item-IsConsistent item s c
Admits-IsConsistent _ (refused h) c = c
Admits-IsConsistent {item} {s} _ (evicted t freed r h) c =
    add_item-IsConsistent item t (Evictions-IsConsistent r c)
Admits-IsConsistent {item} {s} _ (failed t freed e h) c =
    let n = s.token_count + item.token_count - s.config.budget_tokens in
    Evictions-IsConsistent (subst (λ r. Evictions r.0 r.1 s 0) e (evict_tokens-Evictions n s)) c

is_over_budget-le :
    (t s : Section)
    → t.config ≡ s.config
    → t.token_count ≤ s.token_count
    → is_over_budget s ≡ false
    → is_over_budget t ≡ false
unfolding is_over_budget
is_over_budget-le t s config less within = rw config (ground arith)

Admits-within_budget :
    {item : MemoryItem} {s : Section} (r : Section × Result MemoryError MemoryItem)
    → Admits item s r
    → IsConsistent s
    → overflows s.config.summarization_policy ≡ false
    → (is_over_budget s ≡ false) ⊎ (is_ok r.1 ≡ true)
    → is_over_budget r.0 ≡ false
unfolding is_over_budget add_item
Admits-within_budget _ (fits h) c waits o = ground arith
Admits-within_budget _ (overflowing h) c waits o = cc
Admits-within_budget _ (refused h) c waits (inl within) = within
Admits-within_budget _ (refused h) c waits (inr success) = cc
Admits-within_budget {item} {s} _ (evicted t freed r h) c waits o =
    let e = Evictions-config r in
    rw e (ground (arith, c.counted, (Evictions-IsConsistent r c).counted, Evictions-tokens r))
Admits-within_budget {item} {s} _ (failed t freed e h) c waits (inl within) =
    let n = s.token_count + item.token_count - s.config.budget_tokens in
    let r = subst (λ r. Evictions r.0 r.1 s 0) e (evict_tokens-Evictions n s) in
    is_over_budget-le t s (Evictions-config r)
      (omega (arith, c.counted, (Evictions-IsConsistent r c).counted, Evictions-tokens r)) within
Admits-within_budget _ (failed t freed e h) c waits (inr success) = cc

module _ (make_id : String → MemoryType → ℕ → String) (now : ℕ) (content : String) (o : ItemOptions)
    (s : Section) where
  abbrev pub item : MemoryItem
  item = create_item make_id now s.config.memory_type content o

  -- `add` raises for an explicit section, and otherwise goes on to `admit`.
  pub add_cases :
      (s.config.explicit_only ≡ true) × (add make_id now content o s ≡ (s, err budget_exceeded))
      ⊎ (s.config.explicit_only ≡ false) × (add make_id now content o s ≡ admit item (cap_items s))
  unfolding add
  add_cases = elim (Bool-cases s.config.explicit_only) [
    | inl e ↦ inl (e, rw e)
    | inr e ↦ inr (e, rw e)
  ]

  -- Whether `add` succeeds or raises, the token counter stays the sum of the items' tokens.
  pub add-IsConsistent : IsConsistent s → IsConsistent (add make_id now content o s).0
  add-IsConsistent c = elim add_cases [
    | inl (_, e) ↦ rw e c
    | inr (_, e) ↦
        rw e (Admits-IsConsistent _ (admit-Admits item (cap_items s)) (cap_items-IsConsistent s c))
  ]

  -- A section whose counter is the sum of its items' tokens and that is not summarized on overflow is
  -- within its budget after `add`, if it was within it before, whether `add` succeeds or raises, or if
  -- `add` succeeds, even where it was over the budget before.
  pub add-within_budget :
      IsConsistent s
      → overflows s.config.summarization_policy ≡ false
      → (is_over_budget s ≡ false) ⊎ (is_ok (add make_id now content o s).1 ≡ true)
      → is_over_budget (add make_id now content o s).0 ≡ false
  add-within_budget c waits either = elim add_cases [
    | inl (_, e) ↦ elim either [
      | inl within ↦ rw e within
      | inr success ↦ absurd (raised (rw e at success))
    ]
    | inr (_, e) ↦ rw e (
        Admits-within_budget _ (admit-Admits item (cap_items s)) (cap_items-IsConsistent s c)
          (rw (cap_items-config s) waits)
          (elim either [
            | inl within ↦
                inl (
                  is_over_budget-le (cap_items s) s (cap_items-config s) (cap_items-tokens s)
                    within)
            | inr success ↦ inr (rw e at success)
          ]))
  ]
    where
      raised : false ≡ true → ⊥
      raised h = cc
