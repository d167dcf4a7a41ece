-- ===== src/Memory/Institutional/Isolation.antt =====
-- memory/institutional.py, memory/isolation.py and memory/promotion.py: whose entries a knowledge base
-- holds.
use mathlib.Core.List.{append-nil}
use kaos_agents.Prelude.{
  ℕ, ◌≡◌, refl, sym, inl, inr, Bool, true, false, Option, List, [], ◌∷◌, ◌++◌, String, All,
  Bool-cases, if◌then◌else◌,
}
use kaos_agents.Prelude.Equality.{string_key}
use kaos_agents.Prelude.Result.{Result, ok, err}
use kaos_agents.Memory.Institutional.{
  Namespace, cross_namespace, passes, KbEntry, KnowledgeBase, MatterIsolationError, add_entry,
  Finding, PromotionPolicy, qualifies, entry_of, consider,
}

-- Every entry may be written under the guard.
abbrev pub IsGuarded : KnowledgeBase → Type 0
IsGuarded kb = All (λ (e : KbEntry). passes kb.guard e.matter_client ≡ true) kb.entries

All-concat :
    (P : KbEntry → Type 0) (xs : List KbEntry) (x : KbEntry) → All P xs → P x → All P (xs ++ x ∷ [])
All-concat P [] x h p = (p, tt)
All-concat P (y ∷ xs) x h p = (h.0, All-concat P xs x h.1 p)

-- A finding that qualifies is written if the guard lets its namespace pass.
pub consider_lem :
    (made_id : ℕ → String → String) (f : Finding) (ns : Namespace) (fid : Option String)
    (p : PromotionPolicy) (kb : KnowledgeBase)
    → consider made_id f ns fid p kb ≡ (
        if qualifies f p
        then if passes kb.guard ns
          then ok (true, record kb { entries = kb.entries ++ entry_of made_id f ns fid p ∷ [] })
          else err (cross_namespace ns)
        else ok (false, kb))
unfolding consider add_entry entry_of
consider_lem made_id f ns fid p kb = elim (Bool-cases (qualifies f p)) [
  | inl good ↦ rw good (elim (Bool-cases (passes kb.guard ns)) [
    | inl open_ ↦ rw open_ refl
    | inr shut ↦ rw shut refl
  ])
  | inr poor ↦ rw poor refl
]

module _ (made_id : ℕ → String → String) (f : Finding) (ns : Namespace) (fid : Option String)
    (p : PromotionPolicy) (kb : KnowledgeBase) where
  -- What is known of the knowledge base afterwards.
  abbrev pub Considered : Result MatterIsolationError (Bool × KnowledgeBase) → Type 0
  Considered (ok (promoted, after)) =
      IsGuarded after
      × (after.guard ≡ kb.guard)
      × (promoted ≡ qualifies f p)
      × (after.entries ≡ kb.entries ++ (if promoted then entry_of made_id f ns fid p ∷ [] else []))
  Considered (err e) =
      (e ≡ cross_namespace ns) × (qualifies f p ≡ true) × (passes kb.guard ns ≡ false)

  -- Where every entry may be written under the guard, considering a finding keeps the guard and this
  -- property, and adds the finding's entry exactly if the finding qualifies; it raises only where the
  -- finding qualifies and the guard does not let its namespace pass.
  pub consider-IsGuarded : IsGuarded kb → Considered (consider made_id f ns fid p kb)
  unfolding entry_of
  consider-IsGuarded guarded = rw consider_lem (elim (Bool-cases (qualifies f p)) [
    | inl good ↦ rw good (elim (Bool-cases (passes kb.guard ns)) [
      | inl free ↦ rw free (
        All-concat (λ e. passes kb.guard e.matter_client ≡ true) kb.entries
            (entry_of made_id f ns fid p) guarded free,
        refl,
        sym good,
        refl,
      )
      | inr shut ↦ rw shut (refl, good, shut)
    ])
    | inr poor ↦ rw poor (guarded, refl, sym poor, sym (append-nil kb.entries))
  ])
