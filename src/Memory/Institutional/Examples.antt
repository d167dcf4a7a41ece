-- ===== src/Memory/Institutional/Examples.antt =====
-- memory/institutional.py and memory/promotion.py: a guarded knowledge base with two entries.
use kaos_agents.Prelude.{ℕ, ◌≡◌, refl, true, some, none, [], ◌∷◌, ◌++◌, String, filter}
use Prim.Native.String.{count}
use kaos_agents.Prelude.Equality.{string_key}
use kaos_agents.Prelude.Result.{ok, err}
use kaos_agents.Memory.Institutional.{
  Namespace, KbEntry, KbQuery, KnowledgeBase, cross_namespace, query, in_scope, passes, place,
  ranked, Finding, PromotionPolicy, consider, qualifies, add_entry, entry_of,
}
use kaos_agents.Memory.Institutional.Isolation.{IsGuarded, Considered, consider-IsGuarded}
use kaos_agents.Memory.Institutional.Ranking.{Shown, query-Shown}

abbrev matter : Namespace
matter = ("m1", "acme")

abbrev other_matter : Namespace
other_matter = ("m2", "acme")

abbrev entry : String → KbEntry
entry statement = record {
  id = statement;
  statement = statement;
  matter_client = matter;
  confidence = 90;
  grounding_verified = true;
  provenance = [];
}

abbrev base : KnowledgeBase
base = record {
  guard = record { bound = some matter };
  entries = entry "abc" ∷ entry "a" ∷ entry "abcde" ∷ [];
}

abbrev longest : KbQuery
longest = record { query_text = ""; matter_client = matter; top_k = 2; min_confidence = 85 }

abbrev by_length : String → String → ℕ
by_length statement words = count statement

query_shows : query by_length longest base ≡ ok (entry "abcde" ∷ entry "abc" ∷ [])
unfolding query passes in_scope ranked place filter
query_shows = refl

query_blocked :
    query by_length (record longest { matter_client = other_matter }) base
    ≡ err (cross_namespace other_matter)
unfolding query passes
query_blocked = refl

query-Shown_example : Shown by_length longest base (query by_length longest base)
query-Shown_example = query-Shown by_length longest base

abbrev verified : Finding
verified = record {
  id = "f1";
  statement = "a clause";
  confidence = 92;
  is_verified = true;
  spans = [];
}

abbrev strict : PromotionPolicy
strict = record { min_confidence = 85; require_grounding = true }

abbrev no_id : ℕ → String → String
no_id confidence statement = statement

consider_promotes :
    consider no_id verified matter none strict base
    ≡ ok (
      true,
      record base { entries = base.entries ++ entry_of no_id verified matter none strict ∷ [] },
    )
unfolding consider qualifies add_entry passes entry_of
consider_promotes = refl

guarded : IsGuarded base
unfolding passes
guarded = (refl, (refl, (refl, tt)))

consider-IsGuarded_example :
    Considered no_id verified matter none strict base
      (consider no_id verified matter none strict base)
consider-IsGuarded_example = consider-IsGuarded no_id verified matter none strict base guarded
