-- ===== src/Memory/Institutional.antt =====
-- memory/institutional.py, memory/isolation.py and memory/promotion.py: the knowledge base, the guard of
-- its namespaces, and the findings that are promoted to it. Confidences are in hundredths. How a
-- statement is scored against a query's words is a parameter, and so is the id that is made up for a
-- finding without one, which hashes the statement.
pub mod Isolation
pub mod Ranking
mod Examples
use kaos_agents.Prelude.{
  ℕ, leb, ltb, Bool, true, false, not, ◌&&◌, ◌||◌, Option, none, some, List, [], ◌∷◌, ◌++◌, String,
  filter, take, if◌then◌else◌,
}
use kaos_agents.Prelude.Equality.{◌==◌, string_key}
use kaos_agents.Prelude.Result.{Result, ok, err}

-- `(matter_id, client_id)`.
abbrev pub Namespace : Type 0
Namespace = String × String

abbrev pub same_namespace : Namespace → Namespace → Bool
same_namespace a b = a.0 == b.0 && a.1 == b.1

pub record MatterClientGuard : Type 0 where
  pub bound : Option Namespace

-- MatterIsolationError, with the namespace that was passed.
pub data MatterIsolationError : Type 0 where
  cross_namespace : Namespace → MatterIsolationError

unfoldable pub bind : Namespace → MatterClientGuard → MatterClientGuard
bind ns g = record { bound = some ns }

-- Whether `_assert` lets a namespace pass.
unfoldable pub passes : MatterClientGuard → Namespace → Bool
passes g ns = elim g.bound [ none ↦ true | some bound ↦ same_namespace ns bound ]

pub record KbEntry : Type 0 where
  pub id : String
  pub statement : String
  pub matter_client : Namespace
  pub confidence : ℕ
  pub grounding_verified : Bool
  pub provenance : List String

pub record KbQuery : Type 0 where
  pub query_text : String
  pub matter_client : Namespace
  pub top_k : ℕ
  pub min_confidence : ℕ

pub record KnowledgeBase : Type 0 where
  pub guard : MatterClientGuard
  pub entries : List KbEntry

unfoldable pub add_entry : KbEntry → KnowledgeBase → Result MatterIsolationError KnowledgeBase
unfolding passes
add_entry e kb =
    if passes kb.guard e.matter_client
    then ok (record kb { entries = kb.entries ++ e ∷ [] })
    else err (cross_namespace e.matter_client)

module _ (score : KbEntry → ℕ) where
  -- `sorted(..., reverse=True)`, which leaves entries of the same score in their order.
  unfoldable pub place : KbEntry → List KbEntry → List KbEntry
  place e [] = e ∷ []
  place e (x ∷ xs) =
      let rest = place e xs in if ltb (score e) (score x) then x ∷ rest else e ∷ x ∷ xs

  unfoldable pub ranked : List KbEntry → List KbEntry
  ranked [] = []
  ranked (e ∷ es) = place e (ranked es)

unfoldable pub in_scope : KbQuery → KbEntry → Bool
in_scope q e = same_namespace e.matter_client q.matter_client && leb q.min_confidence e.confidence

module _ (score : String → String → ℕ) where
  unfoldable pub query : KbQuery → KnowledgeBase → Result MatterIsolationError (List KbEntry)
  unfolding passes in_scope ranked
  query q kb =
      if passes kb.guard q.matter_client
      then ok (
          take q.top_k
            (ranked (λ e. score e.statement q.query_text) (filter (in_scope q) kb.entries)))
      else err (cross_namespace q.matter_client)

-- What a policy reads in a finding; `statement` is the first of its statement, value and text that is
-- there, and `id` is empty where it has none.
pub record Finding : Type 0 where
  pub id : String
  pub statement : String
  pub confidence : ℕ
  pub is_verified : Bool
  pub spans : List String

pub record PromotionPolicy : Type 0 where
  pub min_confidence : ℕ
  pub require_grounding : Bool

abbrev pub is_empty : List String → Bool
is_empty [] = true
is_empty (x ∷ xs) = false

unfoldable pub qualifies : Finding → PromotionPolicy → Bool
qualifies f p =
    not (ltb f.confidence p.min_confidence)
    && (not p.require_grounding || f.is_verified || not (is_empty f.spans))

module _ (made_id : ℕ → String → String) where
  -- `finding_id` is what the caller passes, if anything.
  unfoldable pub entry_of : Finding → Namespace → Option String → PromotionPolicy → KbEntry
  entry_of f ns finding_id p = record {
    id =
        let own = if f.id == "" then made_id f.confidence f.statement else f.id in
        elim finding_id [ none ↦ own | some id ↦ if id == "" then own else id ];
    statement = f.statement;
    matter_client = ns;
    confidence = f.confidence;
    grounding_verified = p.require_grounding;
    provenance = f.spans;
  }

  -- Whether the finding was promoted, and the knowledge base then.
  unfoldable pub consider :
      Finding
      → Namespace
      → Option String
      → PromotionPolicy
      → KnowledgeBase
      → Result MatterIsolationError (Bool × KnowledgeBase)
  unfolding qualifies entry_of
  consider f ns finding_id p kb =
      if qualifies f p
      then elim (add_entry (entry_of f ns finding_id p) kb) [
        | ok grown ↦ ok (true, grown)
        | err e ↦ err e
      ]
      else ok (false, kb)
