-- ===== src/Planning/Graph.antt =====
-- planning/graph.py: the status of a plan's steps. The graph is the library kaos-graph's: a record of
-- the operations that are used, and one of the laws that they are relied on for.
pub mod Ready
pub mod Progress
pub mod Sample
use kaos_agents.Prelude.{
  ℕ, Bool, true, false, ◌&&◌, ◌||◌, ◌≡◌, Option, none, some, List, [], ◌∷◌, ◌++◌, String, filter,
  all, any, if◌then◌else◌,
}
use Prim.Native.String.{◌++◌ as append}
use kaos_agents.Prelude.Equality.{◌==◌, string_key}
use kaos_agents.Planning.Route.{Judgment}

pub data StepType : Type 0 where
  tool llm subplan : StepType

pub data StepStatus : Type 0 where
  pending running completed failed skipped : StepStatus

-- A node's properties, with the input specification as text.
pub record Node : Type 0 where
  pub step_type : StepType
  pub description : String
  pub tool_name : String
  pub input_spec : String
  pub expected_output : String
  pub status : StepStatus
  pub result : String
  pub judgment : Option Judgment
  pub latency_ms : ℕ
  pub abort_if : String
  pub pivot_to : String

pub record Graphs (G : Type 0) : Type 0 where
  pub node_ids : G → List String
  pub node : String → G → Option Node
  pub predecessors : String → G → List String
  pub descendants : String → G → List String
  pub set_node : String → Node → G → G

-- Setting the properties of a node that the graph has changes that node and no other, and keeps the
-- list of the nodes and their predecessors.
pub record GraphLaws {G : Type 0} (lib : Graphs G) : Type 0 where
  pub keeps_ids :
      (s : String) (n m : Node) (g : G)
      → lib.node s g ≡ some m
      → lib.node_ids (lib.set_node s n g) ≡ lib.node_ids g
  pub sets_node :
      (s t : String) (n m : Node) (g : G)
      → lib.node s g ≡ some m
      → lib.node t (lib.set_node s n g) ≡ (if s == t then some n else lib.node t g)

abbrev pub is_pending : StepStatus → Bool
is_pending pending = true
is_pending _ = false

abbrev pub is_completed : StepStatus → Bool
is_completed completed = true
is_completed _ = false

abbrev pub is_failed : StepStatus → Bool
is_failed failed = true
is_failed _ = false

abbrev pub is_skipped : StepStatus → Bool
is_skipped skipped = true
is_skipped _ = false

module _ {G : Type 0} (lib : Graphs G) where
  -- `node is not None and p(node.get("status"))`.
  unfoldable pub has : (StepStatus → Bool) → String → G → Bool
  has p s g = elim (lib.node s g) [ none ↦ false | some n ↦ p n.status ]

  -- The updates of a node; the callers only pass nodes that the graph has.
  unfoldable pub mark : (Node → Node) → String → G → G
  mark f s g = elim (lib.node s g) [ none ↦ g | some n ↦ lib.set_node s (f n) g ]

  unfoldable pub mark_running : String → G → G
  mark_running s g = mark (λ n. record n { status = running }) s g

  unfoldable pub mark_complete : String → String → Judgment → G → G
  mark_complete s result judgment g =
      mark (λ n. record n { status = completed; result = result; judgment = some judgment }) s g

  unfoldable pub mark_failed : String → String → G → G
  mark_failed s error g =
      mark (λ n. record n { status = failed; result = append "ERROR: " error }) s g

  unfoldable pub mark_skipped : String → String → G → G
  mark_skipped s reason g =
      mark (λ n. record n { status = skipped; result = append "SKIPPED: " reason }) s g

  unfoldable pub get_ready_steps : G → List String
  get_ready_steps g =
      filter (λ s. has is_pending s g && all (λ p. has is_completed p g) (lib.predecessors s g))
        (lib.node_ids g)

  unfoldable pub is_complete : G → Bool
  is_complete g =
      all (λ s. has (λ status. is_completed status || is_skipped status) s g) (lib.node_ids g)

  unfoldable pub has_failures : G → Bool
  has_failures g = any (λ s. has is_failed s g) (lib.node_ids g)

  pub results_of : G → List String → List (String × String)
  results_of g [] = []
  results_of g (s ∷ ids) = elim (lib.node s g) [
    | none ↦ results_of g ids
    | some n ↦ if is_completed n.status then (s, n.result) ∷ results_of g ids else results_of g ids
  ]

  unfoldable pub get_results : G → List (String × String)
  unfolding results_of
  get_results g = results_of g (lib.node_ids g)
