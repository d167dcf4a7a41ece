-- ===== src/Planning/Graph/Sample.antt =====
-- A graph as two lists, which has the laws, and a plan of two steps in it.
use kaos_agents.Prelude.{
  ◌≡◌, refl, ap, inl, inr, none, some, List, [], ◌∷◌, String, map, filter, Bool-cases,
}
use kaos_agents.Prelude.Equality.{◌==◌, string_key}
use kaos_agents.Prelude.Dict.{lookup, insert, lookup-insert}
use kaos_agents.Planning.Graph.{tool, StepStatus, pending, Node, Graphs, GraphLaws}

pub record Lists : Type 0 where
  pub nodes : List (String × Node)
  pub edges : List (String × String)

abbrev pub keys : List (String × Node) → List String
keys nodes = map (λ (entry : String × Node). entry.0) nodes

-- The edges of the plans here are no longer than one step, so the successors are all descendants.
abbrev pub in_lists : Graphs Lists
in_lists = record {
  node_ids = λ g. keys g.nodes;
  node = λ s g. lookup s g.nodes;
  predecessors = λ s g. map (λ (e : String × String). e.0) (filter (λ e. e.1 == s) g.edges);
  descendants = λ s g. map (λ (e : String × String). e.1) (filter (λ e. e.0 == s) g.edges);
  set_node = λ s n g. record g { nodes = insert s n g.nodes };
}

keys-insert :
    (s : String) (n m : Node) (nodes : List (String × Node))
    → lookup s nodes ≡ some m
    → keys (insert s n nodes) ≡ keys nodes
unfolding lookup insert
keys-insert s n m [] found = absurd (clash found)
  where
    clash : none ≡ some m → ⊥
    clash e = cc
keys-insert s n m ((t, k) ∷ nodes) found = elim (Bool-cases (t == s)) [
  | inl same ↦ rw same refl
  | inr other ↦ rw other (ap (λ l. t ∷ l) (keys-insert s n m nodes (rw other at found)))
]

pub in_lists-laws : GraphLaws in_lists
in_lists-laws = record {
  keeps_ids = λ s n m g found. keys-insert s n m g.nodes found;
  sets_node = λ s t n m g found. lookup-insert s t n g.nodes;
}

abbrev pub sample_node : StepStatus → Node
sample_node status = record {
  step_type = tool;
  description = "fetch a page";
  tool_name = "fetch";
  input_spec = "";
  expected_output = "";
  status = status;
  result = "";
  judgment = none;
  latency_ms = 0;
  abort_if = "";
  pivot_to = "";
}

-- "b" depends on "a".
abbrev pub two_steps : StepStatus → Lists
two_steps first = record {
  nodes = ("a", sample_node first) ∷ ("b", sample_node pending) ∷ [];
  edges = ("a", "b") ∷ [];
}
