-- ===== src/Planning/Hierarchy/Gathering.antt =====
-- planning/hierarchical_planner.py: what a run of sub-agents leaves.
use mathlib.Core.List.{append-nil, append_assoc}
use native.Mathlib.Nat.{add-zero, zero-add, add_assoc}
use kaos_agents.Prelude.{
  ◌≡◌, refl, ap, ◌∙◌, sym, subst, ℕ, ◌+◌, leb, false, some, List, [], ◌∷◌, ◌++◌, String, map,
  filter, All,
}
use kaos_agents.Prelude.Reply.{replies, fails}
use kaos_agents.Events.{InvocationUsage, add_usage}
use kaos_agents.AgentLoop.Types.{Act, queues, pushes, PlanResult, ToolExecution}
use kaos_agents.AgentLoop.Usage.{or_else}
use kaos_agents.Planning.Delegation.{
  SubAgentSpec, HierarchicalPlan, SubInvocation, SubCall, StreamMode, HierarchicalPlanner,
  Aggregation, should_forward,
}
use kaos_agents.Planning.Hierarchy.{
  Gathered, nothing_gathered, conclude_plan, run_specs, extract_output, extract_usage, gather,
  run_each, aggregate, strategy_of, run_sub_agents, execute,
}

module _ (mode : StreamMode) (call : SubAgentSpec → SubCall) where
  -- The acts of one sub-agent that replies: what it puts into the queue itself, then what the mode lets through.
  abbrev pub acts_of : SubAgentSpec → List Act
  acts_of spec =
      map queues (call spec).queued
      ++ map pushes (filter (should_forward mode) (call spec).collected)

  abbrev pub acts_of_all : List SubAgentSpec → List Act
  acts_of_all [] = []
  acts_of_all (spec ∷ specs) = acts_of spec ++ acts_of_all specs

module _ (call : SubAgentSpec → SubCall) (replied : SubAgentSpec → SubInvocation) where
  abbrev pub total : (InvocationUsage → ℕ) → List SubAgentSpec → ℕ
  total count [] = 0
  total count (spec ∷ specs) = count (extract_usage (replied spec)) + total count specs

  abbrev pub tools_of : List SubAgentSpec → List ToolExecution
  tools_of [] = []
  tools_of (spec ∷ specs) = (replied spec).tool_executions ++ tools_of specs

  abbrev pub name_of : SubAgentSpec → String
  name_of spec = or_else spec.sub_agent_name (or_else (call spec).env_name (call spec).env_hash)

  abbrev pub gathered : List SubAgentSpec → Gathered → Gathered
  gathered specs g = record {
    sub_outputs = g.sub_outputs ++ map (λ spec. extract_output (replied spec)) specs;
    sub_names = g.sub_names ++ map name_of specs;
    total_usage = record {
      input_tokens = g.total_usage.input_tokens + total (λ u. u.input_tokens) specs;
      output_tokens = g.total_usage.output_tokens + total (λ u. u.output_tokens) specs;
      total_tokens = g.total_usage.total_tokens + total (λ u. u.total_tokens) specs;
      cost_usd = g.total_usage.cost_usd + total (λ u. u.cost_usd) specs;
    };
    all_tool_executions = g.all_tool_executions ++ tools_of specs;
  }

  gathered-cons :
      (spec : SubAgentSpec) (specs : List SubAgentSpec) (g : Gathered)
      → gathered specs (gather spec (call spec) (replied spec) g) ≡ gathered (spec ∷ specs) g
  unfolding gather add_usage
  gathered-cons spec specs g = simp (append_assoc, add_assoc)

  abbrev pub all_gathered : List SubAgentSpec → Gathered
  all_gathered specs = record {
    sub_outputs = map (λ spec. extract_output (replied spec)) specs;
    sub_names = map name_of specs;
    total_usage = record {
      input_tokens = total (λ u. u.input_tokens) specs;
      output_tokens = total (λ u. u.output_tokens) specs;
      total_tokens = total (λ u. u.total_tokens) specs;
      cost_usd = total (λ u. u.cost_usd) specs;
    };
    all_tool_executions = tools_of specs;
  }

  gathered-nothing :
      (specs : List SubAgentSpec) → gathered specs nothing_gathered ≡ all_gathered specs
  gathered-nothing specs = simp zero-add

  gathered-nil : (g : Gathered) → gathered [] g ≡ g
  gathered-nil g = simp (append-nil, add-zero)

module _ (mode : StreamMode) (call : SubAgentSpec → SubCall)
    (replied : SubAgentSpec → SubInvocation) where
  abbrev pub Replies : SubAgentSpec → Type 0
  Replies spec = (call spec).reply ≡ replies (replied spec)

  -- What is asked of sub-agents that all reply comes before the rest.
  pub run_each-append :
      (before after : List SubAgentSpec) (g : Gathered)
      → All Replies before
      → run_each mode call (before ++ after) g ≡ (
        acts_of_all mode call before
            ++ (run_each mode call after (gathered call replied before g)).0,
        (run_each mode call after (gathered call replied before g)).1,
      )
  unfolding run_each
  run_each-append [] after g _ = rw (gathered-nil call replied g) refl
  run_each-append (spec ∷ before) after g (reply, replies_before) =
      rw
        (
          reply,
          run_each-append before after (gather spec (call spec) (replied spec) g) replies_before,
          gathered-cons call replied spec before g,
        )
        (ap (λ l. (l, (run_each mode call after (gathered call replied (spec ∷ before) g)).1))
          (sym (append_assoc (acts_of mode call spec) (acts_of_all mode call before) _)))

  run_each_lem :
      (specs : List SubAgentSpec)
      → All Replies specs
      → run_each mode call specs nothing_gathered
        ≡ (acts_of_all mode call specs, replies (all_gathered call replied specs))
  unfolding run_each
  run_each_lem specs all =
      subst
        (λ l.
          run_each mode call l nothing_gathered
          ≡ (acts_of_all mode call specs, replies (all_gathered call replied specs)))
        (append-nil specs)
        (run_each-append specs [] nothing_gathered all
          ∙ rw (append-nil (acts_of_all mode call specs), gathered-nothing call replied specs) refl)

  run_each-fails :
      (before : List SubAgentSpec) (spec : SubAgentSpec) (after : List SubAgentSpec)
      → All Replies before
      → (message : String) → (call spec).reply ≡ fails message
      → run_each mode call (before ++ spec ∷ after) nothing_gathered
        ≡ (acts_of_all mode call before ++ map queues (call spec).queued, fails message)
  unfolding run_each
  run_each-fails before spec after all message failed =
      run_each-append before (spec ∷ after) nothing_gathered all ∙ rw failed refl

module _ (dumps : List (String × String) → String) (call : SubAgentSpec → SubCall)
    (replied : SubAgentSpec → SubInvocation) where
  abbrev pub text_of : Aggregation → List SubAgentSpec → String
  text_of strategy [] = ""
  text_of strategy (spec ∷ specs) =
      aggregate dumps strategy (map (λ s. extract_output (replied s)) (spec ∷ specs))
        (map (name_of call replied) (spec ∷ specs))

  abbrev pub result_of : Aggregation → List SubAgentSpec → PlanResult
  result_of strategy specs = record {
    text = text_of strategy specs;
    output = text_of strategy specs;
    printed = text_of strategy specs;
    usage = some record {
      input_tokens = total call replied (λ u. u.input_tokens) specs;
      output_tokens = total call replied (λ u. u.output_tokens) specs;
      total_tokens = total call replied (λ u. u.total_tokens) specs;
      cost_usd = total call replied (λ u. u.cost_usd) specs;
    };
    tool_executions = tools_of call replied specs;
  }

  run_specs-append :
      (mode : StreamMode) (strategy : Aggregation)
      → (before : List SubAgentSpec) (spec : SubAgentSpec) (after : List SubAgentSpec)
      → run_specs dumps mode call strategy (before ++ spec ∷ after)
        ≡ conclude_plan dumps strategy
            (run_each mode call (before ++ spec ∷ after) nothing_gathered)
  unfolding run_specs
  run_specs-append mode strategy [] spec after = refl
  run_specs-append mode strategy (b ∷ before) spec after = refl

  run_specs_lem :
      (mode : StreamMode) (strategy : Aggregation) (specs : List SubAgentSpec)
      → All (Replies mode call replied) specs
      → run_specs dumps mode call strategy specs
        ≡ (acts_of_all mode call specs, replies (result_of strategy specs))
  unfolding run_specs
  run_specs_lem mode strategy [] _ = refl
  run_specs_lem mode strategy (spec ∷ specs) all =
      ap (conclude_plan dumps strategy) (run_each_lem mode call replied (spec ∷ specs) all)

  -- Below the maximal depth, and where every sub-agent of the plan replies, `execute` replies with the
  -- aggregate of their outputs, the sums of their usage and their tool executions in order; and what
  -- it does is, for one sub-agent after the other, to pass on the events that go past its collector and
  -- those of its collector that the stream mode lets through.
  pub execute-gathers :
      (current : ℕ) (p : HierarchicalPlan) (h : HierarchicalPlanner)
      → leb h.max_depth current ≡ false
      → All (Replies h.stream_mode call replied) p.sub_agents
      → execute dumps current call p h ≡ (
        acts_of_all h.stream_mode call p.sub_agents,
        replies (result_of (strategy_of p h) p.sub_agents),
      )
  unfolding execute run_sub_agents
  execute-gathers current p h below all =
      rw below (run_specs_lem h.stream_mode (strategy_of p h) p.sub_agents all)

  -- Below the maximal depth, where the sub-agents before one reply and that one fails, `execute` fails
  -- with its message: those after it are not called, and of its own events only those get out that go
  -- past its collector.
  pub execute-fails :
      (current : ℕ) (p : HierarchicalPlan) (h : HierarchicalPlanner)
      → leb h.max_depth current ≡ false
      → (before : List SubAgentSpec) (spec : SubAgentSpec) (after : List SubAgentSpec)
      → p.sub_agents ≡ before ++ spec ∷ after
      → All (Replies h.stream_mode call replied) before
      → (message : String) → (call spec).reply ≡ fails message
      → execute dumps current call p h
        ≡ (acts_of_all h.stream_mode call before ++ map queues (call spec).queued, fails message)
  unfolding execute run_sub_agents
  execute-fails current p h below before spec after split all message failed =
      rw (below, split, run_specs-append h.stream_mode (strategy_of p h) before spec after)
        (ap (conclude_plan dumps (strategy_of p h))
          (run_each-fails h.stream_mode call replied before spec after all message failed))
