-- ===== src/AgentLoop/Usage.antt =====
-- loop/agent_loop.py: the usage that a turn observes, and its sum.
use kaos_agents.Prelude.{Bool, ◌&&◌, Option, none, some, List, [], ◌∷◌, String, if◌then◌else◌}
use kaos_agents.Prelude.Equality.{◌==◌, string_key, nat_key}
use kaos_agents.Events.{
  InvocationUsage, zero_usage, add_usage, usage_observed, KaosEvent, Scope, emit_event,
}

-- `a or b` of texts.
abbrev pub or_else : String → String → String
or_else a b = if a == "" then b else a

abbrev pub is_zero : InvocationUsage → Bool
is_zero u = u.input_tokens == 0 && u.output_tokens == 0 && u.total_tokens == 0 && u.cost_usd == 0

-- `_emit_planner_usage`.
unfoldable pub emit_planner_usage : Option InvocationUsage → String → Scope → Scope
unfolding emit_event
emit_planner_usage none label s = s
emit_planner_usage (some usage) label s =
    if is_zero usage then s else emit_event (usage_observed usage label) s

unfoldable pub usage_of : KaosEvent → InvocationUsage
usage_of e = elim e.payload [ usage_observed usage source ↦ usage | _ ↦ zero_usage ]

unfoldable pub sum_usage : InvocationUsage → List KaosEvent → InvocationUsage
unfolding usage_of add_usage
sum_usage total [] = total
sum_usage total (e ∷ events) = sum_usage (add_usage total (usage_of e)) events

-- `_sum_usage_from_collector`.
unfoldable pub sum_usage_from_collector : Scope → InvocationUsage
unfolding sum_usage
sum_usage_from_collector s = sum_usage zero_usage s.collector.events
