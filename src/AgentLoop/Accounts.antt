-- ===== src/AgentLoop/Accounts.antt =====
-- loop/agent_loop.py: what the record of a turn that works says of its cost and of its end.
use kaos_agents.Prelude.{
  ℕ, ◌+◌, ◌≡◌, refl, ap, ◌∙◌, sym, Bool, true, false, Option, none, some, List, [], ◌∷◌, ◌++◌,
  String, arith, if◌then◌else◌,
}
use kaos_agents.Prelude.Reply.{Reply, replies, fails, cancelled}
use kaos_agents.Intent.{pattern_value}
use kaos_agents.Events.{
  next_span_id, InvocationUsage, zero_usage, add_usage, KaosEvent, turn_summary, emit_event,
  collect, event_of, span_complete,
}
use kaos_agents.Memory.Institutional.{KnowledgeBase}
use kaos_agents.AgentLoop.Types.{
  AgentLoop, TurnPlan, TurnInvocation, TurnError, raised, interrupted, finalize, set_cost_usd,
}
use kaos_agents.AgentLoop.State.{◌>>◌, TurnState, and_then, modify, on_scope, on_invocation}
use kaos_agents.AgentLoop.Usage.{usage_of, sum_usage, sum_usage_from_collector}
use kaos_agents.AgentLoop.Steps.{open_turn, close_turn}
use kaos_agents.AgentLoop.Forward.{
  Names, do_work, run_turn, start_state, conclude_turn, forward_turn,
}
use kaos_agents.AgentLoop.Billing.{IsUnbilled, do_work-IsUnbilled}

-- The sum of a number over what was observed.
abbrev pub total : (InvocationUsage → ℕ) → List KaosEvent → ℕ
total f [] = 0
total f (e ∷ events) = f (usage_of e) + total f events

-- A usage is the sum of what the events observed, in each of its parts.
abbrev pub IsTotal : InvocationUsage → List KaosEvent → Type 0
IsTotal u events =
    (u.input_tokens ≡ total (λ v. v.input_tokens) events)
    × (u.output_tokens ≡ total (λ v. v.output_tokens) events)
    × (u.total_tokens ≡ total (λ v. v.total_tokens) events)
    × (u.cost_usd ≡ total (λ v. v.cost_usd) events)

sum_usage-total :
    (f : InvocationUsage → ℕ)
    → ((u v : InvocationUsage) → f (add_usage u v) ≡ f u + f v)
    → (u : InvocationUsage) (events : List KaosEvent)
    → f (sum_usage u events) ≡ f u + total f events
unfolding sum_usage
sum_usage-total f additive u [] = omega arith
sum_usage-total f additive u (e ∷ events) =
    omega
      (arith, sum_usage-total f additive (add_usage u (usage_of e)) events, additive u (usage_of e))

sum_usage-IsTotal : (events : List KaosEvent) → IsTotal (sum_usage zero_usage events) events
unfolding add_usage
sum_usage-IsTotal events = (
  sum_usage-total (λ v. v.input_tokens) (λ u v. refl) zero_usage events ∙ omega arith,
  sum_usage-total (λ v. v.output_tokens) (λ u v. refl) zero_usage events ∙ omega arith,
  sum_usage-total (λ v. v.total_tokens) (λ u v. refl) zero_usage events ∙ omega arith,
  sum_usage-total (λ v. v.cost_usd) (λ u v. refl) zero_usage events ∙ omega arith,
)

-- Events that observe nothing.
total-append :
    (f : InvocationUsage → ℕ) (events : List KaosEvent) (x y : KaosEvent)
    → f zero_usage ≡ 0
    → usage_of x ≡ zero_usage
    → usage_of y ≡ zero_usage
    → total f ((events ++ x ∷ []) ++ y ∷ []) ≡ total f events
total-append f [] x y z h k = omega (arith, ap f h, ap f k)
total-append f (e ∷ events) x y z h k = omega (arith, total-append f events x y z h k)

IsTotal-append :
    (u : InvocationUsage) (events : List KaosEvent) (x y : KaosEvent)
    → usage_of x ≡ zero_usage
    → usage_of y ≡ zero_usage
    → IsTotal u events
    → IsTotal u ((events ++ x ∷ []) ++ y ∷ [])
IsTotal-append u events x y h k t = (
  t.0 ∙ sym (total-append (λ v. v.input_tokens) events x y refl h k),
  t.1 ∙ sym (total-append (λ v. v.output_tokens) events x y refl h k),
  t.2 ∙ sym (total-append (λ v. v.total_tokens) events x y refl h k),
  t.3 ∙ sym (total-append (λ v. v.cost_usd) events x y refl h k),
)

module _ (names : Names) {P : Type 0} (a : AgentLoop P) (p : TurnPlan) where
  -- A turn that did not return left no output and no cost.
  abbrev pub IsAborted : TurnError → TurnInvocation P → Type 0
  IsAborted error t =
      (t.usage ≡ zero_usage)
      × (t.cost_usd ≡ 0)
      × (t.output ≡ "")
      × (t.error ≡ some error)
      × (t.finished ≡ true)

  abbrev pub IsAccounted : Reply (TurnInvocation P) × TurnState P → Type 0
  IsAccounted (replies t, s) =
      IsTotal t.usage t.events
      × (t.cost_usd ≡ t.usage.cost_usd)
      × (t.cost_budget.spent_usd ≡ t.cost_usd)
      × (t.error ≡ none)
      × (t.finished ≡ true)
      × ((before : List KaosEvent) × (summary closing : KaosEvent) × (t.events
            ≡ (before ++ summary ∷ []) ++ closing ∷ [])
          × (summary.payload ≡ turn_summary t.output (pattern_value p.intent.pattern) t.usage))
  IsAccounted (fails message, s) = IsAborted (raised message) s.invocation
  IsAccounted (cancelled, s) = IsAborted interrupted s.invocation

  closed-IsAccounted :
      (turn_id : String) (r : Reply (Unit {0}) × TurnState P)
      → IsUnbilled r.1.invocation
      → IsAccounted (conclude_turn names a p (and_then r (λ _. modify (close_turn p turn_id))))
  unfolding conclude_turn finalize on_invocation close_turn set_cost_usd span_complete emit_event
      collect sum_usage_from_collector event_of
  closed-IsAccounted turn_id (replies x, s) u =
      let events = s.scope.collector.events in
      rw (u.3) (
        IsTotal-append (sum_usage zero_usage events) events _ _ refl refl
            (sum_usage-IsTotal events),
        refl,
        refl,
        refl,
        refl,
        (events, _, _, refl, refl),
      )
  closed-IsAccounted turn_id (fails message, s) u = rw (u.3) (u.0, u.1, refl, refl, refl)
  closed-IsAccounted turn_id (cancelled, s) u = rw (u.3) (u.0, u.1, refl, refl, refl)

  not_asked :
      (b : Bool) (m n : Reply (Unit {0}) × TurnState P)
      → b ≡ false
      → IsAccounted (conclude_turn names a p n)
      → IsAccounted (conclude_turn names a p (if b then m else n))
  not_asked true m n e h = cc
  not_asked false m n e h = h

  -- A turn whose intent is clear, and which returns, carries as its usage the sum of what its events
  -- observed; its cost and the spent part of its budget are that usage's, it is finished without an
  -- error, and its last event but one is the summary of its output and usage. One that raises or is
  -- cancelled is finished with that error, with an empty output, and with no usage and no cost.
  pub forward_turn-IsAccounted :
      (queue : Option (List KaosEvent)) (id : String) (kb : Option KnowledgeBase)
      → p.intent.requires_clarification ≡ false
      → IsAccounted (forward_turn names a p queue id kb)
  unfolding forward_turn run_turn start_state open_turn on_scope
  forward_turn-IsAccounted queue id kb clear =
      let begin = start_state names a p queue id kb in
      let turn_id = next_span_id names.new_span_id begin.scope in
      let opened = open_turn names.new_span_id names.decimal p begin in
      not_asked p.intent.requires_clarification _
        ((do_work names a p >> modify (close_turn p turn_id)) opened) clear
        (closed-IsAccounted turn_id (do_work names a p opened)
          (do_work-IsUnbilled names a p opened (refl, refl, refl, refl)))
