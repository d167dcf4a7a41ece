-- ===== src/Turn/Caveat.antt =====
-- patterns/agentic_loop.py: the text that a turn delivers when its next plan uses the budget up.
use Prim.Native.String.{count}
use kaos_agents.Prelude.{ℕ, ◌≤◌, ◌+◌, ◌≡◌, refl, true, false, arith, leb}
use kaos_agents.Prelude.Reply.{replies}
use kaos_agents.Session.Policy.{SessionPolicy}
use kaos_agents.Planning.ToolPolicy.{TurnToolPolicy, plan_turn_tool_policy}
use kaos_agents.Turn.Types.{
  LoopState, Reason, no_verdict, Answer, draft_with_footer, Intent, respond_with_caveat,
}
use kaos_agents.Turn.Run.{
  Run, goes, returns, raises, out_of_fuel, and_then, emitted, charged, terminated,
}
use kaos_agents.Turn.Refusal.{
  budget_exceeded, draft_for_preserve, lstrip, rstrip, min_worker_draft_chars,
  should_preserve_worker_draft, is_uncriticized, emit_failure_refusal, deliver, draft_is_complete,
  stop_for,
}
use kaos_agents.Turn.World.{World, Options, check_limits, stop, draft_check}
use kaos_agents.Turn.Iteration.{iterate, begin_iteration, plan_phase}
use kaos_agents.Turn.Drafts.{Delivers}

module _ (w : World) (o : Options) where
  kept_draft :
      (t : LoopState)
      → leb min_worker_draft_chars (count (lstrip (rstrip (draft_for_preserve t)))) ≡ true
      → is_uncriticized t.last_terminal_verdict ≡ true
      → should_preserve_worker_draft t ≡ true
  unfolding should_preserve_worker_draft
  kept_draft t long fresh = rw long (rw fresh refl)

  stop_draft :
      (reason : Reason) (t : LoopState)
      → o.has_goal_check_model ≡ false
      → leb min_worker_draft_chars (count (lstrip (rstrip (draft_for_preserve t)))) ≡ true
      → is_uncriticized t.last_terminal_verdict ≡ true
      → Delivers {A = Unit {0}} reason
          (draft_with_footer (rstrip (draft_for_preserve t)) reason t.iteration)
          respond_with_caveat
          (stop w o reason t)
  unfolding stop draft_check stop_for emit_failure_refusal draft_is_complete deliver terminated
      emitted
  stop_draft reason t no_model long fresh =
      rw no_model (rw (kept_draft t long fresh) (refl, refl, refl, refl))

  and_then-Delivers :
      {A B : Type 0} (reason : Reason) (answer : Answer) (intent : Intent) (r : Run A)
      (f : A → LoopState → Run B)
      → Delivers reason answer intent r
      → Delivers reason answer intent (and_then r f)
  and_then-Delivers reason answer intent (returns s) f h = h
  and_then-Delivers reason answer intent (goes a s) f h = elim h [ ]
  and_then-Delivers reason answer intent (raises e s) f h = elim h [ ]
  and_then-Delivers reason answer intent (out_of_fuel s) f h = elim h [ ]

  -- What a turn delivers that stops for its costs in the state `t`.
  abbrev Caveat : {A : Type 0} → LoopState → Run A → Type 0
  Caveat t r =
      Delivers Reason.cost_exceeded
        (draft_with_footer (rstrip (draft_for_preserve t)) Reason.cost_exceeded t.iteration)
        respond_with_caveat r

  then_Caveat :
      {A B : Type 0} (t : LoopState) (r : Run A) (f : A → LoopState → Run B)
      → Caveat t r
      → Caveat t (and_then r f)
  then_Caveat t r f h = and_then-Delivers _ _ _ r f h

  check_limits-Caveat :
      (now : ℕ) (policy : SessionPolicy) (t : LoopState)
      → budget_exceeded t policy ≡ true
      → Caveat {A = Unit {0}} t (stop w o Reason.cost_exceeded t)
      → Caveat t (check_limits w o now policy t)
  unfolding check_limits
  check_limits-Caveat now policy t over h =
      rw over (then_Caveat t (stop w o Reason.cost_exceeded t) _ h)

  plan_phase-Caveat :
      (policy : SessionPolicy) (s : LoopState) (plan : TurnToolPolicy)
      → plan_turn_tool_policy policy.allowed_groups o.confidence_threshold (w.planner s.iteration)
        ≡ replies plan
      → Caveat
          (charged plan.cost s)
          (check_limits w o (w.clock_planned s.iteration) policy (charged plan.cost s))
      → Caveat (charged plan.cost s) (plan_phase w o policy s)
  unfolding plan_phase
  plan_phase-Caveat policy s plan planned h = rw planned (
      then_Caveat (charged plan.cost s)
        (check_limits w o (w.clock_planned s.iteration) policy (charged plan.cost s)) _ h)

  -- A text that a check has rejected is delivered all the same, with a caveat, if the plan of the next
  -- round uses the budget up: without a model for the goal check, any text of at least 40 characters.
  pub iterate-Delivers :
      (policy : SessionPolicy) (s : LoopState) (plan : TurnToolPolicy)
      → o.has_goal_check_model ≡ false
      → leb min_worker_draft_chars (count (lstrip (rstrip (draft_for_preserve s)))) ≡ true
      → plan_turn_tool_policy policy.allowed_groups o.confidence_threshold
          (w.planner (s.iteration + 1))
        ≡ replies plan
      → policy.max_loop_cost ≤ s.cumulative_cost + plan.cost
      → Delivers Reason.cost_exceeded
          (draft_with_footer (rstrip (draft_for_preserve s)) Reason.cost_exceeded (s.iteration + 1))
          respond_with_caveat
          (iterate w o policy s)
  unfolding iterate begin_iteration charged budget_exceeded draft_for_preserve
  iterate-Delivers policy s plan no_model long planned spent =
      let s0 = record s { iteration = s.iteration + 1; last_terminal_verdict = no_verdict } in
      let t = charged plan.cost s0 in
      then_Caveat t (plan_phase w o policy s0) _ (
        plan_phase-Caveat policy s0 plan planned (
          check_limits-Caveat (w.clock_planned s0.iteration) policy t (ground arith)
            (stop_draft Reason.cost_exceeded t no_model long refl)))
