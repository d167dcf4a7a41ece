-- ===== src/Turn/Iteration.antt =====
-- patterns/agentic_loop.py: one round of `run_agentic_turn`, in the order of the source.
use kaos_agents.Prelude.{◌+◌, not, ◌&&◌, Option, none, some, List, [], ◌∷◌, ◌++◌, length, leb, ltb}
use kaos_agents.Prelude.Equality.{◌==◌, string_key}
use kaos_agents.Planning.ToolPolicy.{TurnToolPolicy, intersection, plan_turn_tool_policy}
use kaos_agents.Session.Policy.{Groups, SessionPolicy, consider_elevation}
use kaos_agents.Turn.Types.{
  LoopState, WorkerResult, WorkerCall, buffered, streams, Streamed, event, result, Item,
  Verification, Event, tool_policy_elevated, capability_requested, citation_verified,
  breaker_tripped, calls_worker, Reason, Verdict,
}
use kaos_agents.Turn.Run.{
  M, Effect, goes, raises, failed, ◌>>=◌, ◌>>◌, pure, get, modify, await, when, emit, forwarded,
  charged,
}
use kaos_agents.Turn.Breaker.{observe_event}
use kaos_agents.Turn.Refusal.{per_tool_budget_exceeded, lstrip}
use kaos_agents.Turn.Notes.{with_citations}
use kaos_agents.Turn.World.{World, Options, stop, check_limits}
use kaos_agents.Turn.Decision.{judge_result}

abbrev pub emit_some : (Groups → Event) → Option Groups → Effect
emit_some make none = pure tt
emit_some make (some groups) = emit (make groups)

-- The groups that the worker is given: what the plan keeps, and what it dropped that is now allowed.
unfoldable pub effective_groups : TurnToolPolicy → SessionPolicy → Groups
effective_groups plan policy =
    plan.kept_groups ++ intersection policy.allowed_groups plan.dropped_groups

module _ (w : World) (o : Options) where
  unfoldable pub begin_iteration : Effect
  begin_iteration =
      modify
        λ s. record s { iteration = s.iteration + 1; last_terminal_verdict = Verdict.no_verdict }

  unfoldable pub plan_phase : SessionPolicy → M TurnToolPolicy
  plan_phase policy = do
    s ← get
    plan ←
        await (
          plan_turn_tool_policy policy.allowed_groups o.confidence_threshold
            (w.planner s.iteration))
    modify (charged plan.cost)
    check_limits w o (w.clock_planned s.iteration) policy
    pure plan

  unfoldable pub elevate_phase : SessionPolicy → TurnToolPolicy → M SessionPolicy
  elevate_phase policy plan = do
    s ← get
    let e = consider_elevation plan.dropped_groups s.elevation_count policy
    modify (λ (s' : LoopState). record s' { elevation_count = e.elevation_count })
    emit_some tool_policy_elevated e.elevated
    emit_some capability_requested e.requested
    pure e.policy

  -- An event of the worker is passed on and then counted.
  abbrev pub pass_on : Item → LoopState → LoopState
  pass_on item s =
      observe_event w.is_uninformative o.circuit_breaker_threshold item (forwarded item s)

  unfoldable pub pass_on_all : List Item → LoopState → LoopState
  pass_on_all [] s = s
  pass_on_all (item ∷ items) s = pass_on_all items (pass_on item s)

  -- A streaming worker: its events are passed on, and the last of its results counts.
  unfoldable pub drain : List Streamed → LoopState → LoopState
  drain [] s = s
  drain (event item ∷ items) s = drain items (pass_on item s)
  drain (result r ∷ items) s = drain items s

  unfoldable pub last_result : List Streamed → Option WorkerResult → Option WorkerResult
  last_result [] found = found
  last_result (event item ∷ items) found = last_result items found
  last_result (result r ∷ items) found = last_result items (some r)

  abbrev pub result_or_raise : Option WorkerResult → M WorkerResult
  result_or_raise none s =
      raises (failed "streaming worker exhausted without yielding a terminal WorkerResult") s
  result_or_raise (some r) s = goes r s

  -- The result, and the events that are still to be passed on.
  abbrev pub receive : WorkerCall → M (WorkerResult × List Item)
  receive (buffered reply) = do r ← await reply; pure (r, r.events)
  receive (streams items ending) = do
    modify (drain items)
    _ ← await ending
    r ← result_or_raise (last_result items none)
    pure (r, [])

  unfoldable pub called : Groups → LoopState → LoopState
  called groups s = record s { acts = calls_worker s.iteration groups s.thinking_note ∷ s.acts }

  unfoldable pub worked : WorkerResult → LoopState → LoopState
  unfolding charged
  worked r s = record (charged r.cost s) {
    current_iter_text = r.text;
    last_tool_calls_made = r.tool_calls_made;
  }

  unfoldable pub work_phase : SessionPolicy → TurnToolPolicy → M (WorkerResult × List Item)
  work_phase policy plan = do
    s ← get
    let groups = effective_groups plan policy
    modify (called groups)
    received ← receive (w.worker s.iteration groups s.thinking_note)
    modify (worked received.0)
    when (per_tool_budget_exceeded received.0.cost policy) (stop w o Reason.cost_exceeded)
    pure received

  unfoldable pub emit_citations : List Verification → Effect
  emit_citations [] = pure tt
  emit_citations (v ∷ vs) = do emit (citation_verified v); emit_citations vs

  unfoldable pub verify_citations : Effect
  verify_citations = do
    s ← get
    vs ← await (w.verifier s.iteration)
    emit_citations vs
    modify (with_citations vs)

  unfoldable pub verify_phase : WorkerResult → Effect
  verify_phase r =
      when (o.citation_verification_enabled && not (lstrip r.text == "")) verify_citations

  abbrev pub stop_tripped : LoopState → Effect
  stop_tripped s = do
    emit (breaker_tripped s.tripped_tool s.tripped_failures)
    stop w o Reason.circuit_breaker_tripped

  unfoldable pub limits_phase : SessionPolicy → WorkerResult → List Item → Effect
  limits_phase policy r items = do
    modify (pass_on_all items)
    s ← get
    when (not (s.tripped_tool == "")) (stop_tripped s)
    when
        (ltb 0 o.max_tool_calls_per_iteration
          && leb o.max_tool_calls_per_iteration (length r.tool_calls_made))
        (stop w o Reason.tool_call_cap_exceeded)
    check_limits w o (w.clock_worked s.iteration) policy

  -- The round after the worker's call, which ends with the policy of the next round.
  unfoldable pub after_work : SessionPolicy → WorkerResult × List Item → M SessionPolicy
  after_work elevated received = do
    verify_phase received.0
    limits_phase elevated received.0 received.1
    judge_result w o received.0
    pure elevated

  unfoldable pub iterate : SessionPolicy → M SessionPolicy
  iterate policy = do
    begin_iteration
    plan ← plan_phase policy
    elevated ← elevate_phase policy plan
    received ← work_phase elevated plan
    after_work elevated received
