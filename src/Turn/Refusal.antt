-- ===== src/Turn/Refusal.antt =====
-- patterns/agentic_loop.py: the limits of the loop, and the answer that a turn ends with when it is
-- stopped, `_emit_failure_refusal`.
use Prim.Native.Char.{Char, code}
use Prim.Native.String.{count}
use kaos_agents.Prelude.{
  ℕ, Bool, true, false, ◌&&◌, Option, none, some, List, [], ◌∷◌, String, leb, ltb, if◌then◌else◌,
}
use kaos_agents.Prelude.Equality.{◌==◌, string_key, contains, nat_key}
use kaos_agents.Prelude.Reply.{Reply, replies, fails, cancelled}
use kaos_agents.Planning.GoalCheck.{GoalCheckOutcome, Line, check_goal, is_satisfied}
use kaos_agents.Session.Policy.{SessionPolicy}
use kaos_agents.Turn.Types.{
  LoopState, Reason, Answer, draft, draft_with_footer, refusal, Intent, respond,
  respond_with_caveat, refuse, text_delta, turn_summary, Verdict, no_verdict, needs_more_work,
  override,
}
use kaos_agents.Turn.Run.{
  Effect, M, goes, raises, interrupted, ◌>>=◌, ◌>>◌, get, modify, emit, charged, terminated, quit,
}

unfoldable pub budget_exceeded : LoopState → SessionPolicy → Bool
budget_exceeded s policy = leb policy.max_loop_cost s.cumulative_cost

unfoldable pub per_tool_budget_exceeded : ℕ → SessionPolicy → Bool
per_tool_budget_exceeded cost_delta policy =
    if leb policy.max_per_tool_cost 0 then false else ltb policy.max_per_tool_cost cost_delta

-- The time that has passed since the turn started is an argument.
unfoldable pub wall_clock_exceeded : ℕ → SessionPolicy → Bool
wall_clock_exceeded now policy = leb policy.max_loop_wall_clock now

-- The code points that `str.strip` removes.
abbrev pub white_space : List ℕ
white_space =
    9 ∷ 10 ∷ 11 ∷ 12 ∷ 13 ∷ 28 ∷ 29 ∷ 30 ∷ 31 ∷ 32 ∷ 133 ∷ 160 ∷ 5760 ∷ 8192 ∷ 8193 ∷ 8194 ∷ 8195
    ∷ 8196 ∷ 8197 ∷ 8198 ∷ 8199 ∷ 8200 ∷ 8201 ∷ 8202 ∷ 8232 ∷ 8233 ∷ 8239 ∷ 8287 ∷ 12288 ∷ []

abbrev pub is_space : Char → Bool
is_space c = contains white_space (code c)

unfoldable pub rstrip : String → String
rstrip String.[] = String.[]
rstrip (String.◌∷◌ c s) =
    let rest = rstrip s in if rest == "" && is_space c then String.[] else String.◌∷◌ c rest

unfoldable pub lstrip : String → String
lstrip String.[] = String.[]
lstrip (String.◌∷◌ c s) = let rest = lstrip s in if is_space c then rest else String.◌∷◌ c s

abbrev pub min_worker_draft_chars : ℕ
min_worker_draft_chars = 40

unfoldable pub draft_for_preserve : LoopState → String
draft_for_preserve s = if s.current_iter_text == "" then s.last_text else s.current_iter_text

-- The source also accepts the verdict "satisfied", which nothing stores.
abbrev pub is_uncriticized : Verdict → Bool
is_uncriticized no_verdict = true
is_uncriticized needs_more_work = false
is_uncriticized override = false

unfoldable pub should_preserve_worker_draft : LoopState → Bool
unfolding draft_for_preserve lstrip rstrip
should_preserve_worker_draft s =
    leb min_worker_draft_chars (count (lstrip (rstrip (draft_for_preserve s))))
    && is_uncriticized s.last_terminal_verdict

abbrev pub rate_draft : Reply GoalCheckOutcome → M Bool
rate_draft (replies outcome) s = goes (is_satisfied outcome.result) (charged outcome.cost s)
rate_draft (fails message) s = goes false s
rate_draft cancelled s = raises interrupted s

-- `none` is a turn without a goal-check model; else the check's reply on the draft, given its lines.
unfoldable pub draft_is_complete : Option (List Line × Reply GoalCheckOutcome) → M Bool
draft_is_complete none s = goes false s
draft_is_complete (some (agent_response, critic)) s =
    rate_draft (check_goal agent_response critic) s

-- The TextDelta and the TurnSummary of the answer.
unfoldable pub deliver : Answer → Intent → Effect
deliver answer intent = do
  emit (text_delta answer)
  s ← get
  emit (turn_summary answer intent s.cumulative_cost)

abbrev pub deliver_draft : Reason → Bool → LoopState → Effect
deliver_draft reason true s = deliver (draft (rstrip (draft_for_preserve s))) respond
deliver_draft reason false s =
    deliver (draft_with_footer (rstrip (draft_for_preserve s)) reason s.iteration)
      respond_with_caveat

abbrev pub deliver_refusal : Reason → LoopState → Effect
deliver_refusal reason s =
    deliver (refusal reason s.iteration s.last_critic_rationale s.last_critic_next_action) refuse

unfoldable pub emit_failure_refusal : Reason → Option (List Line × Reply GoalCheckOutcome) → Effect
emit_failure_refusal reason critic = do
  s ← get
  if should_preserve_worker_draft s
      then (draft_is_complete critic >>= λ complete. deliver_draft reason complete s)
      else deliver_refusal reason s

-- The refusal, the terminal event, and the return.
unfoldable pub stop_for : Reason → Option (List Line × Reply GoalCheckOutcome) → Effect
stop_for reason critic = do emit_failure_refusal reason critic; modify (terminated reason); quit

-- The same without a refusal.
unfoldable pub finish_with : Reason → Effect
finish_with reason = do modify (terminated reason); quit
