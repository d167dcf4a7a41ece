-- ===== src/AgentLoop/Acts.antt =====
-- loop/agent_loop.py: what the acts of the turn's collaborators keep.
use kaos_agents.Prelude.{String, arith, ◌≡◌, Option, some, List, [], ◌∷◌, All}
use kaos_agents.Events.{Scope}
use kaos_agents.AgentLoop.Types.{
  TurnInvocation, TurnError, finalize, AgentLoop, Planner, TurnPlan, JudgeCall, Act, Asked,
  RawDecision,
}
use kaos_agents.AgentLoop.State.{TurnState, act, perform}
use kaos_agents.AgentLoop.Work.{choose_planner}
use kaos_agents.AgentLoop.Keeps.{KeepsActs, KeepCollaborators}

-- Every act of the planner and of the judge of this turn is of a kind.
pub record Collaborators (Q : Act → Type 0) {P : Type 0} (a : AgentLoop P) (p : TurnPlan)
    : Type 0 where
  pub plans :
      (planner : Planner P)
      → (choose_planner a p.intent).0 ≡ some planner
      → All Q (planner.plan p.intent).0
  pub executes :
      (planner : Planner P)
      → (choose_planner a p.intent).0 ≡ some planner
      → (made : P) → All Q (planner.execute made).0
  pub judges :
      (judge : JudgeCall → Asked (Option RawDecision))
      → a.termination_judge ≡ some judge
      → (c : JudgeCall) → All Q (judge c).0

module _ (I : Scope → Type 0) (P : Type 0) (Q : Act → Type 0)
    (kept : (x : Act) → Q x → (s : TurnState P) → I s.scope → I (act x s).scope) where
  perform-Keeps : (acts : List Act) → All Q acts → KeepsActs I P acts
  unfolding perform
  perform-Keeps [] h s i = i
  perform-Keeps (x ∷ acts) h s i = perform-Keeps acts h.1 (act x s) (kept x h.0 s i)

  pub Collaborators-Keep :
      (a : AgentLoop P) (p : TurnPlan) → Collaborators Q a p → KeepCollaborators I P a p
  Collaborators-Keep a p c = record {
    plans = λ planner e. perform-Keeps _ (c.plans planner e);
    executes = λ planner e made. perform-Keeps _ (c.executes planner e made);
    judges = λ judge e call. perform-Keeps _ (c.judges judge e call);
  }

pub finalize-events :
    {P : Type 0} (output : String) (error : Option TurnError) (t : TurnInvocation P)
    → (finalize output error t).events ≡ t.events
unfolding finalize
finalize-events output error t = ground arith
