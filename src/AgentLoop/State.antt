-- ===== src/AgentLoop/State.antt =====
-- loop/agent_loop.py: the state of a turn that runs, and its steps, which may raise.
use kaos_agents.Prelude.{Option, List, [], ◌∷◌, ◌++◌}
use kaos_agents.Prelude.Reply.{Reply, replies, fails, cancelled}
use kaos_agents.Events.{Scope, emit_event, collect, put}
use kaos_agents.Memory.Institutional.{KnowledgeBase}
use kaos_agents.AgentLoop.Types.{TurnInvocation, Act, emits, pushes, queues, finds, Asked}

-- The knowledge base, if there is one, outlives the turn.
pub record TurnState (P : Type 0) : Type 0 where
  pub scope : Scope
  pub invocation : TurnInvocation P
  pub knowledge_base : Option KnowledgeBase

-- A step of a turn whose plans are of type `P`.
abbrev pub M : Type 0 → Type 0 → Type 0
M P A = TurnState P → Reply A × TurnState P

abbrev pub Effect : Type 0 → Type 0
Effect P = M P (Unit {0})

abbrev pub and_then :
    {P A B : Type 0}
    → Reply A × TurnState P
    → (A → TurnState P → Reply B × TurnState P)
    → Reply B × TurnState P
and_then (replies a, s) f = f a s
and_then (fails message, s) f = (fails message, s)
and_then (cancelled, s) f = (cancelled, s)

infixl 5 ◌>>=◌ ◌>>◌
abbrev pub ◌>>=◌ : {P A B : Type 0} → M P A → (A → M P B) → M P B
◌>>=◌ m f s = and_then (m s) f

abbrev pub ◌>>◌ : {P B : Type 0} → Effect P → M P B → M P B
m >> k = m >>= λ _. k

abbrev pub pure : {P A : Type 0} → A → M P A
pure a s = (replies a, s)

abbrev pub get : {P : Type 0} → M P (TurnState P)
get s = (replies s, s)

abbrev pub modify : {P : Type 0} → (TurnState P → TurnState P) → Effect P
modify f s = (replies tt, f s)

module _ {P : Type 0} where
  unfoldable pub on_scope : (Scope → Scope) → TurnState P → TurnState P
  on_scope f s = record s { scope = f s.scope }

  unfoldable pub on_invocation : (TurnInvocation P → TurnInvocation P) → TurnState P → TurnState P
  on_invocation f s = record s { invocation = f s.invocation }

  unfoldable pub act : Act → TurnState P → TurnState P
  unfolding emit_event collect
  act (emits p) s = record s { scope = emit_event p s.scope }
  act (pushes e) s = record s { scope = record s.scope { collector = collect e s.scope.collector } }
  act (queues e) s = record s {
    scope = record s.scope {
      collector = record s.scope.collector { queue = put e s.scope.collector.queue };
    };
  }
  act (finds f) s = record s {
    invocation = record s.invocation { findings = s.invocation.findings ++ f ∷ [] };
  }

  unfoldable pub perform : List Act → TurnState P → TurnState P
  perform [] s = s
  perform (a ∷ acts) s = perform acts (act a s)

  -- `await _maybe_await(...)`.
  abbrev pub ask : {A : Type 0} → Asked A → M P A
  ask (acts, reply) s = (reply, perform acts s)
