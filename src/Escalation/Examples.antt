-- ===== src/Escalation/Examples.antt =====
-- A budget of which a part is spent, and the theorems on the choice at it.
use kaos_agents.Prelude.{refl, ◌≡◌, false, some}
use kaos_agents.Escalation.{CostBudget, DefaultEscalationPolicy}
use kaos_agents.Prelude.{[], ◌∷◌, true, false}
use kaos_agents.Prelude.Equality.{contains}
use kaos_agents.Prelude.Dict.{lookup}
use kaos_agents.Escalation.People.{
  EscalationPolicy, EscalationKind-discrete, loop_detected, evaluate_decision, force,
  kind_from_decision,
}

abbrev budget : CostBudget
budget = record { total_usd = some 100; spent_usd = 40 }

-- The high-water mark of 0.75, and three attempts.
abbrev policy : DefaultEscalationPolicy
policy = record { high_water_num = 3; high_water_den = 4; max_attempts_per_step = 3 }

-- A kind that should always be escalated and is suppressed.
abbrev stubborn : EscalationPolicy
stubborn = record {
  channels = "cli" ∷ [];
  always = loop_detected ∷ [];
  never = loop_detected ∷ [];
  threshold = 50;
}

always_is_suppressed :
    (evaluate_decision
      (record { should_escalate = true; kind = "loop_detected"; feedback = "" })
      stubborn).escalate
    ≡ false
unfolding evaluate_decision force kind_from_decision lookup contains EscalationKind-discrete
always_is_suppressed = refl
