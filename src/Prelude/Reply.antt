-- ===== src/Prelude/Reply.antt =====
-- What an awaited call gives: a value, an ordinary exception, or asyncio's CancelledError, which
-- `except Exception` does not catch.
use kaos_agents.Prelude.{String}

pub data Reply {ℓ} (A : Type ℓ) : Type ℓ where
  replies : A → Reply A
  fails : String → Reply A
  cancelled : Reply A
