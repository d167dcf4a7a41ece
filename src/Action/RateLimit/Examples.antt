-- ===== src/Action/RateLimit/Examples.antt =====
-- A limiter with one pattern, and the theorem at it.
use kaos_agents.Prelude.{ℕ, ◌+◌, ◌-◌, ◌*◌, ◌≤◌, ◌≡◌, refl, Bool, none, List, [], ◌∷◌, String, arith}
use kaos_agents.Prelude.Equality.{◌==◌, string_key}
use kaos_agents.Prelude.Dict.{lookup, insert}
use kaos_agents.Action.RateLimit.{
  TokenBucket, RateLimiter, refilled, consume, rate_for, key_for, bucket_at, allow_at, allow,
}
use kaos_agents.Action.RateLimit.Bound.{allowed_from, allowed_from-le}

abbrev exactly : String → String → Bool
exactly name pattern = name == pattern

-- Two tokens of ten units each, and one unit per tick.
abbrev bucket : TokenBucket
bucket = record { capacity = 2; refill = 1; tokens = 20; last_refill = 100 }

abbrev limiter : RateLimiter
limiter = record {
  rates = ("search", (2, 1)) ∷ [];
  default_rate = none;
  buckets = ("search", bucket) ∷ [];
}

abbrev calls : List (ℕ × String)
calls = (101, "search") ∷ (102, "search") ∷ (103, "search") ∷ (104, "fetch") ∷ (112, "search") ∷ []

-- The third call finds three units, and the last one twelve.
allowed_three : allowed_from 10 exactly "search" calls limiter ≡ 3
unfolding allowed_from allow allow_at bucket_at key_for rate_for consume refilled lookup insert
allowed_three = refl

allowed_from-le_example : allowed_from 10 exactly "search" calls limiter * 10 ≤ 20 + (112 - 100) * 1
unfolding lookup
allowed_from-le_example =
    allowed_from-le 10 exactly "search" calls 112 limiter bucket refl
      (omega arith, (omega arith, (omega arith, (omega arith, (omega arith, omega arith)))))
