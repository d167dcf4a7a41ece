-- ===== src/Action/RateLimit.antt =====
-- action/rate_limit.py: token buckets per pattern of tool names. A bucket counts in units, of which
-- `unit` make a token, so that what it gains per clock tick is a natural number; the source has
-- floats. The match of a name with a pattern is fnmatch's, a parameter.
pub mod Bound
mod Examples
use kaos_agents.Prelude.{
  ℕ, suc, ◌+◌, ◌-◌, ◌*◌, min, leb, Bool, true, false, Option, none, some, List, [], ◌∷◌, String,
  if◌then◌else◌,
}
use kaos_agents.Prelude.Equality.{◌==◌, string_key}
use kaos_agents.Prelude.Dict.{lookup, insert}

pub record TokenBucket : Type 0 where
  pub capacity : ℕ
  pub refill : ℕ
  pub tokens : ℕ
  pub last_refill : ℕ

-- A capacity in tokens, and the units gained per tick.
abbrev pub Rate : Type 0
Rate = ℕ × ℕ

pub record RateLimiter : Type 0 where
  pub rates : List (String × Rate)
  pub default_rate : Option Rate
  pub buckets : List (String × TokenBucket)

module _ (unit : ℕ) (fnmatch : String → String → Bool) where
  unfoldable pub new_bucket : ℕ → Rate → TokenBucket
  new_bucket now (capacity, refill) = record {
    capacity = capacity;
    refill = refill;
    tokens = capacity * unit;
    last_refill = now;
  }

  -- A difference of times below 0 is 0 here, as `max(0.0, ...)` makes it.
  unfoldable pub refilled : ℕ → TokenBucket → TokenBucket
  refilled now b = record b {
    tokens = min (b.capacity * unit) (b.tokens + (now - b.last_refill) * b.refill);
    last_refill = now;
  }

  unfoldable pub consume : ℕ → ℕ → TokenBucket → TokenBucket × Bool
  consume now n b =
      let full = refilled now b in
      if leb (n * unit) full.tokens
      then (record full { tokens = full.tokens - n * unit }, true)
      else (full, false)

  -- The first pattern that matches, and its rate.
  unfoldable pub rate_for : String → List (String × Rate) → Option (String × Rate)
  rate_for tool_name [] = none
  rate_for tool_name ((pattern, rate) ∷ rates) =
      if fnmatch tool_name pattern then some (pattern, rate) else rate_for tool_name rates

  -- The key and the rate of the bucket of a tool; `none` is unlimited.
  unfoldable pub key_for : String → RateLimiter → Option (String × Rate)
  key_for tool_name l = elim (rate_for tool_name l.rates) [
    | some found ↦ some found
    | none ↦ elim l.default_rate [ none ↦ none | some rate ↦ some ("__default__", rate) ]
  ]

  -- `_bucket_for`; a new bucket is stored by the caller, after it has consumed from it.
  unfoldable pub bucket_at : ℕ → String → Rate → RateLimiter → TokenBucket
  bucket_at now key rate l = elim (lookup key l.buckets) [ none ↦ new_bucket now rate | some b ↦ b ]

  unfoldable pub allow_at : ℕ → Option (String × Rate) → RateLimiter → RateLimiter × Bool
  allow_at now none l = (l, true)
  allow_at now (some (key, rate)) l =
      let (b, allowed) = consume now 1 (bucket_at now key rate l) in
      (record l { buckets = insert key b l.buckets }, allowed)

  unfoldable pub allow : ℕ → String → RateLimiter → RateLimiter × Bool
  allow now tool_name l = allow_at now (key_for tool_name l) l
