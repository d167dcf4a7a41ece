-- ===== src/Action/RateLimit/Bound.antt =====
-- action/rate_limit.py: how many calls a bucket lets through.
use kaos_agents.Prelude.{
  ℕ, suc, ◌+◌, ◌-◌, ◌*◌, ◌≤◌, ◌≡◌, refl, sym, ap, ◌∙◌, subst, inl, inr, Bool, true, false, Option,
  none, some, List, [], ◌∷◌, String, arith, Bool-cases, if◌then◌else◌,
}
use native.Mathlib.Nat.{add-mul, suc-mul, zero-mul}
use kaos_agents.Prelude.Equality.{◌==◌, string_key}
use kaos_agents.Prelude.Dict.{lookup, insert, lookup-insert}
use kaos_agents.Action.RateLimit.{
  TokenBucket, Rate, RateLimiter, refilled, consume, key_for, bucket_at, allow_at, allow,
}

-- The times of the calls do not go back, from `start` to `finish`.
abbrev pub InOrder : ℕ → List (ℕ × String) → ℕ → Type 0
InOrder start [] finish = start ≤ finish
InOrder start ((now, tool) ∷ calls) finish = (start ≤ now) × InOrder now calls finish

module _ (unit : ℕ) (fnmatch : String → String → Bool) where
  abbrev pub has_key : String → Option (String × Rate) → Bool
  has_key key none = false
  has_key key (some (k, rate)) = k == key

  -- How many of the calls that draw on the bucket `key` are allowed.
  unfoldable pub allowed_from : String → List (ℕ × String) → RateLimiter → ℕ
  allowed_from key [] l = 0
  allowed_from key ((now, tool) ∷ calls) l =
      let (l', allowed) = allow unit fnmatch now tool l in
      let rest = allowed_from key calls l' in
      if has_key key (key_for unit fnmatch tool l) then if allowed then suc rest else rest else rest

  consume-tokens :
      (now : ℕ) (b : TokenBucket)
      → let (b', allowed) = consume unit fnmatch now 1 b in
        ((if allowed then unit else 0) + b'.tokens ≤ b.tokens + (now - b.last_refill) * b.refill)
        × (b'.last_refill ≡ now)
        × (b'.refill ≡ b.refill)
  unfolding consume refilled
  consume-tokens now b = ground arith

  elapsed :
      (start now finish r : ℕ)
      → start ≤ now
      → now ≤ finish
      → (now - start) * r + (finish - now) * r ≡ (finish - start) * r
  elapsed start now finish r h k =
      sym (add-mul (now - start) (finish - now) r) ∙ ap (λ n. n * r) (omega (arith, h, k))

  InOrder-le :
      (start : ℕ) (calls : List (ℕ × String)) (finish : ℕ)
      → InOrder start calls finish
      → start ≤ finish
  InOrder-le start [] finish h = h
  InOrder-le start ((now, tool) ∷ calls) finish (h, order) =
      omega (arith, h, InOrder-le now calls finish order)

  InOrder-earlier :
      (start now : ℕ) (calls : List (ℕ × String)) (finish : ℕ)
      → start ≤ now
      → InOrder now calls finish
      → InOrder start calls finish
  InOrder-earlier start now [] finish h order = omega (arith, h, order)
  InOrder-earlier start now ((n, tool) ∷ calls) finish h (k, order) = (omega (arith, h, k), order)

  -- The bound on some calls, from any state of the limiter.
  abbrev Bounded : String → List (ℕ × String) → ℕ → Type 0
  Bounded key calls finish =
      (l : RateLimiter) (b : TokenBucket)
      → lookup key l.buckets ≡ some b
      → InOrder b.last_refill calls finish
      → allowed_from key calls l * unit ≤ b.tokens + (finish - b.last_refill) * b.refill

  -- The calls that follow one on the same bucket.
  after_mine :
      (key : String) (now : ℕ) (calls : List (ℕ × String)) (finish : ℕ) (l : RateLimiter)
      (b : TokenBucket)
      → Bounded key calls finish
      → b.last_refill ≤ now
      → InOrder now calls finish
      → let (b', allowed) = consume unit fnmatch now 1 b in
        let rest = allowed_from key calls (record l { buckets = insert key b' l.buckets }) in
        (if allowed then suc rest else rest) * unit ≤ b.tokens + (finish - b.last_refill) * b.refill
  after_mine key now calls finish l b bounded h order =
      let (b', allowed) = consume unit fnmatch now 1 b in
      let rest = allowed_from key calls (record l { buckets = insert key b' l.buckets }) in
      let (spent, at, same) = consume-tokens now b in
      let left =
        bounded (record l { buckets = insert key b' l.buckets }) b'
          (rw (lookup-insert, (string_key.equal_iff key key).1 refl) refl)
          (subst (λ n. InOrder n calls finish) (sym at) order) in
      total allowed rest b'.tokens b.tokens ((now - b.last_refill) * b.refill)
        ((finish - now) * b.refill) ((finish - b.last_refill) * b.refill) spent
        (rw (at, same) at left)
        (elapsed b.last_refill now finish b.refill h (InOrder-le now calls finish order))
    where
      total :
          (allowed : Bool) (rest tokens' tokens gained later whole : ℕ)
          → (if allowed then unit else 0) + tokens' ≤ tokens + gained
          → rest * unit ≤ tokens' + later
          → gained + later ≡ whole
          → (if allowed then suc rest else rest) * unit ≤ tokens + whole
      total true rest tokens' tokens gained later whole h k e =
          omega (arith, suc-mul rest unit, h, k, e)
      total false rest tokens' tokens gained later whole h k e = omega (arith, h, k, e)

  bucket_of :
      (key : String) (now : ℕ) (rate : Rate) (l : RateLimiter) (b : TokenBucket)
      → lookup key l.buckets ≡ some b
      → bucket_at unit fnmatch now key rate l ≡ b
  unfolding bucket_at
  bucket_of key now rate l b found = rw (found, bucket_at) refl

  -- One call with the key `o` of its bucket, and those that follow.
  one_call :
      (key : String) (now : ℕ) (calls : List (ℕ × String)) (finish : ℕ) (l : RateLimiter)
      (b : TokenBucket) (o : Option (String × Rate))
      → Bounded key calls finish
      → lookup key l.buckets ≡ some b
      → b.last_refill ≤ now
      → InOrder now calls finish
      → let (l', allowed) = allow_at unit fnmatch now o l in
        let rest = allowed_from key calls l' in
        (if has_key key o then if allowed then suc rest else rest else rest) * unit
        ≤ b.tokens + (finish - b.last_refill) * b.refill
  unfolding allow_at
  one_call key now calls finish l b none bounded found h order =
      bounded l b found (InOrder-earlier b.last_refill now calls finish h order)
  one_call key now calls finish l b (some (k, rate)) bounded found h order =
      elim (Bool-cases (k == key)) [
        | inr other ↦ rw other (
            bounded _ b (rw (lookup-insert, other) found)
              (InOrder-earlier b.last_refill now calls finish h order))
        | inl same ↦
            subst
              (λ k.
                let (b', allowed) =
                  consume unit fnmatch now 1 (bucket_at unit fnmatch now k rate l) in
                let rest = allowed_from key calls (record l { buckets = insert k b' l.buckets }) in
                (if k == key then if allowed then suc rest else rest else rest) * unit
                ≤ b.tokens + (finish - b.last_refill) * b.refill)
              (sym ((string_key.equal_iff k key).0 same))
              (rw ((string_key.equal_iff key key).1 refl, bucket_of key now rate l b found)
                (after_mine key now calls finish l b bounded h order))
      ]

  -- The calls that a bucket lets through, in units, are no more than the units that it holds and
  -- those that it gains until the last of the calls, whatever is called on other buckets.
  pub allowed_from-le :
      (key : String) (calls : List (ℕ × String)) (finish : ℕ) (l : RateLimiter) (b : TokenBucket)
      → lookup key l.buckets ≡ some b
      → InOrder b.last_refill calls finish
      → allowed_from key calls l * unit ≤ b.tokens + (finish - b.last_refill) * b.refill
  unfolding allowed_from allow
  allowed_from-le key [] finish l b found order = omega (arith, zero-mul unit)
  allowed_from-le key ((now, tool) ∷ calls) finish l b found (h, order) =
      one_call key now calls finish l b (key_for unit fnmatch tool l)
        (λ l' b'. allowed_from-le key calls finish l' b') found h order
