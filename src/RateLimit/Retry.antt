-- ===== src/RateLimit/Retry.antt =====
-- `Retry-After`: when a client that was refused is let through.
use native.Mathlib.Nat.{mul-le-mul_right}
use nagent.Prelude.{
  ℕ, ◌+◌, ◌*◌, ◌^◌, ◌≤◌, ◌<◌, ◌≡◌, refl, sym, ap, ◌∙◌, subst, false, Option, some, arith,
}
use nagent.Prelude.Words.{unwrap_or, from_secs}
use nagent.Collections.{DashMap}
use nagent.Net.{IpAddr, is_loopback}
use nagent.Support.TokenBucket
use nagent.Support.TokenBucket.{TokenBucket, TokenDecision, allow, deny, unit, retry_after}
use nagent.Support.TokenBucket.Retry.{try_consume-retry_after, deny-le}
use nagent.RateLimit.{
  RateLimitPolicy, refill_rate, RateLimiter, result_of, millis, retry_secs, check, Guarded, passes,
  too_many_requests, guarded_by, llm_rate_limit_middleware,
}
use nagent.RateLimit.Independence.{one_attempt, bucket_of, Draining, check-remote}

-- the header's seconds cover the wait, but for a millisecond
covered :
    (wait secs : ℕ)
    → wait ≤ unit + 1
    → retry_secs (millis wait) ≡ secs
    → wait < from_secs secs + 10 ^ 6
covered wait secs short e = omega (arith, short, e)

abbrev secs_of : Guarded → ℕ
secs_of passes = 0
secs_of (too_many_requests secs) = secs

-- the wait behind a refusal
denied :
    (ip : IpAddr) (d : TokenDecision) (secs : ℕ)
    → guarded_by (result_of ip d) ≡ too_many_requests secs
    → (wait : ℕ) × (d ≡ deny wait) × (retry_secs (millis wait) ≡ secs)
denied ip allow secs h = ground (arith, h)
denied ip (deny wait) secs h = (wait, refl, ap secs_of h)

-- a refusal of one bucket, and a later attempt on what it leaves
retried :
    (policy : RateLimitPolicy) (o : Option TokenBucket) (now later wait secs : ℕ)
    → 0 < policy.tokens_per_minute
    → (one_attempt policy o now).1 ≡ deny wait
    → retry_secs (millis wait) ≡ secs
    → now + from_secs secs + 10 ^ 6 ≤ later
    → (one_attempt policy (some (one_attempt policy o now).0) later).1 ≡ allow
retried policy o now later wait secs pos refused named after =
    let cap = policy.tokens_per_minute * unit in
    let rate_pos : 0 < refill_rate policy = grind (arith, pos) in
    let fits = mul-le-mul_right unit pos in
    let bucket = unwrap_or o (TokenBucket.full cap now) in
    let short = deny-le bucket cap (refill_rate policy) now wait rate_pos refused in
    try_consume-retry_after bucket cap (refill_rate policy) now wait later (omega (arith, fits))
      rate_pos refused (omega (arith, after, covered wait secs short named))

module _ {d : DashMap IpAddr TokenBucket} where
  guarded :
      (l : RateLimiter d) (ip : IpAddr) (swept_at now : ℕ)
      → is_loopback ip ≡ false
      → 0 < l.policy.tokens_per_minute
      → Draining l
      → (llm_rate_limit_middleware l (some ip) swept_at now).1
        ≡ guarded_by (result_of ip (one_attempt l.policy (bucket_of l ip) now).1)
  unfolding llm_rate_limit_middleware
  guarded l ip swept_at now remote pos draining =
      ap guarded_by (check-remote l ip ip swept_at now remote pos draining).0.1

  -- A client that is answered 429 is let through when it comes back a millisecond after the seconds
  -- of its `Retry-After`, if no other request comes between, its address is not a loopback one, the
  -- budget is not zero and no bucket is full, as after any checks.
  pub llm_rate_limit_middleware-retry :
      (l : RateLimiter d) (ip : IpAddr) (swept_at now later_swept_at later secs : ℕ)
      → is_loopback ip ≡ false
      → 0 < l.policy.tokens_per_minute
      → Draining l
      → (llm_rate_limit_middleware l (some ip) swept_at now).1 ≡ too_many_requests secs
      → now + from_secs secs + 10 ^ 6 ≤ later
      → (llm_rate_limit_middleware
          (llm_rate_limit_middleware l (some ip) swept_at now).0
          (some ip)
          later_swept_at
          later).1
        ≡ passes
  unfolding llm_rate_limit_middleware
  llm_rate_limit_middleware-retry l ip swept_at now later_swept_at later secs remote pos draining
        refused after =
      let l' = (check l ip swept_at now).0 in
      let ((bucket, _), (policy, draining')) =
        check-remote l ip ip swept_at now remote pos draining in
      let pos' = subst (λ (p : RateLimitPolicy). 0 < p.tokens_per_minute) (sym policy) pos in
      let (wait, is_deny, named) =
        denied ip (one_attempt l.policy (bucket_of l ip) now).1 secs
          (sym (guarded l ip swept_at now remote pos draining) ∙ refused) in
      let allowed = retried l.policy (bucket_of l ip) now later wait secs pos is_deny named after in
      let same_key = (d.key_eq_iff ip ip).1 refl in
      let held : bucket_of l' ip ≡ some (one_attempt l.policy (bucket_of l ip) now).0 =
        bucket ∙ rw same_key refl in
      guarded l' ip later_swept_at later remote pos' draining'
      ∙ ap (λ p. guarded_by (result_of ip (one_attempt p (bucket_of l' ip) later).1)) policy
      ∙ ap (λ o. guarded_by (result_of ip (one_attempt l.policy o later).1)) held
      ∙ ap (λ x. guarded_by (result_of ip x)) allowed
