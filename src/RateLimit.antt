-- ===== src/RateLimit.antt =====
-- crates/nagent-server/src/rate_limit.rs: the limiter of each address, and the address that a request
-- counts for; `TrustedProxiesConfig` of config/trusted_proxies.rs, and `llm_rate_limit_middleware` of
-- http/llm_guards.rs. The networks are those of another crate: `contains` is its test, `parse` the
-- parser of `IpAddr`.
pub mod Independence
pub mod Answers
pub mod Retry
pub mod Headers
mod Tests
use nagent.Prelude.{
  ℕ, ◌+◌, ◌-◌, ◌*◌, ◌/◌, ◌^◌, max, min, Bool, true, false, ◌==◌, Option, none, some, List, [], ◌∷◌,
  any, if◌then◌else◌,
}
use nagent.Prelude.Words.{from_secs, u64_max}
use nagent.Prelude.Text.{Text, trim}
use nagent.Collections.{DashMap}
use nagent.Net.{IpAddr, is_loopback}
use nagent.Support.TokenBucket.{TokenBucket, TokenDecision, allow, deny, unit}
use nagent.Support.TokenBucketMap
use nagent.Support.TokenBucketMap.{TokenBucketMap, try_consume, sweep_idle, should_sweep}

pub record RateLimitPolicy : Type 0 where
  pub tokens_per_minute : ℕ

-- in units for each nanosecond, as in `TokenBucket`
abbrev pub refill_rate : RateLimitPolicy → ℕ
refill_rate p = if p.tokens_per_minute == 0 then 0 else p.tokens_per_minute

pub record RateLimiter (d : DashMap IpAddr TokenBucket) : Type 0 where
  pub policy : RateLimitPolicy
  pub buckets : TokenBucketMap d

-- the `Result`
pub data CheckResult : Type 0 where
  ok : CheckResult
  limited : IpAddr → ℕ → CheckResult

unfoldable pub new : (d : DashMap IpAddr TokenBucket) → RateLimitPolicy → RateLimiter d
new d policy = record { policy = policy; buckets = TokenBucketMap.new d }

-- `as_millis`, capped
abbrev pub millis : ℕ → ℕ
millis wait = min (wait / 10 ^ 6) u64_max

abbrev pub result_of : IpAddr → TokenDecision → CheckResult
result_of ip allow = ok
result_of ip (deny wait) = limited ip (millis wait)

module _ {d : DashMap IpAddr TokenBucket} where
  abbrev pub capacity : RateLimiter d → ℕ
  capacity l = l.policy.tokens_per_minute * unit

  unfoldable pub sweep_idle_buckets_inner : RateLimiter d → ℕ → ℕ → RateLimiter d
  sweep_idle_buckets_inner l now idle_for = record l {
    buckets = (sweep_idle l.buckets now idle_for (capacity l)).0;
  }

  -- the sweep that `check` starts with
  unfoldable pub swept_if_due : RateLimiter d → ℕ → RateLimiter d
  swept_if_due l swept_at =
      let (ticked, open_now) = should_sweep l.buckets in
      let l1 : RateLimiter d = record l { buckets = ticked } in
      if open_now then sweep_idle_buckets_inner l1 swept_at (from_secs 60) else l1

  -- `swept_at` and `now` are the two readings of the clock
  unfoldable pub check : RateLimiter d → IpAddr → ℕ → ℕ → RateLimiter d × CheckResult
  check l ip swept_at now =
      if is_loopback ip
      then (l, ok)
      else (let l1 = swept_if_due l swept_at in
          let (buckets, decision) =
            try_consume l1.buckets ip (capacity l1) (refill_rate l1.policy) now in
          (record l1 { buckets = buckets }, result_of ip decision))

  unfoldable pub check_opt : RateLimiter d → Option IpAddr → ℕ → ℕ → RateLimiter d × CheckResult
  check_opt l none swept_at now = (l, ok)
  check_opt l (some ip) swept_at now = check l ip swept_at now

  unfoldable pub sweep_idle_buckets : RateLimiter d → ℕ → RateLimiter d
  sweep_idle_buckets l now = sweep_idle_buckets_inner l now (from_secs 60)

-- whether a request goes on, or is answered 429 with its `Retry-After` in seconds
pub data Guarded : Type 0 where
  passes : Guarded
  too_many_requests : ℕ → Guarded

abbrev pub retry_secs : ℕ → ℕ
retry_secs retry_after_ms = max ((retry_after_ms + 999) / 1000) 1

abbrev pub guarded_by : CheckResult → Guarded
guarded_by ok = passes
guarded_by (limited ip retry_after_ms) = too_many_requests (retry_secs retry_after_ms)

module _ {d : DashMap IpAddr TokenBucket} where
  unfoldable pub llm_rate_limit_middleware :
      RateLimiter d → Option IpAddr → ℕ → ℕ → RateLimiter d × Guarded
  llm_rate_limit_middleware l none swept_at now = (l, passes)
  llm_rate_limit_middleware l (some addr) swept_at now =
      let (l', r) = check l addr swept_at now in (l', guarded_by r)

pub record TrustedProxiesConfig (IpNet : Type 0) : Type 0 where
  pub cidrs : List IpNet
  pub loopback_bypass : Bool

-- `split(',').next()`
unfoldable pub first_entry : Text → Text
first_entry [] = []
first_entry (c ∷ s) = let rest = first_entry s in if c == b',' then [] else c ∷ rest

module _ {IpNet : Type 0} (contains : IpNet → IpAddr → Bool) where
  unfoldable pub is_trusted : TrustedProxiesConfig IpNet → IpAddr → Bool
  is_trusted trusted ip = any (λ net. contains net ip) trusted.cidrs

module _ {IpNet : Type 0} (contains : IpNet → IpAddr → Bool) (parse : Text → Option IpAddr) where
  -- the `x-forwarded-for` header, if there is one, and its text, if it is text
  unfoldable pub resolve_client_ip :
      Option (Option Text) → IpAddr → TrustedProxiesConfig IpNet → IpAddr
  resolve_client_ip header peer trusted =
      if is_trusted contains trusted peer
      then elim header [
        | none ↦ peer
        | some raw ↦ elim raw [
          | none ↦ peer
          | some s ↦ elim (parse (trim (first_entry s))) [ none ↦ peer | some parsed ↦ parsed ]
        ]
      ]
      else peer
