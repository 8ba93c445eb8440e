-- ===== src/RateLimit/Tests.antt =====
-- A budget of one request a minute, and one address that sends two.
use native.Mathlib.Decide.{ℕ_discrete}
use nagent.Prelude.{
  ℕ, ◌*◌, ◌+◌, ◌≤◌, ◌<◌, ◌≡◌, refl, ap, Bool, true, false, Option, none, some, List, [], ◌∷◌, ◌==◌,
  sym, ◌∙◌, if◌then◌else◌, arith,
}
use nagent.Prelude.Words.{from_secs}
use nagent.Prelude.Text.{Text, codes, text_eq, trim, trim_start, trim_end}
use nagent.Collections.{DashMap, discrete_map}
use nagent.Net.{IpAddr, v4, IpAddr-discrete, is_loopback}
use nagent.Support.SweepClock
use nagent.Support.TokenBucket
use nagent.Support.TokenBucketMap
use nagent.Collections.Assoc.{lookup, without}
use nagent.Support.TokenBucketMap.{bucket_or_full, should_sweep}
use nagent.Support.TokenBucket.{TokenBucket, unit, full, try_consume, deny}
use nagent.Support.TokenBucket.Budget.{attempts, sum, attempts-bound}
use nagent.Support.TokenBucketMap.{sweep_idle}
use nagent.RateLimit.{
  RateLimitPolicy, RateLimiter, new, check, swept_if_due, sweep_idle_buckets_inner,
  llm_rate_limit_middleware, passes, too_many_requests, TrustedProxiesConfig, first_entry,
  is_trusted, resolve_client_ip,
}
use nagent.RateLimit.Independence.{Attempt, run, Draining, new-Draining, bucket_of-run}
use nagent.RateLimit.Answers.{results, own_results, times_of, results-run}
use nagent.RateLimit.Retry.{llm_rate_limit_middleware-retry}
use nagent.RateLimit.Headers.{resolve_client_ip-forwarded}

abbrev client : IpAddr
client = v4 203 0 113 7

abbrev other_client : IpAddr
other_client = v4 203 0 113 8

abbrev d : DashMap IpAddr TokenBucket
d = discrete_map IpAddr-discrete TokenBucket

abbrev policy : RateLimitPolicy
policy = record { tokens_per_minute = 1 }

abbrev fresh : RateLimiter d
fresh = new d policy

abbrev sent_attempts : List Attempt
sent_attempts =
    record { ip = client; swept_at = 5; now = 5 }
    ∷ record { ip = other_client; swept_at = 6; now = 7 }
    ∷ record { ip = client; swept_at = 8; now = 9 }
    ∷ []

remote : is_loopback client ≡ false
unfolding is_loopback
remote = refl

budget : 0 < fresh.policy.tokens_per_minute
unfolding new
budget = omega arith

results-run_example :
    results (new d policy) client sent_attempts
    ≡ own_results policy client none (times_of d client sent_attempts)
results-run_example = results-run d policy sent_attempts client (omega arith) remote

attempts-bound_example :
    (attempts unit 1 (full unit 0) (1 ∷ from_secs 90 ∷ [])).1 * unit
      + (attempts unit 1 (full unit 0) (1 ∷ from_secs 90 ∷ [])).0.tokens
    ≤ (full unit 0).tokens + 1 * sum (1 ∷ from_secs 90 ∷ [])
attempts-bound_example = attempts-bound unit 1 (full unit 0) (1 ∷ from_secs 90 ∷ [])

-- the limiter after the first request
abbrev used : RateLimiter d
used = run fresh (record { ip = client; swept_at = 5; now = 5 } ∷ [])

-- it is refused
second_refused : (llm_rate_limit_middleware used (some client) 9 9).1 ≡ too_many_requests 60
unfolding llm_rate_limit_middleware check swept_if_due sweep_idle_buckets_inner should_sweep
    SweepClock.tick TokenBucketMap.try_consume bucket_or_full TokenBucket.try_consume full new
    TokenBucketMap.new TokenBucketMap.with_sweep_every is_loopback IpAddr-discrete ℕ_discrete lookup
    without
second_refused = refl

used-Draining : Draining used
used-Draining =
    (bucket_of-run fresh (record { ip = client; swept_at = 5; now = 5 } ∷ []) client budget
      (new-Draining d policy)).1

used_budget : 0 < used.policy.tokens_per_minute
unfolding new check is_loopback swept_if_due should_sweep SweepClock.tick TokenBucketMap.new
    TokenBucketMap.with_sweep_every
used_budget = omega arith

llm_rate_limit_middleware-retry_example :
    (llm_rate_limit_middleware
      (llm_rate_limit_middleware used (some client) 9 9).0
      (some client)
      (from_secs 61)
      (from_secs 61)).1
    ≡ passes
llm_rate_limit_middleware-retry_example =
    llm_rate_limit_middleware-retry used client 9 9 (from_secs 61) (from_secs 61) 60 remote
      used_budget used-Draining second_refused (omega arith)

-- a proxy of the network 10.0.0.0/8, and a parser that knows one address
abbrev ip_first : IpAddr → ℕ
ip_first (v4 a b c e) = a
ip_first _ = 0

abbrev in_ten : ℕ → IpAddr → Bool
in_ten net ip = ip_first ip == net

abbrev knows : Text → Option IpAddr
knows s = if text_eq s (codes "203.0.113.7") then some client else none

abbrev trusted : TrustedProxiesConfig ℕ
trusted = record { cidrs = 10 ∷ []; loopback_bypass = true }

abbrev chain : Option (Option Text)
chain = some (some (codes "203.0.113.7, 10.0.0.5"))

abbrev proxy : IpAddr
proxy = v4 10 0 0 5

resolved : resolve_client_ip in_ten knows chain proxy trusted ≡ client
unfolding resolve_client_ip is_trusted first_entry trim trim_start trim_end text_eq
resolved = refl

resolve_client_ip-forwarded_example :
    (is_trusted in_ten trusted proxy ≡ true)
    × ((s : Text) × (chain ≡ some (some s))
        × (knows (trim (first_entry s))
            ≡ some (resolve_client_ip in_ten knows chain proxy trusted)))
resolve_client_ip-forwarded_example =
    resolve_client_ip-forwarded in_ten knows chain proxy trusted
      (λ e. let octets : 203 ≡ 10 = ap ip_first (sym resolved ∙ e) in omega (arith, octets))
