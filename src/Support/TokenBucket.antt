-- ===== src/Support/TokenBucket.antt =====
-- crates/nagent-support/src/ratelimit.rs: `TokenBucket`. The source counts tokens in `f64`, at a rate
-- that is a whole number of tokens per minute. Here `unit` is one token, and one nanosecond refills
-- as many units as the rate has tokens per minute: all amounts are whole numbers, and exact.
pub mod Budget
pub mod Retry
use nagent.Prelude.{ℕ, ◌+◌, ◌-◌, ◌*◌, ◌/◌, Bool, ltb, leb, min, if◌then◌else◌}
use nagent.Prelude.Words.{u64_max, from_secs, duration_since}

-- the nanoseconds of a minute
abbrev pub unit : ℕ
unit = from_secs 60

pub data TokenDecision : Type 0 where
  allow : TokenDecision
  deny : ℕ → TokenDecision

pub record TokenBucket : Type 0 where
  pub tokens : ℕ
  pub last_update : ℕ

unfoldable pub full : ℕ → ℕ → TokenBucket
full capacity now = record { tokens = capacity; last_update = now }

-- `from_secs_f64`, to the nearest nanosecond
abbrev pub nearest : ℕ → ℕ → ℕ
nearest amount rate = (2 * amount + rate) / (2 * rate)

-- the wait for the rest of a token
abbrev pub retry_after : ℕ → ℕ → ℕ
retry_after rate tokens =
    if ltb 0 rate then nearest (unit - tokens) rate else from_secs (u64_max / 2)

abbrev pub refilled : TokenBucket → ℕ → ℕ → ℕ → ℕ
refilled b capacity rate now = min (b.tokens + rate * duration_since now b.last_update) capacity

-- `capacity` in units, `rate` in tokens per minute
unfoldable pub try_consume : TokenBucket → ℕ → ℕ → ℕ → TokenBucket × TokenDecision
try_consume b capacity rate now =
    let tokens = refilled b capacity rate now in
    if leb unit tokens
    then (record { tokens = tokens - unit; last_update = now }, allow)
    else (record { tokens = tokens; last_update = now }, deny (retry_after rate tokens))

-- `should_keep_during_idle_eviction`
unfoldable pub should_keep_during_idle_eviction : ℕ → ℕ → ℕ → Bool
should_keep_during_idle_eviction now last_update idle_for =
    ltb (duration_since now last_update) idle_for
