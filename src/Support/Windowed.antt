-- ===== src/Support/Windowed.antt =====
-- crates/nagent-support/src/ratelimit.rs: `WindowedBucket`, a fixed-window attempt counter with
-- exponential backoff. Instants and durations are nanoseconds.
pub mod Backoff
pub mod Budget
pub mod Allowance
mod Tests
use nagent.Prelude.{ℕ, ◌+◌, ◌-◌, ◌≤◌, Bool, min, max, leb, if◌then◌else◌}
use nagent.Prelude.Words.{
  u64_max, saturating_add32, saturating_mul64, checked_shl64, unwrap_or, from_secs, as_secs,
  duration_since,
}

pub data WindowedDecision : Type 0 where
  allow : WindowedDecision
  deny : ℕ → WindowedDecision

pub record WindowedBucket : Type 0 where
  pub count : ℕ
  pub window_start : ℕ
  pub last_update : ℕ
  pub consecutive_denies : ℕ

unfoldable pub new : ℕ → WindowedBucket
new now = record { count = 0; window_start = now; last_update = now; consecutive_denies = 0 }

refresh_window : WindowedBucket → ℕ → WindowedBucket
refresh_window b now = record b {
  count = 0;
  consecutive_denies = 0;
  window_start = now;
  last_update = now;
}

-- the limits that the caller passes to `check`
pub record Limits : Type 0 where
  pub max_count : ℕ
  pub window : ℕ
  pub backoff_after : ℕ
  pub max_backoff : ℕ

-- the wait that a deny reports, from the whole seconds left in the window and the deny streak
pub retry_after : Limits → WindowedBucket → ℕ → ℕ
retry_after l b now =
    let elapsed = duration_since now b.window_start in
    let remaining = l.window - elapsed in
    let base = max (as_secs remaining) 1 in
    let exp_factor = b.consecutive_denies - (l.backoff_after - 1) in
    let multiplier = unwrap_or (checked_shl64 1 (min exp_factor 20)) u64_max in
    let inflated = saturating_mul64 base multiplier in
    from_secs (min inflated (as_secs l.max_backoff))

-- the bucket once a window that has run out is refreshed
current : Limits → WindowedBucket → ℕ → WindowedBucket
unfolding refresh_window
current l b now =
    if leb l.window (duration_since now b.window_start) then refresh_window b now else b

spend : Limits → WindowedBucket → ℕ → WindowedBucket × WindowedDecision
spend l b now =
    if leb l.max_count b.count
    then (
      record b { consecutive_denies = saturating_add32 b.consecutive_denies 1; last_update = now },
      deny (retry_after l b now),
    )
    else (
      record b {
        count = min (saturating_add32 b.count 1) l.max_count;
        consecutive_denies = 0;
        last_update = now;
      },
      allow,
    )

unfoldable pub check : Limits → WindowedBucket → ℕ → WindowedBucket × WindowedDecision
unfolding current spend
check l b now = spend l (current l b now) now

unfoldable pub bump_deny : WindowedBucket → ℕ → WindowedBucket
bump_deny b now = record b {
  consecutive_denies = saturating_add32 b.consecutive_denies 1;
  last_update = now;
}
