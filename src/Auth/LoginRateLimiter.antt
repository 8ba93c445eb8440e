-- ===== src/Auth/LoginRateLimiter.antt =====
-- crates/nagent-server/src/auth/login_rate_limit.rs. Every call of `Instant::now` is an argument:
-- `check` takes one reading for its sweep and one for its decision. Windows are nanoseconds.
pub mod Decisions
pub mod Entries
pub mod Foreign
pub mod Budget
pub mod Bounds
pub mod Accounts
pub mod Streak
pub mod Outcome
pub mod Reset
mod Tests
use nagent.Prelude.{
  ℕ, ◌+◌, ◌*◌, ◌/◌, Bool, true, false, Option, none, some, max, ltb, if◌then◌else◌,
}
use nagent.Prelude.Words.{from_secs, as_secs}
use nagent.Prelude.Text.{Text, trim, to_ascii_lowercase}
use nagent.Net.{IpAddr, is_loopback}
use nagent.Collections.{DashMap}
use nagent.Support.Windowed.{WindowedBucket, WindowedDecision, Limits}
use nagent.Support.WindowedMap
use nagent.Support.WindowedMap.{WindowedBucketMap}

abbrev pub default_login_max_attempts : ℕ
default_login_max_attempts = 5

abbrev pub default_login_window : ℕ
default_login_window = from_secs (15 * 60)

abbrev pub default_login_per_email_max : ℕ
default_login_per_email_max = 20

abbrev pub default_login_per_email_backoff_after : ℕ
default_login_per_email_backoff_after = 5

abbrev pub default_login_per_ip_max : ℕ
default_login_per_ip_max = 50

abbrev pub default_login_per_ip_backoff_after : ℕ
default_login_per_ip_backoff_after = 10

abbrev pub max_login_backoff_secs : ℕ
max_login_backoff_secs = 3600

pub data BucketKind : Type 0 where
  pair email ip : BucketKind

pub data LoginRateLimitDecision : Type 0 where
  allow : LoginRateLimitDecision
  deny : ℕ → BucketKind → LoginRateLimitDecision

pub record LoginRateLimitPolicy : Type 0 where
  pub pair_max : ℕ
  pub pair_window : ℕ
  pub email_max : ℕ
  pub email_window : ℕ
  pub email_backoff_after : ℕ
  pub ip_max : ℕ
  pub ip_window : ℕ
  pub ip_backoff_after : ℕ

abbrev pub default_policy : LoginRateLimitPolicy
default_policy = record {
  pair_max = default_login_max_attempts;
  pair_window = default_login_window;
  email_max = default_login_per_email_max;
  email_window = default_login_window;
  email_backoff_after = default_login_per_email_backoff_after;
  ip_max = default_login_per_ip_max;
  ip_window = default_login_window;
  ip_backoff_after = default_login_per_ip_backoff_after;
}

-- the three `DashMap`s
pub record Stores : Type 1 where
  pub pairs : DashMap (Text × IpAddr) WindowedBucket
  pub emails : DashMap Text WindowedBucket
  pub ips : DashMap IpAddr WindowedBucket

pub record LoginRateLimiter (s : Stores) : Type 0 where
  pub pair_buckets : WindowedBucketMap s.pairs
  pub email_buckets : WindowedBucketMap s.emails
  pub ip_buckets : WindowedBucketMap s.ips
  pub pair_limits : Limits
  pub email_limits : Limits
  pub ip_limits : Limits

abbrev limits : ℕ → ℕ → ℕ → Limits
limits max_count window backoff_after = record {
  max_count = max_count;
  window = window;
  backoff_after = backoff_after;
  max_backoff = from_secs max_login_backoff_secs;
}

unfoldable pub normalise_email : Text → Text
normalise_email e = to_ascii_lowercase (trim e)

-- `longest` and the closure `push`
push : Option (ℕ × BucketKind) → ℕ → BucketKind → Option (ℕ × BucketKind)
push none retry kind = some (retry, kind)
push (some (cur, k)) retry kind = if ltb cur retry then some (retry, kind) else some (cur, k)

note_deny : Option (ℕ × BucketKind) → WindowedDecision → BucketKind → Option (ℕ × BucketKind)
unfolding push
note_deny longest WindowedDecision.allow kind = longest
note_deny longest (WindowedDecision.deny retry_after) kind = push longest (as_secs retry_after) kind

module _ {s : Stores} where
  unfoldable pub with_policy : LoginRateLimitPolicy → LoginRateLimiter s
  with_policy p = record {
    pair_buckets = WindowedMap.new s.pairs;
    email_buckets = WindowedMap.new s.emails;
    ip_buckets = WindowedMap.new s.ips;
    pair_limits = limits p.pair_max p.pair_window (max (p.pair_max / 5) 1);
    email_limits = limits p.email_max p.email_window p.email_backoff_after;
    ip_limits = limits p.ip_max p.ip_window p.ip_backoff_after;
  }

  unfoldable pub with_limits : ℕ → ℕ → LoginRateLimiter s
  unfolding with_policy
  with_limits pair_max pair_window =
      with_policy (record default_policy { pair_max = pair_max; pair_window = pair_window })

  unfoldable pub sweep_idle_buckets : LoginRateLimiter s → ℕ → LoginRateLimiter s
  sweep_idle_buckets rl now = record rl {
    pair_buckets = (WindowedMap.sweep_idle rl.pair_buckets now rl.pair_limits.window).0;
    email_buckets = (WindowedMap.sweep_idle rl.email_buckets now rl.email_limits.window).0;
    ip_buckets = (WindowedMap.sweep_idle rl.ip_buckets now rl.ip_limits.window).0;
  }

  -- the three gates behind `||`: a later clock ticks only if the earlier ones stay shut
  pub sweep_due : LoginRateLimiter s → LoginRateLimiter s × Bool
  sweep_due rl =
      let (p, first) = WindowedMap.should_sweep rl.pair_buckets in
      let (e, second) = WindowedMap.should_sweep rl.email_buckets in
      let (i, third) = WindowedMap.should_sweep rl.ip_buckets in
      if first
      then (record rl { pair_buckets = p }, true)
      else if second
      then (record rl { pair_buckets = p; email_buckets = e }, true)
      else (record rl { pair_buckets = p; email_buckets = e; ip_buckets = i }, third)

  pub swept : LoginRateLimiter s → ℕ → LoginRateLimiter s
  swept rl swept_at =
      let (rl', due) = sweep_due rl in if due then sweep_idle_buckets rl' swept_at else rl'

  -- the checks of the three families, and what the denied ones ask for
  pub consult :
      LoginRateLimiter s → Text → IpAddr → ℕ → LoginRateLimiter s × Option (ℕ × BucketKind)
  unfolding note_deny
  consult rl normalised addr now =
      let (p, dp) = WindowedMap.check rl.pair_buckets (normalised, addr) rl.pair_limits now in
      let (e, de) = WindowedMap.check rl.email_buckets normalised rl.email_limits now in
      let (i, di) = WindowedMap.check rl.ip_buckets addr rl.ip_limits now in
      (
        record rl { pair_buckets = p; email_buckets = e; ip_buckets = i },
        note_deny (note_deny (note_deny none dp pair) de email) di ip,
      )

  pub bump_all : LoginRateLimiter s → Text → IpAddr → ℕ → LoginRateLimiter s
  bump_all rl normalised addr now = record rl {
    pair_buckets = WindowedMap.bump_deny rl.pair_buckets (normalised, addr) now;
    email_buckets = WindowedMap.bump_deny rl.email_buckets normalised now;
    ip_buckets = WindowedMap.bump_deny rl.ip_buckets addr now;
  }

  -- the attempt of a remote address, after the sweep
  pub attempt : LoginRateLimiter s → Text → IpAddr → ℕ → LoginRateLimiter s × LoginRateLimitDecision
  unfolding consult bump_all
  attempt rl normalised addr now =
      let (rl', longest) = consult rl normalised addr now in
      elim longest [
        | none ↦ (rl', allow)
        | some (retry, kind) ↦ (bump_all rl' normalised addr now, deny retry kind)
      ]

  unfoldable pub check :
      LoginRateLimiter s → Text → IpAddr → ℕ → ℕ → LoginRateLimiter s × LoginRateLimitDecision
  unfolding swept attempt
  check rl address addr swept_at now =
      if is_loopback addr
      then (rl, allow)
      else attempt (swept rl swept_at) (normalise_email address) addr now

  unfoldable pub reset : LoginRateLimiter s → Text → IpAddr → LoginRateLimiter s
  reset rl address addr =
      let normalised = normalise_email address in
      record rl {
        pair_buckets = WindowedMap.reset rl.pair_buckets (normalised, addr);
        email_buckets = WindowedMap.reset rl.email_buckets normalised;
      }
