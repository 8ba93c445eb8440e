-- ===== src/Auth/LoginRateLimiter/Tests.antt =====
-- A limiter with the default policy, over association lists.
use native.Mathlib.Decide.{ℕ_discrete}
use nagent.Prelude.{◌≤◌, ◌≡◌, refl, List, [], ◌∷◌, some, arith, false}
use nagent.Prelude.Text.{Text, codes, trim, to_ascii_lowercase}
use nagent.Net.{IpAddr, v4, is_loopback, IpAddr-discrete}
use nagent.Collections.{discrete_map}
use nagent.Collections.Assoc.{lookup}
use nagent.Support.Windowed.{WindowedBucket}
use nagent.Support.WindowedMap
use nagent.Support.Windowed.Allowance.{IsValidOption}
use nagent.Auth.LoginRateLimiter.{
  Stores, LoginRateLimiter, with_policy, with_limits, default_policy, default_login_max_attempts,
  default_login_window, check, normalise_email,
}
use nagent.Auth.LoginRateLimiter.Decisions.{HasWindows, pair_verdict, email_verdict, ip_verdict}
use nagent.Auth.LoginRateLimiter.Outcome.{Amounts, reported, check-Amounts}
use nagent.Auth.LoginRateLimiter.Budget.{LoginStep, tries, succeeds, admitted}
use nagent.Auth.LoginRateLimiter.Bounds.{from_host, attempts_per_ip}
use nagent.Auth.LoginRateLimiter.Accounts.{at_account, attempts_per_email}
use nagent.Auth.LoginRateLimiter.Entries.{ip_entry, email_entry}

Text-discrete : Discrete Text
Text-discrete = hlevel ℕ_discrete

Pair-discrete : Discrete (Text × IpAddr)
Pair-discrete = hlevel (Text-discrete, IpAddr-discrete)

abbrev stores : Stores
stores = record {
  pairs = discrete_map Pair-discrete WindowedBucket;
  emails = discrete_map Text-discrete WindowedBucket;
  ips = discrete_map IpAddr-discrete WindowedBucket;
}

abbrev limiter : LoginRateLimiter stores
limiter = with_policy default_policy

abbrev attacker : IpAddr
attacker = v4 203 0 113 9

remote : is_loopback attacker ≡ false
unfolding is_loopback
remote = refl

limiter_windows : HasWindows limiter
unfolding with_policy
limiter_windows = omega arith

abbrev neighbour : IpAddr
neighbour = v4 203 0 113 10

-- two guesses, with a login of a neighbour in between
abbrev guesses : List LoginStep
guesses =
    tries (record { address = codes "a@x.org"; addr = attacker; swept_at = 1; now = 1 })
    ∷ tries (record { address = codes "b@x.org"; addr = neighbour; swept_at = 1; now = 2 })
    ∷ succeeds (codes "b@x.org") neighbour
    ∷ tries (record { address = codes " A@x.org"; addr = attacker; swept_at = 2; now = 3 })
    ∷ []

attacker_valid : IsValidOption limiter.ip_limits (ip_entry limiter attacker)
unfolding with_policy lookup WindowedMap.new WindowedMap.with_sweep_every
attacker_valid = omega arith

email_valid : IsValidOption limiter.email_limits (email_entry limiter (codes "a@x.org"))
unfolding with_policy lookup WindowedMap.new WindowedMap.with_sweep_every
email_valid = omega arith

attempts_per_ip_example : admitted (from_host stores attacker) limiter guesses ≤ 100
unfolding with_policy
attempts_per_ip_example =
    attempts_per_ip limiter 0 attacker guesses limiter_windows attacker_valid remote (
      (omega arith, omega arith, omega arith),
      (
        (omega arith, omega arith, omega arith),
        (tt, ((omega arith, omega arith, omega arith), tt)),
      ),
    )

attempts_per_email_example : admitted (at_account stores (codes "a@x.org")) limiter guesses ≤ 40
unfolding with_policy normalise_email trim to_ascii_lowercase Text-discrete ℕ_discrete
attempts_per_email_example =
    attempts_per_email limiter 0 (codes "a@x.org") guesses limiter_windows email_valid (
      ((omega arith, omega arith, omega arith), tt),
      (
        ((omega arith, omega arith, omega arith), tt),
        ((tt, refl), (((omega arith, omega arith, omega arith), tt), tt)),
      ),
    )

check-Amounts_example :
    Amounts
      (pair_verdict limiter (codes "a@x.org") attacker 3).1
      (email_verdict limiter (codes "a@x.org") 3).1
      (ip_verdict limiter attacker 3).1
      (reported (check limiter (codes " A@x.org") attacker 2 3).1)
unfolding normalise_email trim to_ascii_lowercase
check-Amounts_example =
    check-Amounts limiter (codes " A@x.org") attacker 2 3 limiter_windows (omega arith) remote

abbrev tired : WindowedBucket
tired = record { count = 50; window_start = 0; last_update = 0; consecutive_denies = 3 }

abbrev exhausted : LoginRateLimiter stores
exhausted = record limiter {
  ip_buckets = record limiter.ip_buckets {
    buckets = stores.ips.insert limiter.ip_buckets.buckets attacker tired;
  };
}

exhausted_entry : ip_entry exhausted attacker ≡ some tired
exhausted_entry =
    rw
      (
        stores.ips.get-insert limiter.ip_buckets.buckets attacker tired attacker,
        (stores.ips.key_eq_iff attacker attacker).1 refl,
      )
      refl

exhausted_windows : HasWindows exhausted
unfolding with_policy
exhausted_windows = omega arith

default_limits : with_limits {s = stores} default_login_max_attempts default_login_window ≡ limiter
unfolding with_limits with_policy
default_limits = refl
