-- ===== src/Auth/LoginRateLimiter/Bounds.antt =====
-- The bound on the attempts of an address.
use nagent.Prelude.{
  ℕ, ◌+◌, ◌*◌, ◌≤◌, ◌<◌, ◌≡◌, ◌↔◌, refl, ap, sym, ◌∙◌, subst, Bool, true, false, List, [], ◌∷◌,
  Option, none, some, arith, All, if◌then◌else◌, Bool-cases, inl, inr,
}
use nagent.Prelude.Text.{Text}
use nagent.Net.{IpAddr, is_loopback}
use nagent.Support.Windowed.{WindowedBucket, Limits}
use nagent.Support.Windowed.Allowance.{left, IsValidOption, Faded, Faded-left}
use nagent.Auth.LoginRateLimiter.{
  Stores, LoginRateLimiter, LoginRateLimitDecision, allow, check, reset,
}
use nagent.Auth.LoginRateLimiter.Decisions.{HasWindows}
use nagent.Auth.LoginRateLimiter.Entries.{ip_entry, check-SameLimits}
use nagent.Auth.LoginRateLimiter.Foreign.{ip_entry-check_other}
use nagent.Auth.LoginRateLimiter.Budget.{
  LoginAttempt, LoginStep, tries, succeeds, let_in, admitted, IsWithin, ip_step_at,
  check-HasWindows,
}

pub left-le :
    (l : Limits) (start : ℕ) (o : Option WindowedBucket) → left l start o ≤ 2 * l.max_count
left-le l start none = omega arith
left-le l start (some b) = ground arith

pub check-loopback :
    {s : Stores} (rl : LoginRateLimiter s) (address : Text) (a : IpAddr) (swept_at now : ℕ)
    → is_loopback a ≡ true
    → check rl address a swept_at now ≡ (rl, allow)
unfolding check
check-loopback rl address a swept_at now near = rw near refl

not_loopback_key :
    {key_eq : IpAddr → IpAddr → Bool}
    → ((j k : IpAddr) → (key_eq j k ≡ true) ↔ (j ≡ k))
    → (a k : IpAddr) → is_loopback a ≡ true
    → is_loopback k ≡ false
    → key_eq a k ≡ false
not_loopback_key {key_eq} iff a k near far = elim (Bool-cases (key_eq a k)) [
  | inl same ↦ absurd (ground (arith, sym near ∙ ap is_loopback ((iff a k).0 same) ∙ far))
  | inr other ↦ other
]

-- an attempt of a host
abbrev pub from_host : Stores → IpAddr → LoginAttempt → Bool
from_host s k x = s.ips.key_eq x.addr k

module _ {s : Stores} (start : ℕ) (l : Limits) (k : IpAddr) where
  record IpReady (rl : LoginRateLimiter s) : Type 0 where
    limits_are : rl.ip_limits ≡ l
    windows : HasWindows rl
    valid : IsValidOption l (ip_entry rl k)

  -- an attempt takes what it lets in out of what is left
  abbrev IpTakes :
      LoginRateLimiter s → LoginAttempt → LoginRateLimiter s × LoginRateLimitDecision → Type 0
  IpTakes rl x (rl', d) =
      IpReady rl'
      × ((if from_host s k x then let_in d else 0) + left l start (ip_entry rl' k)
          ≤ left l start (ip_entry rl k))

  ip_try :
      (rl : LoginRateLimiter s) (x : LoginAttempt)
      → is_loopback k ≡ false
      → IpReady rl
      → IsWithin start l.window (tries x)
      → IpTakes rl x (check rl x.address x.addr x.swept_at x.now)
  ip_try rl x far ready (from, le, until) = elim (Bool-cases (is_loopback x.addr)) [
    | inl near ↦
        let other : from_host s k x ≡ false = not_loopback_key s.ips.key_eq_iff x.addr k near far in
        rw (check-loopback rl x.address x.addr x.swept_at x.now near, other) (ready, omega arith)
    | inr remote ↦
        let same = check-SameLimits rl ready.windows x.address x.addr x.swept_at x.now le remote in
        let limits_are = same.ip_limits ∙ ready.limits_are in
        let windows =
          check-HasWindows rl ready.windows x.address x.addr x.swept_at x.now le remote in
        elim (Bool-cases (from_host s k x)) [
          | inl mine ↦
              let (valid, taken) =
                ip_step_at rl ready.windows x.address x.addr x.swept_at x.now le remote start
                  ((s.ips.key_eq_iff x.addr k).0 mine) ready.limits_are (omega (arith, from, le))
                  until ready.valid in
              (record { limits_are = limits_are; windows = windows; valid = valid }, rw mine taken)
          | inr other ↦
              let (valid, le_left) =
                Faded-left l start x.swept_at _ _
                  (subst (λ (m : Limits). 0 < m.window) ready.limits_are ready.windows.ip_window)
                  (subst
                    (λ (m : Limits).
                      Faded m.window x.swept_at (ip_entry rl k)
                        (ip_entry (check rl x.address x.addr x.swept_at x.now).0 k))
                    ready.limits_are
                    (ip_entry-check_other rl x.address x.addr x.swept_at x.now k other))
                  (omega (arith, le, until)) ready.valid in
              (
                record { limits_are = limits_are; windows = windows; valid = valid },
                rw other (omega (arith, le_left)),
              )
        ]
  ]

  ip_reset :
      (rl : LoginRateLimiter s) (address : Text) (addr : IpAddr)
      → IpReady rl
      → IpReady (reset rl address addr) × (ip_entry (reset rl address addr) k ≡ ip_entry rl k)
  unfolding reset
  ip_reset rl address addr ready = (
    record {
      limits_are = ready.limits_are;
      windows = record {
        pair_window = ready.windows.pair_window;
        email_window = ready.windows.email_window;
        ip_window = ready.windows.ip_window;
      };
      valid = ready.valid;
    },
    refl,
  )

  ip_admitted-le-left :
      (rl : LoginRateLimiter s) (xs : List LoginStep)
      → is_loopback k ≡ false
      → IpReady rl
      → All (IsWithin start l.window) xs
      → admitted (from_host s k) rl xs ≤ left l start (ip_entry rl k)
  unfolding admitted
  ip_admitted-le-left rl [] far ready h = omega arith
  ip_admitted-le-left rl (tries x ∷ xs) far ready (here, later) =
      let rl' = (check rl x.address x.addr x.swept_at x.now).0 in
      let (ready', taken) = ip_try rl x far ready here in
      omega (arith, taken, ip_admitted-le-left rl' xs far ready' later)
  ip_admitted-le-left rl (succeeds address addr ∷ xs) far ready (here, later) =
      let rl' = reset rl address addr in
      let (ready', same) = ip_reset rl address addr ready in
      subst (λ o. admitted (from_host s k) rl' xs ≤ left l start o) same
        (ip_admitted-le-left rl' xs far ready' later)

-- From one remote address no more than twice the per-address cap get through in any stretch of time
-- as long as the per-address window, whatever emails they try, whatever other addresses attempt in
-- between, and whatever logins succeed and sweeps run. (The windows are not empty, the count of the
-- address is within its cap, which fits 32 bits, at the start, and no sweep reads a later clock than
-- its attempt; all that happens to the limiter lies in the stretch.)
pub attempts_per_ip :
    {s : Stores} (rl : LoginRateLimiter s) (start : ℕ) (k : IpAddr) (xs : List LoginStep)
    → HasWindows rl
    → IsValidOption rl.ip_limits (ip_entry rl k)
    → is_loopback k ≡ false
    → All (IsWithin start rl.ip_limits.window) xs
    → admitted (from_host s k) rl xs ≤ 2 * rl.ip_limits.max_count
attempts_per_ip {s} rl start k xs w v far h = omega (
  arith,
  ip_admitted-le-left start rl.ip_limits k rl xs far
      (record { limits_are = refl; windows = w; valid = v }) h,
  left-le rl.ip_limits start (ip_entry rl k),
)
