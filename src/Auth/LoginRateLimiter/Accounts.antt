-- ===== src/Auth/LoginRateLimiter/Accounts.antt =====
-- The bound on the attempts at an account.
use nagent.Prelude.{
  ℕ, ◌+◌, ◌*◌, ◌≤◌, ◌<◌, ◌≡◌, refl, ◌∙◌, subst, Bool, false, not, ◌&&◌, List, [], ◌∷◌, arith, All,
  if◌then◌else◌, Bool-cases, inl, inr,
}
use nagent.Prelude.Text.{Text}
use nagent.Net.{IpAddr, is_loopback}
use nagent.Support.Windowed.{Limits}
use nagent.Support.Windowed.Allowance.{left, IsValidOption, Faded, Faded-left}
use nagent.Auth.LoginRateLimiter.{
  Stores, LoginRateLimiter, LoginRateLimitDecision, check, reset, normalise_email,
}
use nagent.Auth.LoginRateLimiter.Decisions.{HasWindows}
use nagent.Auth.LoginRateLimiter.Entries.{email_entry, check-SameLimits}
use nagent.Auth.LoginRateLimiter.Foreign.{email_entry-check_other}
use nagent.Auth.LoginRateLimiter.Reset.{entries-reset}
use nagent.Auth.LoginRateLimiter.Budget.{
  LoginAttempt, LoginStep, tries, succeeds, let_in, admitted, IsWithin, email_step_at,
  check-HasWindows,
}
use nagent.Auth.LoginRateLimiter.Bounds.{left-le, check-loopback}

-- an attempt at an account from a remote address
abbrev pub at_account : Stores → Text → LoginAttempt → Bool
at_account s k x = not (is_loopback x.addr) && s.emails.key_eq (normalise_email x.address) k

-- it is not this account that logs in
abbrev pub IsOther : Stores → Text → LoginStep → Type 0
IsOther s k (tries x) = Unit
IsOther s k (succeeds address addr) = s.emails.key_eq (normalise_email address) k ≡ false

module _ {s : Stores} (start : ℕ) (l : Limits) (k : Text) where
  record EmailReady (rl : LoginRateLimiter s) : Type 0 where
    limits_are : rl.email_limits ≡ l
    windows : HasWindows rl
    valid : IsValidOption l (email_entry rl k)

  -- an attempt takes what it lets in out of what is left
  abbrev EmailTakes :
      LoginRateLimiter s → LoginAttempt → LoginRateLimiter s × LoginRateLimitDecision → Type 0
  EmailTakes rl x (rl', d) =
      EmailReady rl'
      × ((if at_account s k x then let_in d else 0) + left l start (email_entry rl' k)
          ≤ left l start (email_entry rl k))

  email_try :
      (rl : LoginRateLimiter s) (x : LoginAttempt)
      → EmailReady rl
      → IsWithin start l.window (tries x)
      → EmailTakes rl x (check rl x.address x.addr x.swept_at x.now)
  email_try rl x ready (from, le, until) = elim (Bool-cases (is_loopback x.addr)) [
    | inl near ↦
        rw (check-loopback rl x.address x.addr x.swept_at x.now near, near) (ready, omega arith)
    | inr remote ↦
        let same = check-SameLimits rl ready.windows x.address x.addr x.swept_at x.now le remote in
        let limits_are = same.email_limits ∙ ready.limits_are in
        let windows =
          check-HasWindows rl ready.windows x.address x.addr x.swept_at x.now le remote in
        elim (Bool-cases (s.emails.key_eq (normalise_email x.address) k)) [
          | inl mine ↦
              let (valid, taken) =
                email_step_at rl ready.windows x.address x.addr x.swept_at x.now le remote start
                  ((s.emails.key_eq_iff (normalise_email x.address) k).0 mine) ready.limits_are
                  (omega (arith, from, le)) until ready.valid in
              (
                record { limits_are = limits_are; windows = windows; valid = valid },
                rw (remote, mine) taken,
              )
          | inr other ↦
              let (valid, le_left) =
                Faded-left l start x.swept_at _ _
                  (subst (λ (m : Limits). 0 < m.window) ready.limits_are ready.windows.email_window)
                  (subst
                    (λ (m : Limits).
                      Faded m.window x.swept_at (email_entry rl k)
                        (email_entry (check rl x.address x.addr x.swept_at x.now).0 k))
                    ready.limits_are
                    (email_entry-check_other rl x.address x.addr x.swept_at x.now k other))
                  (omega (arith, le, until)) ready.valid in
              (
                record { limits_are = limits_are; windows = windows; valid = valid },
                rw (remote, other) (omega (arith, le_left)),
              )
        ]
  ]

  email_reset :
      (rl : LoginRateLimiter s) (address : Text) (addr : IpAddr)
      → IsOther s k (succeeds address addr)
      → EmailReady rl
      → EmailReady (reset rl address addr)
        × (email_entry (reset rl address addr) k ≡ email_entry rl k)
  unfolding reset
  email_reset rl address addr other ready =
      let same = (entries-reset rl address addr k addr).0 ∙ rw other refl in
      (
        record {
          limits_are = ready.limits_are;
          windows = record {
            pair_window = ready.windows.pair_window;
            email_window = ready.windows.email_window;
            ip_window = ready.windows.ip_window;
          };
          valid = rw same ready.valid;
        },
        same,
      )

  email_admitted-le-left :
      (rl : LoginRateLimiter s) (xs : List LoginStep)
      → EmailReady rl
      → All (λ x. IsWithin start l.window x × IsOther s k x) xs
      → admitted (at_account s k) rl xs ≤ left l start (email_entry rl k)
  unfolding admitted
  email_admitted-le-left rl [] ready h = omega arith
  email_admitted-le-left rl (tries x ∷ xs) ready (here, later) =
      let rl' = (check rl x.address x.addr x.swept_at x.now).0 in
      let (ready', taken) = email_try rl x ready here.0 in
      omega (arith, taken, email_admitted-le-left rl' xs ready' later)
  email_admitted-le-left rl (succeeds address addr ∷ xs) ready (here, later) =
      let rl' = reset rl address addr in
      let (ready', same) = email_reset rl address addr here.1 ready in
      subst (λ o. admitted (at_account s k) rl' xs ≤ left l start o) same
        (email_admitted-le-left rl' xs ready' later)

-- For one email no more than twice the per-email cap get through in any stretch of time as long as
-- the per-email window, from whatever remote addresses they come, under whatever spelling that
-- normalises to the email, whatever other emails are tried and log in in between. (No successful login
-- of this email clears its buckets in between. The windows are not empty, the count of the email
-- is within its cap, which fits 32 bits, at the start, and no sweep reads a later clock than its
-- attempt; all that happens to the limiter lies in the stretch.)
pub attempts_per_email :
    {s : Stores} (rl : LoginRateLimiter s) (start : ℕ) (k : Text) (xs : List LoginStep)
    → HasWindows rl
    → IsValidOption rl.email_limits (email_entry rl k)
    → All (λ x. IsWithin start rl.email_limits.window x × IsOther s k x) xs
    → admitted (at_account s k) rl xs ≤ 2 * rl.email_limits.max_count
attempts_per_email {s} rl start k xs w v h = omega (
  arith,
  email_admitted-le-left start rl.email_limits k rl xs
      (record { limits_are = refl; windows = w; valid = v }) h,
  left-le rl.email_limits start (email_entry rl k),
)
