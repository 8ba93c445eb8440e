-- ===== src/Auth/LoginRateLimiter/Budget.antt =====
-- How many login attempts an address, or an email, gets through.
use nagent.Prelude.{
  ℕ, ◌+◌, ◌≤◌, ◌<◌, ◌≡◌, refl, Bool, false, if◌then◌else◌, List, [], ◌∷◌, Option, some, arith, inl,
  inr,
}
use mathlib.Core.Path.{subst₂}
use nagent.Prelude.Text.{Text}
use nagent.Net.{IpAddr, is_loopback}
use nagent.Support.Windowed.{WindowedBucket, Limits}
use nagent.Support.Windowed.Budget.{IsValid, passes, check-IsValid}
use nagent.Support.Windowed.Allowance.{
  left, IsValidOption, left-check, left-bump_deny, bump_deny-IsValid, unwrap_or-new-IsValid,
}
use nagent.Support.WindowedMap.{bucket_or_new}
use nagent.Auth.LoginRateLimiter.{
  Stores, LoginRateLimiter, LoginRateLimitDecision, allow, deny, check, reset, normalise_email,
}
use nagent.Auth.LoginRateLimiter.Decisions.{HasWindows, email_verdict, ip_verdict}
use nagent.Auth.LoginRateLimiter.Outcome.{check-Amounts}
use nagent.Auth.LoginRateLimiter.Entries.{
  Holds, email_entry, ip_entry, check-SameLimits, ip_entry-check, email_entry-check,
}

pub record LoginAttempt : Type 0 where
  pub address : Text
  pub addr : IpAddr
  pub swept_at : ℕ
  pub now : ℕ

-- 1 for an attempt that goes through
abbrev pub let_in : LoginRateLimitDecision → ℕ
let_in allow = 1
let_in (deny _ _) = 0

-- what happens to a limiter: an attempt, or the `reset` after a login that succeeded
pub data LoginStep : Type 0 where
  tries : LoginAttempt → LoginStep
  succeeds : Text → IpAddr → LoginStep

-- the attempts of a run that go through, of those that `mine` tells
unfoldable pub admitted :
    {s : Stores} → (LoginAttempt → Bool) → LoginRateLimiter s → List LoginStep → ℕ
admitted mine rl [] = 0
admitted mine rl (tries x ∷ xs) =
    let (rl', d) = check rl x.address x.addr x.swept_at x.now in
    (if mine x then let_in d else 0) + admitted mine rl' xs
admitted mine rl (succeeds address addr ∷ xs) = admitted mine (reset rl address addr) xs

-- a step in the stretch of time that begins at `start`
abbrev pub IsWithin : ℕ → ℕ → LoginStep → Type 0
IsWithin start window (tries x) =
    (start ≤ x.swept_at) × (x.swept_at ≤ x.now) × (x.now < start + window)
IsWithin start window (succeeds _ _) = Unit

-- an entry after `Holds` is as valid as the bucket, and has as much left
Holds-left :
    (l : Limits) (start : ℕ) (o : Option WindowedBucket) (b : WindowedBucket) (now : ℕ)
    → Holds o b now
    → IsValid l b
    → IsValidOption l o × (left l start o ≡ left l start (some b))
Holds-left l start o b now (inl e) v = rw e (v, refl)
Holds-left l start o b now (inr e) v =
    rw e (bump_deny-IsValid l now b v, left-bump_deny l start now b)

module _ {s : Stores} (rl : LoginRateLimiter s) (w : HasWindows rl) (address : Text) (a : IpAddr)
    (swept_at now : ℕ) (le : swept_at ≤ now) (remote : is_loopback a ≡ false) where
  let_in-le-ip : let_in (check rl address a swept_at now).1 ≤ passes (ip_verdict rl a now).1
  let_in-le-ip = ground (arith, check-Amounts rl address a swept_at now w le remote)

  let_in-le-email :
      let_in (check rl address a swept_at now).1
      ≤ passes (email_verdict rl (normalise_email address) now).1
  let_in-le-email = ground (arith, check-Amounts rl address a swept_at now w le remote)

  pub check-HasWindows : HasWindows (check rl address a swept_at now).0
  check-HasWindows =
      let same = check-SameLimits rl w address a swept_at now le remote in
      record {
        pair_window = rw same.pair_limits w.pair_window;
        email_window = rw same.email_limits w.email_window;
        ip_window = rw same.ip_limits w.ip_window;
      }

  ip_step :
      (start : ℕ)
      → start ≤ now
      → now < start + rl.ip_limits.window
      → IsValidOption rl.ip_limits (ip_entry rl a)
      → IsValidOption rl.ip_limits (ip_entry (check rl address a swept_at now).0 a)
        × (let_in (check rl address a swept_at now).1
              + left rl.ip_limits start (ip_entry (check rl address a swept_at now).0 a)
            ≤ left rl.ip_limits start (ip_entry rl a))
  unfolding bucket_or_new
  ip_step start from until v =
      let l = rl.ip_limits in
      let valid = check-IsValid l _ now (unwrap_or-new-IsValid l (ip_entry rl a) now v) in
      let (v', same) =
        Holds-left l start _ _ now (ip_entry-check rl w address a swept_at now le remote) valid in
      (v', omega (arith, let_in-le-ip, left-check l start now (ip_entry rl a) v from until, same))

  email_step :
      (start : ℕ)
      → let e = normalise_email address in
        let rl' = (check rl address a swept_at now).0 in
        start ≤ now
        → now < start + rl.email_limits.window
        → IsValidOption rl.email_limits (email_entry rl e)
        → IsValidOption rl.email_limits (email_entry rl' e)
          × (let_in (check rl address a swept_at now).1
                + left rl.email_limits start (email_entry rl' e)
              ≤ left rl.email_limits start (email_entry rl e))
  unfolding bucket_or_new
  email_step start from until v =
      let l = rl.email_limits in
      let entry = email_entry rl (normalise_email address) in
      let valid = check-IsValid l _ now (unwrap_or-new-IsValid l entry now v) in
      let held = email_entry-check rl w address a swept_at now le remote in
      let (v', same) = Holds-left l start _ _ now held valid in
      (v', omega (arith, let_in-le-email, left-check l start now entry v from until, same))

  -- the same for a key and limits that are known to be these
  pub ip_step_at :
      (start : ℕ) {k : IpAddr} {l : Limits}
      → a ≡ k
      → rl.ip_limits ≡ l
      → let rl' = (check rl address a swept_at now).0 in
        start ≤ now
        → now < start + l.window
        → IsValidOption l (ip_entry rl k)
        → IsValidOption l (ip_entry rl' k)
          × (let_in (check rl address a swept_at now).1 + left l start (ip_entry rl' k)
              ≤ left l start (ip_entry rl k))
  ip_step_at start p q =
      subst₂
        (λ k l.
          let rl' = (check rl address a swept_at now).0 in
          start ≤ now
          → now < start + l.window
          → IsValidOption l (ip_entry rl k)
          → IsValidOption l (ip_entry rl' k)
            × (let_in (check rl address a swept_at now).1 + left l start (ip_entry rl' k)
                ≤ left l start (ip_entry rl k)))
        p q (ip_step start)

  -- the same for a key and limits that are known to be these
  pub email_step_at :
      (start : ℕ) {k : Text} {l : Limits}
      → normalise_email address ≡ k
      → rl.email_limits ≡ l
      → let rl' = (check rl address a swept_at now).0 in
        start ≤ now
        → now < start + l.window
        → IsValidOption l (email_entry rl k)
        → IsValidOption l (email_entry rl' k)
          × (let_in (check rl address a swept_at now).1 + left l start (email_entry rl' k)
              ≤ left l start (email_entry rl k))
  email_step_at start p q =
      subst₂
        (λ k l.
          let rl' = (check rl address a swept_at now).0 in
          start ≤ now
          → now < start + l.window
          → IsValidOption l (email_entry rl k)
          → IsValidOption l (email_entry rl' k)
            × (let_in (check rl address a swept_at now).1 + left l start (email_entry rl' k)
                ≤ left l start (email_entry rl k)))
        p q (email_step start)
