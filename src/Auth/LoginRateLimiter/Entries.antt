-- ===== src/Auth/LoginRateLimiter/Entries.antt =====
-- What an attempt leaves of the buckets of its keys.
use nagent.Prelude.{
  ℕ, ◌≤◌, ◌≡◌, refl, ◌∙◌, ◌⊎◌, false, Option, some, Option-cases, Bool-cases, inl, inr,
}
use nagent.Prelude.Text.{Text}
use nagent.Net.{IpAddr, is_loopback}
use nagent.Support.Windowed
use nagent.Support.Windowed.{WindowedBucket}
use nagent.Support.WindowedMap
use nagent.Support.WindowedMap.Keys.{get-check_self, get-bump_deny_self}
use nagent.Auth.LoginRateLimiter.{
  Stores, LoginRateLimiter, check, attempt, consult, swept, sweep_due, sweep_idle_buckets,
  normalise_email,
}
use nagent.Auth.LoginRateLimiter.Decisions.{
  HasWindows, sweep_due-SameBuckets, email_verdict, ip_verdict, email_verdict-swept,
  ip_verdict-swept,
}

-- an entry that holds the bucket `b`, or `b` with one more deny on its streak
abbrev pub Holds : Option WindowedBucket → WindowedBucket → ℕ → Type 0
Holds o b now = (o ≡ some b) ⊎ (o ≡ some (Windowed.bump_deny b now))

abbrev pub email_entry : {s : Stores} → LoginRateLimiter s → Text → Option WindowedBucket
email_entry {s} rl e = s.emails.get rl.email_buckets.buckets e

abbrev pub ip_entry : {s : Stores} → LoginRateLimiter s → IpAddr → Option WindowedBucket
ip_entry {s} rl a = s.ips.get rl.ip_buckets.buckets a

module _ {s : Stores} (rl : LoginRateLimiter s) (e : Text) (a : IpAddr) (now : ℕ) where
  ip_entry-attempt : Holds (ip_entry (attempt rl e a now).0 a) (ip_verdict rl a now).0 now
  unfolding attempt
  ip_entry-attempt =
      let held = get-check_self rl.ip_buckets a rl.ip_limits now in
      elim (Option-cases (consult rl e a now).1) [
        | inl passed ↦ inl (rw (passed, attempt) held)
        | inr (d, denied) ↦ inr (
            rw (denied, attempt)
              (get-bump_deny_self (WindowedMap.check rl.ip_buckets a rl.ip_limits now).0 a now _
                held))
      ]

  email_entry-attempt : Holds (email_entry (attempt rl e a now).0 e) (email_verdict rl e now).0 now
  unfolding attempt
  email_entry-attempt =
      let held = get-check_self rl.email_buckets e rl.email_limits now in
      elim (Option-cases (consult rl e a now).1) [
        | inl passed ↦ inl (rw (passed, attempt) held)
        | inr (d, denied) ↦ inr (
            rw (denied, attempt)
              (get-bump_deny_self (WindowedMap.check rl.email_buckets e rl.email_limits now).0 e now
                _ held))
      ]

-- The limits of a limiter never change.
pub record SameLimits {s : Stores} (b a : LoginRateLimiter s) : Type 0 where
  pub pair_limits : b.pair_limits ≡ a.pair_limits
  pub email_limits : b.email_limits ≡ a.email_limits
  pub ip_limits : b.ip_limits ≡ a.ip_limits

swept-SameLimits : {s : Stores} (rl : LoginRateLimiter s) (t : ℕ) → SameLimits (swept rl t) rl
unfolding swept sweep_idle_buckets
swept-SameLimits rl t =
    let same = sweep_due-SameBuckets rl in
    elim (Bool-cases (sweep_due rl).1) [
      | inl due ↦ rw due (record {
        pair_limits = same.pair_limits;
        email_limits = same.email_limits;
        ip_limits = same.ip_limits;
      })
      | inr not_due ↦ rw not_due (record {
        pair_limits = same.pair_limits;
        email_limits = same.email_limits;
        ip_limits = same.ip_limits;
      })
    ]

attempt-SameLimits :
    {s : Stores} (rl : LoginRateLimiter s) (e : Text) (a : IpAddr) (now : ℕ)
    → SameLimits (attempt rl e a now).0 rl
unfolding attempt
attempt-SameLimits rl e a now = elim (Option-cases (consult rl e a now).1) [
  | inl passed ↦
      rw (passed, attempt) (record { pair_limits = refl; email_limits = refl; ip_limits = refl })
  | inr (d, denied) ↦
      rw (denied, attempt) (record { pair_limits = refl; email_limits = refl; ip_limits = refl })
]

module _ {s : Stores} (rl : LoginRateLimiter s) (w : HasWindows rl) (address : Text) (a : IpAddr)
    (swept_at now : ℕ) (le : swept_at ≤ now) (remote : is_loopback a ≡ false) where
  -- The limits of a limiter stay what they were.
  pub check-SameLimits : SameLimits (check rl address a swept_at now).0 rl
  unfolding check
  check-SameLimits =
      let after = attempt-SameLimits (swept rl swept_at) (normalise_email address) a now in
      let before = swept-SameLimits rl swept_at in
      rw remote (record {
        pair_limits = after.pair_limits ∙ before.pair_limits;
        email_limits = after.email_limits ∙ before.email_limits;
        ip_limits = after.ip_limits ∙ before.ip_limits;
      })

  pub ip_entry-check :
      Holds (ip_entry (check rl address a swept_at now).0 a) (ip_verdict rl a now).0 now
  unfolding check
  ip_entry-check =
      rw (remote, ← ip_verdict-swept rl w swept_at now le a)
        (ip_entry-attempt (swept rl swept_at) (normalise_email address) a now)

  pub email_entry-check :
      let e = normalise_email address in
      Holds (email_entry (check rl address a swept_at now).0 e) (email_verdict rl e now).0 now
  unfolding check
  email_entry-check =
      let e = normalise_email address in
      rw (remote, ← email_verdict-swept rl w swept_at now le e)
        (email_entry-attempt (swept rl swept_at) e a now)
