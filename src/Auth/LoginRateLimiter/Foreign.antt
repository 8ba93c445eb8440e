-- ===== src/Auth/LoginRateLimiter/Foreign.antt =====
-- What an attempt leaves of the buckets of other keys than its own.
use nagent.Prelude.{ℕ, ◌≡◌, refl, ◌∙◌, false, Option-cases, Bool-cases, inl, inr, ap, ltb→le, ltb}
use mathlib.Core.Path.{subst₂}
use nagent.Prelude.Text.{Text}
use nagent.Prelude.Words.{duration_since}
use nagent.Collections.{DashMap}
use nagent.Net.{IpAddr, is_loopback}
use nagent.Support.Windowed.{WindowedBucket}
use nagent.Support.Windowed.Allowance.{Faded}
use nagent.Support.WindowedMap
use nagent.Support.WindowedMap.{WindowedBucketMap, sweep_idle}
use nagent.Support.WindowedMap.Keys.{get-check, get-bump_deny}
use nagent.Auth.LoginRateLimiter.{
  Stores, LoginRateLimiter, check, attempt, consult, swept, sweep_due, sweep_idle_buckets,
  normalise_email,
}
use nagent.Auth.LoginRateLimiter.Decisions.{sweep_due-SameBuckets}
use nagent.Auth.LoginRateLimiter.Entries.{email_entry, ip_entry}

sweep_idle-Faded :
    {K : Type 0} {d : DashMap K WindowedBucket} (m : WindowedBucketMap d) (t window : ℕ) (k : K)
    → Faded window t (d.get m.buckets k) (d.get (sweep_idle m t window).0.buckets k)
unfolding sweep_idle
sweep_idle-Faded {K} {d} m t window k = elim (Option-cases (d.get m.buckets k)) [
  | inl missing ↦ rw (d.get-retain m.buckets _ k, missing) (inl refl)
  | inr (b, found) ↦
      rw (d.get-retain m.buckets _ k, found)
        (elim (Bool-cases (ltb (duration_since t b.window_start) window)) [
          | inl live ↦ rw live (inl refl)
          | inr over ↦ rw over (inr (refl, (b, refl, ltb→le _ _ over)))
        ])
]

module _ {s : Stores} (rl : LoginRateLimiter s) (t : ℕ) where
  swept-Faded_ip :
      (k : IpAddr) → Faded rl.ip_limits.window t (ip_entry rl k) (ip_entry (swept rl t) k)
  unfolding swept sweep_idle_buckets
  swept-Faded_ip k =
      let same = sweep_due-SameBuckets rl in
      let rl' = (sweep_due rl).0 in
      elim (Bool-cases (sweep_due rl).1) [
        | inl due ↦ rw due (
            subst₂
              (λ x w.
                Faded w t (s.ips.get x k)
                  (s.ips.get (sweep_idle rl'.ip_buckets t rl'.ip_limits.window).0.buckets k))
              same.ips (ap (λ l. l.window) same.ip_limits)
              (sweep_idle-Faded rl'.ip_buckets t rl'.ip_limits.window k))
        | inr not_due ↦ rw not_due (inl (ap (λ x. s.ips.get x k) same.ips))
      ]

  swept-Faded_email :
      (k : Text) → Faded rl.email_limits.window t (email_entry rl k) (email_entry (swept rl t) k)
  unfolding swept sweep_idle_buckets
  swept-Faded_email k =
      let same = sweep_due-SameBuckets rl in
      let rl' = (sweep_due rl).0 in
      elim (Bool-cases (sweep_due rl).1) [
        | inl due ↦ rw due (
            subst₂
              (λ x w.
                Faded w t (s.emails.get x k) (
                  s.emails.get (sweep_idle rl'.email_buckets t rl'.email_limits.window).0.buckets
                    k))
              same.emails (ap (λ l. l.window) same.email_limits)
              (sweep_idle-Faded rl'.email_buckets t rl'.email_limits.window k))
        | inr not_due ↦ rw not_due (inl (ap (λ x. s.emails.get x k) same.emails))
      ]

module _ {s : Stores} (rl : LoginRateLimiter s) (e : Text) (a : IpAddr) (now : ℕ) where
  ip_entry-attempt_other :
      (k : IpAddr) → s.ips.key_eq a k ≡ false → ip_entry (attempt rl e a now).0 k ≡ ip_entry rl k
  unfolding attempt
  ip_entry-attempt_other k other =
      let checked = get-check rl.ip_buckets a rl.ip_limits now k in
      let m = (WindowedMap.check rl.ip_buckets a rl.ip_limits now).0 in
      elim (Option-cases (consult rl e a now).1) [
        | inl passed ↦ rw (passed, attempt) (checked ∙ rw other refl)
        | inr (d, denied) ↦
            rw (denied, attempt) (get-bump_deny m a now k ∙ rw other (checked ∙ rw other refl))
      ]

  email_entry-attempt_other :
      (k : Text)
      → s.emails.key_eq e k ≡ false
      → email_entry (attempt rl e a now).0 k ≡ email_entry rl k
  unfolding attempt
  email_entry-attempt_other k other =
      let checked = get-check rl.email_buckets e rl.email_limits now k in
      let m = (WindowedMap.check rl.email_buckets e rl.email_limits now).0 in
      elim (Option-cases (consult rl e a now).1) [
        | inl passed ↦ rw (passed, attempt) (checked ∙ rw other refl)
        | inr (d, denied) ↦
            rw (denied, attempt) (get-bump_deny m e now k ∙ rw other (checked ∙ rw other refl))
      ]

module _ {s : Stores} (rl : LoginRateLimiter s) (address : Text) (a : IpAddr)
    (swept_at now : ℕ) where
  -- Of an address that does not attempt, a check keeps the bucket unless a sweep finds it idle.
  pub ip_entry-check_other :
      (k : IpAddr)
      → s.ips.key_eq a k ≡ false
      → Faded rl.ip_limits.window swept_at
          (ip_entry rl k)
          (ip_entry (check rl address a swept_at now).0 k)
  unfolding check
  ip_entry-check_other k other = elim (Bool-cases (is_loopback a)) [
    | inl near ↦ rw near (inl refl)
    | inr remote ↦
        rw
          (
            remote,
            ip_entry-attempt_other (swept rl swept_at) (normalise_email address) a now k other,
          )
          (swept-Faded_ip rl swept_at k)
  ]

  -- Of an email that nobody attempts, a check keeps the bucket unless a sweep finds it idle.
  pub email_entry-check_other :
      (k : Text)
      → s.emails.key_eq (normalise_email address) k ≡ false
      → Faded rl.email_limits.window swept_at
          (email_entry rl k)
          (email_entry (check rl address a swept_at now).0 k)
  unfolding check
  email_entry-check_other k other = elim (Bool-cases (is_loopback a)) [
    | inl near ↦ rw near (inl refl)
    | inr remote ↦
        rw
          (
            remote,
            email_entry-attempt_other (swept rl swept_at) (normalise_email address) a now k other,
          )
          (swept-Faded_email rl swept_at k)
  ]
