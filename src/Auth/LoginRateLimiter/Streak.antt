-- ===== src/Auth/LoginRateLimiter/Streak.antt =====
-- The deny streak after a refused attempt.
use nagent.Prelude.{
  ℕ, ◌+◌, ◌≤◌, ◌<◌, ◌≡◌, ◌≢◌, ap, sym, subst, ◌∙◌, false, some, arith, Option-cases, inl, inr,
}
use nagent.Prelude.Words.{u32_max, duration_since}
use nagent.Prelude.Text.{Text}
use nagent.Net.{IpAddr, is_loopback}
use nagent.Support.Windowed
use nagent.Support.Windowed.{WindowedBucket, WindowedDecision}
use nagent.Support.WindowedMap
use nagent.Support.WindowedMap.{bucket_or_new}
use nagent.Support.WindowedMap.Keys.{get-check_self, get-bump_deny_self}
use nagent.Auth.LoginRateLimiter.{
  Stores, LoginRateLimiter, LoginRateLimitDecision, allow, check, attempt, consult, swept,
  normalise_email,
}
use nagent.Auth.LoginRateLimiter.Decisions.{HasWindows, ip_verdict, ip_verdict-swept}
use nagent.Auth.LoginRateLimiter.Outcome.{Amounts, reported, check-Amounts}
use nagent.Auth.LoginRateLimiter.Entries.{ip_entry}

ip_entry-refused :
    {s : Stores} (rl : LoginRateLimiter s) (e : Text) (a : IpAddr) (now : ℕ)
    → (attempt rl e a now).1 ≢ allow
    → ip_entry (attempt rl e a now).0 a ≡ some (Windowed.bump_deny (ip_verdict rl a now).0 now)
unfolding attempt
ip_entry-refused rl e a now refused =
    let held = get-check_self rl.ip_buckets a rl.ip_limits now in
    elim (Option-cases (consult rl e a now).1) [
      | inl passed ↦ absurd (refused (rw (passed, attempt)))
      | inr (d, denied) ↦
          rw (denied, attempt)
            (get-bump_deny_self (WindowedMap.check rl.ip_buckets a rl.ip_limits now).0 a now _ held)
    ]

-- The streak of a bucket that is exhausted, after its own check and the bump that follows it.
streak_after :
    (l : Windowed.Limits) (b : WindowedBucket) (now : ℕ)
    → duration_since now b.window_start < l.window
    → l.max_count ≤ b.count
    → b.consecutive_denies + 2 ≤ u32_max
    → ((Windowed.check l b now).1 ≢ WindowedDecision.allow)
      × ((Windowed.bump_deny (Windowed.check l b now).0 now).consecutive_denies
          ≡ b.consecutive_denies + 2)
unfolding Windowed.check Windowed.bump_deny
streak_after l b now within full small = (ground arith, ground arith)

allow_means_all :
    (p e i : WindowedDecision) {d : LoginRateLimitDecision}
    → d ≡ allow
    → Amounts p e i (reported d)
    → i ≡ WindowedDecision.allow
allow_means_all p e i h a = (subst (λ d. Amounts p e i (reported d)) h a).2

-- A refused attempt of an address whose bucket is exhausted counts twice on the deny streak of that
-- bucket: once in `WindowedBucket::check`, and again in the bump that is meant for the families
-- that did not refuse.
pub refused_counts_twice :
    {s : Stores} (rl : LoginRateLimiter s) (address : Text) (a : IpAddr) (swept_at now : ℕ)
    (b : WindowedBucket)
    → HasWindows rl
    → swept_at ≤ now
    → is_loopback a ≡ false
    → ip_entry rl a ≡ some b
    → duration_since now b.window_start < rl.ip_limits.window
    → rl.ip_limits.max_count ≤ b.count
    → b.consecutive_denies + 2 ≤ u32_max
    → (b' : WindowedBucket) × (ip_entry (check rl address a swept_at now).0 a ≡ some b')
      × (b'.consecutive_denies ≡ b.consecutive_denies + 2)
unfolding check bucket_or_new
refused_counts_twice rl address a swept_at now b w le remote there within full small =
    let e = normalise_email address in
    let v = Windowed.check rl.ip_limits b now in
    let (denies, streak) = streak_after rl.ip_limits b now within full small in
    let verdict : ip_verdict rl a now ≡ v = rw there in
    let refused : (check rl address a swept_at now).1 ≢ allow = λ h. denies (
      ap (λ r. r.1) (sym verdict)
      ∙ allow_means_all _ _ _ h (check-Amounts rl address a swept_at now w le remote)) in
    let left = ip_entry-refused (swept rl swept_at) e a now (rw remote at refused) in
    (
      Windowed.bump_deny v.0 now,
      rw remote (
          left
          ∙ ap (λ r. some (Windowed.bump_deny r.0 now))
              (ip_verdict-swept rl w swept_at now le a ∙ verdict)),
      streak,
    )
