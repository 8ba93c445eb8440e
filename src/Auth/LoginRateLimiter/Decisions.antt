-- ===== src/Auth/LoginRateLimiter/Decisions.antt =====
-- What the limiter decides, from the buckets of the three families.
use nagent.Prelude.{ℕ, ◌≤◌, ◌<◌, ◌≡◌, ◌∙◌, arith, Bool-cases, inl, inr}
use nagent.Prelude.Words.{as_secs}
use nagent.Prelude.Text.{Text}
use nagent.Net.{IpAddr}
use nagent.Collections.{DashMap}
use nagent.Support.Windowed
use nagent.Support.Windowed.{WindowedBucket, WindowedDecision, Limits}
use nagent.Support.WindowedMap
use nagent.Support.WindowedMap.{WindowedBucketMap, bucket_or_new}
use nagent.Support.WindowedMap.Sweep.{bucket_or_new-sweep}
use nagent.Auth.LoginRateLimiter.{Stores, LoginRateLimiter, swept, sweep_due, sweep_idle_buckets}

-- the whole seconds that a family asks for
abbrev pub wait : WindowedDecision → ℕ
wait WindowedDecision.allow = 0
wait (WindowedDecision.deny r) = as_secs r

-- the windows of the policy are not empty
pub record HasWindows {s : Stores} (rl : LoginRateLimiter s) : Type 0 where
  pub pair_window : 0 < rl.pair_limits.window
  pub email_window : 0 < rl.email_limits.window
  pub ip_window : 0 < rl.ip_limits.window

module _ {s : Stores} (rl : LoginRateLimiter s) where
  -- what each family's own bucket decides
  abbrev pub pair_verdict : Text → IpAddr → ℕ → WindowedBucket × WindowedDecision
  pair_verdict e a now =
      Windowed.check rl.pair_limits (bucket_or_new rl.pair_buckets (e, a) now) now

  abbrev pub email_verdict : Text → ℕ → WindowedBucket × WindowedDecision
  email_verdict e now = Windowed.check rl.email_limits (bucket_or_new rl.email_buckets e now) now

  abbrev pub ip_verdict : IpAddr → ℕ → WindowedBucket × WindowedDecision
  ip_verdict a now = Windowed.check rl.ip_limits (bucket_or_new rl.ip_buckets a now) now

-- what two limiters have in common when they differ in their clocks only
pub record SameBuckets {s : Stores} (a b : LoginRateLimiter s) : Type 0 where
  pub pairs : a.pair_buckets.buckets ≡ b.pair_buckets.buckets
  pub emails : a.email_buckets.buckets ≡ b.email_buckets.buckets
  pub ips : a.ip_buckets.buckets ≡ b.ip_buckets.buckets
  pub pair_limits : a.pair_limits ≡ b.pair_limits
  pub email_limits : a.email_limits ≡ b.email_limits
  pub ip_limits : a.ip_limits ≡ b.ip_limits

pub sweep_due-SameBuckets : {s : Stores} (rl : LoginRateLimiter s) → SameBuckets (sweep_due rl).0 rl
unfolding sweep_due WindowedMap.should_sweep
sweep_due-SameBuckets rl = ground arith

check-same :
    {K : Type 0} {d : DashMap K WindowedBucket} (m' m : WindowedBucketMap d) {l' l : Limits} (k : K)
    (now : ℕ)
    → m'.buckets ≡ m.buckets
    → l' ≡ l
    → Windowed.check l' (bucket_or_new m' k now) now ≡ Windowed.check l (bucket_or_new m k now) now
unfolding bucket_or_new
check-same m' m k now p q = cc

module _ {s : Stores} (rl : LoginRateLimiter s) (w : HasWindows rl) (swept_at now : ℕ)
    (le : swept_at ≤ now) where
  pub pair_verdict-swept :
      (e : Text) (a : IpAddr) → pair_verdict (swept rl swept_at) e a now ≡ pair_verdict rl e a now
  unfolding swept sweep_idle_buckets
  pair_verdict-swept e a =
      let rl' = (sweep_due rl).0 in
      let same = sweep_due-SameBuckets rl in
      let pos : 0 < rl'.pair_limits.window = rw same.pair_limits w.pair_window in
      let sweep = bucket_or_new-sweep rl'.pair_buckets rl'.pair_limits swept_at now (e, a) pos le in
      let clocks =
        check-same rl'.pair_buckets rl.pair_buckets (e, a) now same.pairs same.pair_limits in
      elim (Bool-cases (sweep_due rl).1) [
        | inl due ↦ rw due (sweep ∙ clocks)
        | inr not_due ↦ rw not_due clocks
      ]

  pub email_verdict-swept :
      (e : Text) → email_verdict (swept rl swept_at) e now ≡ email_verdict rl e now
  unfolding swept sweep_idle_buckets
  email_verdict-swept e =
      let rl' = (sweep_due rl).0 in
      let same = sweep_due-SameBuckets rl in
      let pos : 0 < rl'.email_limits.window = rw same.email_limits w.email_window in
      let sweep = bucket_or_new-sweep rl'.email_buckets rl'.email_limits swept_at now e pos le in
      let clocks =
        check-same rl'.email_buckets rl.email_buckets e now same.emails same.email_limits in
      elim (Bool-cases (sweep_due rl).1) [
        | inl due ↦ rw due (sweep ∙ clocks)
        | inr not_due ↦ rw not_due clocks
      ]

  pub ip_verdict-swept : (a : IpAddr) → ip_verdict (swept rl swept_at) a now ≡ ip_verdict rl a now
  unfolding swept sweep_idle_buckets
  ip_verdict-swept a =
      let rl' = (sweep_due rl).0 in
      let same = sweep_due-SameBuckets rl in
      let pos : 0 < rl'.ip_limits.window = rw same.ip_limits w.ip_window in
      let sweep = bucket_or_new-sweep rl'.ip_buckets rl'.ip_limits swept_at now a pos le in
      let clocks = check-same rl'.ip_buckets rl.ip_buckets a now same.ips same.ip_limits in
      elim (Bool-cases (sweep_due rl).1) [
        | inl due ↦ rw due (sweep ∙ clocks)
        | inr not_due ↦ rw not_due clocks
      ]
