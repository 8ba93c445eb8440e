-- ===== src/Support/TokenBucketMap.antt =====
-- crates/nagent-support/src/ratelimit.rs: `TokenBucketMap`, the token buckets of one key family with
-- the clock that gates their sweeps. Each operation holds the entry that it works on: it is one step.
pub mod Draining
use nagent.Prelude.{ℕ, ◌-◌, Bool, ◌||◌, ◌==◌, Option, none, some, ltb}
use nagent.Prelude.Words.{unwrap_or}
use nagent.Collections.{DashMap}
use nagent.Support.SweepClock
use nagent.Support.SweepClock.{SweepClock}
use nagent.Support.TokenBucket
use nagent.Support.TokenBucket.{TokenBucket, TokenDecision, should_keep_during_idle_eviction}

pub record TokenBucketMap {K : Type 0} (d : DashMap K TokenBucket) : Type 0 where
  pub buckets : d.Map
  pub sweep : SweepClock
  pub sweep_every : ℕ

module _ {K : Type 0} (d : DashMap K TokenBucket) where
  unfoldable pub with_sweep_every : ℕ → TokenBucketMap d
  with_sweep_every every = record { buckets = d.empty; sweep = SweepClock.new; sweep_every = every }

  unfoldable pub new : TokenBucketMap d
  unfolding with_sweep_every
  new = with_sweep_every SweepClock.default_sweep_every

-- the buckets that a sweep keeps
abbrev pub survives : ℕ → ℕ → ℕ → TokenBucket → Bool
survives now idle_for capacity b =
    should_keep_during_idle_eviction now b.last_update idle_for || ltb b.tokens capacity

module _ {K : Type 0} {d : DashMap K TokenBucket} where
  -- `entry(key).or_insert_with`
  unfoldable pub bucket_or_full : TokenBucketMap d → K → ℕ → ℕ → TokenBucket
  bucket_or_full m key capacity now =
      unwrap_or (d.get m.buckets key) (TokenBucket.full capacity now)

  unfoldable pub try_consume : TokenBucketMap d → K → ℕ → ℕ → ℕ → TokenBucketMap d × TokenDecision
  unfolding bucket_or_full
  try_consume m key capacity rate now =
      let (b, decision) =
        TokenBucket.try_consume (bucket_or_full m key capacity now) capacity rate now in
      (record m { buckets = d.insert m.buckets key b }, decision)

  unfoldable pub sweep_idle : TokenBucketMap d → ℕ → ℕ → ℕ → TokenBucketMap d × ℕ
  sweep_idle m now idle_for capacity =
      let before = d.len m.buckets in
      let left = d.retain m.buckets (λ _ (b : TokenBucket). survives now idle_for capacity b) in
      (record m { buckets = left }, before - d.len left)

  unfoldable pub should_sweep : TokenBucketMap d → TokenBucketMap d × Bool
  should_sweep m =
      let (c, open_now) = SweepClock.tick m.sweep m.sweep_every in
      (record m { sweep = c }, open_now)
