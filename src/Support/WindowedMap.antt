-- ===== src/Support/WindowedMap.antt =====
-- crates/nagent-support/src/ratelimit.rs: `WindowedBucketMap`, the buckets of one key family with
-- the clock that gates their sweeps. The shards of the `DashMap` are its interface's affair: each
-- operation below holds the entry that it works on, so it is one step.
pub mod Keys
pub mod Sweep
mod Tests
use nagent.Prelude.{ℕ, ◌-◌, ◌<◌, Bool, Option, none, some, ltb}
use nagent.Prelude.Words.{unwrap_or, duration_since}
use nagent.Collections.{DashMap}
use nagent.Support.SweepClock
use nagent.Support.SweepClock.{SweepClock}
use nagent.Support.Windowed
use nagent.Support.Windowed.{WindowedBucket, WindowedDecision, Limits}

pub record WindowedBucketMap {K : Type 0} (d : DashMap K WindowedBucket) : Type 0 where
  pub buckets : d.Map
  pub sweep : SweepClock
  pub sweep_every : ℕ

module _ {K : Type 0} (d : DashMap K WindowedBucket) where
  unfoldable pub with_sweep_every : ℕ → WindowedBucketMap d
  with_sweep_every every = record { buckets = d.empty; sweep = SweepClock.new; sweep_every = every }

  unfoldable pub new : WindowedBucketMap d
  unfolding with_sweep_every
  new = with_sweep_every SweepClock.default_sweep_every

module _ {K : Type 0} {d : DashMap K WindowedBucket} where
  -- `entry(key).or_insert_with`
  unfoldable pub bucket_or_new : WindowedBucketMap d → K → ℕ → WindowedBucket
  bucket_or_new m key now = unwrap_or (d.get m.buckets key) (Windowed.new now)

  unfoldable pub check :
      WindowedBucketMap d → K → Limits → ℕ → WindowedBucketMap d × WindowedDecision
  unfolding bucket_or_new
  check m key l now =
      let (b, decision) = Windowed.check l (bucket_or_new m key now) now in
      (record m { buckets = d.insert m.buckets key b }, decision)

  unfoldable pub bump_deny : WindowedBucketMap d → K → ℕ → WindowedBucketMap d
  bump_deny m key now = elim (d.get m.buckets key) [
    | none ↦ m
    | some b ↦ record m { buckets = d.insert m.buckets key (Windowed.bump_deny b now) }
  ]

  unfoldable pub reset : WindowedBucketMap d → K → WindowedBucketMap d
  reset m key = record m { buckets = d.remove m.buckets key }

  unfoldable pub sweep_idle : WindowedBucketMap d → ℕ → ℕ → WindowedBucketMap d × ℕ
  sweep_idle m now window =
      let before = d.len m.buckets in
      let left =
        d.retain m.buckets
          (λ _ (b : WindowedBucket). ltb (duration_since now b.window_start) window) in
      (record m { buckets = left }, before - d.len left)

  unfoldable pub should_sweep : WindowedBucketMap d → WindowedBucketMap d × Bool
  should_sweep m =
      let (c, open_now) = SweepClock.tick m.sweep m.sweep_every in
      (record m { sweep = c }, open_now)
