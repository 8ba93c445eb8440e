-- ===== src/Support/WindowedMap/Tests.antt =====
-- A map of buckets for the keys 1, 2, ….
use native.Mathlib.Decide.{ℕ_discrete}
use nagent.Prelude.{ℕ, ◌≡◌, arith}
use nagent.Prelude.Words.{from_secs}
use nagent.Collections.{DashMap, discrete_map}
use nagent.Support.Windowed.{WindowedBucket, Limits}
use nagent.Support.WindowedMap.{WindowedBucketMap, new, check, sweep_idle}
use nagent.Support.WindowedMap.Sweep.{sweep-transparent}

abbrev store : DashMap ℕ WindowedBucket
store = discrete_map ℕ_discrete WindowedBucket

abbrev limits : Limits
limits = record {
  max_count = 3;
  window = from_secs 60;
  backoff_after = 2;
  max_backoff = from_secs 300;
}

abbrev used : WindowedBucketMap store
used = (check (new store) 1 limits 0).0

sweep-transparent_example :
    ((check (sweep_idle used (from_secs 61) limits.window).0 1 limits (from_secs 62)).1
      ≡ (check used 1 limits (from_secs 62)).1)
    × (store.get
          (check (sweep_idle used (from_secs 61) limits.window).0 1 limits (from_secs 62)).0.buckets
          1
        ≡ store.get (check used 1 limits (from_secs 62)).0.buckets 1)
sweep-transparent_example =
    sweep-transparent used limits (from_secs 61) (from_secs 62) 1 (omega arith) (omega arith)
