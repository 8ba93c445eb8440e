-- ===== src/Support/WindowedMap/Sweep.antt =====
-- The eviction sweep of a `WindowedBucketMap` cannot be seen by a later attempt.
use nagent.Prelude.{
  ℕ, ◌≤◌, ◌<◌, ◌≡◌, none, some, arith, ltb, if◌then◌else◌, Option-cases, Bool-cases, sym, ltb→le,
  inl, inr,
}
use nagent.Prelude.Words.{duration_since}
use nagent.Collections.{DashMap}
use nagent.Support.Windowed
use nagent.Support.Windowed.{WindowedBucket, Limits}
use nagent.Support.WindowedMap.{WindowedBucketMap, bucket_or_new, check, sweep_idle}
use nagent.Support.WindowedMap.Keys.{get-check, decision-check}

-- A bucket whose window has run out decides like a bucket that was never there.
stale-check :
    (l : Limits) (b : WindowedBucket) (now : ℕ)
    → 0 < l.window
    → l.window ≤ duration_since now b.window_start
    → Windowed.check l b now ≡ Windowed.check l (Windowed.new now) now
unfolding Windowed.check Windowed.new
stale-check l b now pos stale = ground arith

module _ {K : Type 0} {d : DashMap K WindowedBucket} (m : WindowedBucketMap d) where
  pub get-sweep_idle :
      (now window : ℕ) (k : K) (b : WindowedBucket)
      → d.get m.buckets k ≡ some b
      → d.get (sweep_idle m now window).0.buckets k
        ≡ (if ltb (duration_since now b.window_start) window then some b else none)
  unfolding sweep_idle
  get-sweep_idle now window k b h = rw (d.get-retain m.buckets _ k, h)

  pub bucket_or_new-sweep :
      (l : Limits) (now later : ℕ) (k : K)
      → 0 < l.window
      → now ≤ later
      → Windowed.check l (bucket_or_new (sweep_idle m now l.window).0 k later) later
        ≡ Windowed.check l (bucket_or_new m k later) later
  unfolding sweep_idle bucket_or_new
  bucket_or_new-sweep l now later k pos le = elim (Option-cases (d.get m.buckets k)) [
    | inl missing ↦ rw (d.get-retain m.buckets _ k, missing)
    | inr (b, found) ↦
        rw (d.get-retain m.buckets _ k, found)
          (elim (Bool-cases (ltb (duration_since now b.window_start) l.window)) [
            | inl live ↦ rw live
            | inr over ↦ rw over (sym (stale-check l b later pos (omega (arith, ltb→le _ _ over))))
          ])
  ]

  -- An attempt is decided, and leaves the bucket of its key, as if no sweep had run before it: a
  -- sweep at an earlier instant with the window of the limits is invisible.
  pub sweep-transparent :
      (l : Limits) (now later : ℕ) (k : K)
      → 0 < l.window
      → now ≤ later
      → ((check (sweep_idle m now l.window).0 k l later).1 ≡ (check m k l later).1)
        × (d.get (check (sweep_idle m now l.window).0 k l later).0.buckets k
            ≡ d.get (check m k l later).0.buckets k)
  sweep-transparent l now later k pos le =
      let same = bucket_or_new-sweep l now later k pos le in
      let s = (sweep_idle m now l.window).0 in
      (
        ground (arith, same, decision-check s k l later, decision-check m k l later),
        ground (arith, same, get-check s k l later k, get-check m k l later k, d.key_eq_iff k k),
      )
