-- ===== src/Support/WindowedMap/Keys.antt =====
-- Each operation of a `WindowedBucketMap` touches the bucket of its own key only.
use nagent.Prelude.{ℕ, ◌≡◌, refl, inl, inr, Option-cases, Option, none, some, arith, if◌then◌else◌}
use nagent.Collections.{DashMap}
use nagent.Support.Windowed
use nagent.Support.Windowed.{WindowedBucket, Limits}
use nagent.Support.WindowedMap.{WindowedBucketMap, bucket_or_new, check, bump_deny, reset}

module _ {K : Type 0} {d : DashMap K WindowedBucket} (m : WindowedBucketMap d) (key : K) where
  abbrev pub bumped : ℕ → Option WindowedBucket → Option WindowedBucket
  bumped now none = none
  bumped now (some b) = some (Windowed.bump_deny b now)

  pub get-check :
      (l : Limits) (now : ℕ) (j : K)
      → d.get (check m key l now).0.buckets j ≡ (
          if d.key_eq key j
          then some (Windowed.check l (bucket_or_new m key now) now).0
          else d.get m.buckets j)
  unfolding check
  get-check l now j = d.get-insert m.buckets key _ j

  pub decision-check :
      (l : Limits) (now : ℕ)
      → (check m key l now).1 ≡ (Windowed.check l (bucket_or_new m key now) now).1
  unfolding check
  decision-check l now = refl

  pub get-bump_deny :
      (now : ℕ) (j : K)
      → d.get (bump_deny m key now).buckets j
        ≡ (if d.key_eq key j then bumped now (d.get m.buckets key) else d.get m.buckets j)
  unfolding bump_deny
  get-bump_deny now j = elim (Option-cases (d.get m.buckets key)) [
    | inl missing ↦ rw (missing, bump_deny) (ground (arith, d.key_eq_iff key j))
    | inr (b, found) ↦
        rw (found, bump_deny) (d.get-insert m.buckets key (Windowed.bump_deny b now) j)
  ]

  pub get-reset :
      (j : K) → d.get (reset m key).buckets j ≡ (if d.key_eq key j then none else d.get m.buckets j)
  unfolding reset
  get-reset j = d.get-remove m.buckets key j

  pub get-check_self :
      (l : Limits) (now : ℕ)
      → d.get (check m key l now).0.buckets key
        ≡ some (Windowed.check l (bucket_or_new m key now) now).0
  get-check_self l now = rw (get-check l now key, (d.key_eq_iff key key).1 refl)

  pub get-bump_deny_self :
      (now : ℕ) (b : WindowedBucket)
      → d.get m.buckets key ≡ some b
      → d.get (bump_deny m key now).buckets key ≡ some (Windowed.bump_deny b now)
  get-bump_deny_self now b h = rw (get-bump_deny now key, (d.key_eq_iff key key).1 refl, h)
