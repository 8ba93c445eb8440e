-- ===== src/Support/TokenBucketMap/Draining.antt =====
-- The buckets of a map are never full: an attempt comes with each, and takes from it.
use nagent.Prelude.{
  ℕ, suc, ◌≤◌, ◌<◌, ◌≡◌, refl, ap, ◌∙◌, subst, true, some, List, [], ◌∷◌, All, All-weaken, count,
  length, arith, Bool-cases, Option-cases, inl, inr,
}
use nagent.Collections.{DashMap}
use mathlib.Core.Option.{some-injective}
use nagent.Support.TokenBucket
use nagent.Support.TokenBucket.{TokenBucket, unit}
use nagent.Support.TokenBucket.Budget.{try_consume-lt}
use nagent.Support.TokenBucketMap.{
  TokenBucketMap, bucket_or_full, try_consume, survives, sweep_idle,
}

survives-true :
    (now idle_for capacity : ℕ) (b : TokenBucket)
    → b.tokens < capacity
    → survives now idle_for capacity b ≡ true
survives-true now idle_for capacity b h = grind (arith, h)

count-survives :
    {K : Type 0} (now idle_for capacity : ℕ) (es : List (K × TokenBucket))
    → All (λ e. e.1.tokens < capacity) es
    → count (λ e. survives now idle_for capacity e.1) es ≡ length es
count-survives now idle_for capacity [] a = refl
count-survives now idle_for capacity ((k, b) ∷ es) (h, a) =
    rw (survives-true now idle_for capacity b h)
      (ap suc (count-survives now idle_for capacity es a))

module _ {K : Type 0} {d : DashMap K TokenBucket} where
  -- no bucket is full
  unfoldable pub IsDraining : ℕ → TokenBucketMap d → Type 0
  IsDraining capacity m =
      (k : K) (b : TokenBucket) → d.get m.buckets k ≡ some b → b.tokens < capacity

  pub try_consume-IsDraining :
      (m : TokenBucketMap d) (key : K) (capacity rate now : ℕ)
      → unit ≤ capacity
      → IsDraining capacity m
      → IsDraining capacity (try_consume m key capacity rate now).0
  unfolding IsDraining try_consume
  try_consume-IsDraining m key capacity rate now fits draining k b h =
      let old = bucket_or_full m key capacity now in
      let got = d.get-insert m.buckets key (TokenBucket.try_consume old capacity rate now).0 k in
      elim (Bool-cases (d.key_eq key k)) [
        | inl same ↦
            let e =
              some-injective (TokenBucket.try_consume old capacity rate now).0 b
                (rw (got, same) at h) in
            subst (λ x. x.tokens < capacity) e (try_consume-lt old capacity rate now fits)
        | inr other ↦ draining k b (rw (got, other) at h)
      ]

  get-sweep_idle :
      (m : TokenBucketMap d) (now idle_for capacity : ℕ) (k : K)
      → IsDraining capacity m
      → d.get (sweep_idle m now idle_for capacity).0.buckets k ≡ d.get m.buckets k
  unfolding IsDraining sweep_idle
  get-sweep_idle m now idle_for capacity k draining =
      d.get-retain m.buckets (λ _ (b : TokenBucket). survives now idle_for capacity b) k
      ∙ elim (Option-cases (d.get m.buckets k)) [
        | inl missing ↦ rw missing refl
        | inr (b, found) ↦
            rw (found, survives-true now idle_for capacity b (draining k b found)) refl
      ]

  -- Where no bucket is full a sweep removes none: the number that it reports is zero, and each key
  -- keeps its bucket.
  pub sweep_idle-removed :
      (m : TokenBucketMap d) (now idle_for capacity : ℕ)
      → IsDraining capacity m
      → ((sweep_idle m now idle_for capacity).1 ≡ 0)
        × ((k : K) → d.get (sweep_idle m now idle_for capacity).0.buckets k ≡ d.get m.buckets k)
  unfolding sweep_idle IsDraining
  sweep_idle-removed m now idle_for capacity draining =
      let short =
        All-weaken (λ (e : K × TokenBucket). d.get m.buckets e.0 ≡ some e.1)
          (λ e. e.1.tokens < capacity) (d.iter m.buckets) (λ e h. draining e.0 e.1 h)
          (d.iter_sound m.buckets) in
      let kept_all =
        d.len-retain m.buckets (λ _ (b : TokenBucket). survives now idle_for capacity b) in
      (
        omega (
          arith,
          kept_all,
          count-survives now idle_for capacity (d.iter m.buckets) short,
          d.len-iter m.buckets,
        ),
        λ k. get-sweep_idle m now idle_for capacity k draining,
      )
