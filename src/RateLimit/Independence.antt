-- ===== src/RateLimit/Independence.antt =====
-- The limiter as one bucket for each address: its sweeps and the other addresses do not count.
use native.Mathlib.Nat.{mul-le-mul_right}
use nagent.Prelude.{
  ℕ, ◌*◌, ◌≤◌, ◌<◌, ◌≡◌, refl, sym, ap, ◌∙◌, subst, false, Option, some, List, [], ◌∷◌,
  if◌then◌else◌, not, ◌&&◌, arith, Bool-cases, inl, inr,
}
use nagent.Prelude.Words.{unwrap_or, from_secs}
use nagent.Collections.{DashMap}
use nagent.Net.{IpAddr, is_loopback}
use nagent.Support.TokenBucket
use nagent.Support.TokenBucket.{TokenBucket, TokenDecision, unit}
use nagent.Support.TokenBucketMap
use nagent.Support.TokenBucketMap.{bucket_or_full, try_consume, should_sweep, sweep_idle}
use nagent.Support.TokenBucketMap.Draining.{IsDraining, try_consume-IsDraining, sweep_idle-removed}
use nagent.RateLimit.{
  RateLimitPolicy, refill_rate, RateLimiter, result_of, capacity, sweep_idle_buckets_inner,
  swept_if_due, check, new, sweep_idle_buckets,
}

-- an attempt, with the two readings of the clock
pub record Attempt : Type 0 where
  pub ip : IpAddr
  pub swept_at : ℕ
  pub now : ℕ

-- one attempt on an address's own bucket
abbrev pub one_attempt : RateLimitPolicy → Option TokenBucket → ℕ → TokenBucket × TokenDecision
one_attempt p o now =
    TokenBucket.try_consume (unwrap_or o (TokenBucket.full (p.tokens_per_minute * unit) now))
      (p.tokens_per_minute * unit) (refill_rate p) now

-- the bucket of an address after its own attempts
abbrev pub own :
    DashMap IpAddr TokenBucket
    → RateLimitPolicy
    → IpAddr
    → Option TokenBucket
    → List Attempt
    → Option TokenBucket
own d p ip o [] = o
own d p ip o (a ∷ rest) =
    own d p ip
      (if not (is_loopback a.ip) && d.key_eq a.ip ip then some (one_attempt p o a.now).0 else o)
      rest

module _ {d : DashMap IpAddr TokenBucket} where
  abbrev pub bucket_of : RateLimiter d → IpAddr → Option TokenBucket
  bucket_of l ip = d.get l.buckets.buckets ip

  abbrev pub run : RateLimiter d → List Attempt → RateLimiter d
  run l [] = l
  run l (a ∷ rest) = run (check l a.ip a.swept_at a.now).0 rest

  -- no bucket is full
  pub Draining : RateLimiter d → Type 0
  Draining l = IsDraining (capacity l) l.buckets

  -- the buckets are kept
  Same : RateLimiter d → RateLimiter d → Type 0
  Same l l' = (l'.policy ≡ l.policy) × ((ip : IpAddr) → bucket_of l' ip ≡ bucket_of l ip)

  swept : (l : RateLimiter d) (swept_at : ℕ) → Draining l → Same l (swept_if_due l swept_at)
  unfolding Same Draining IsDraining swept_if_due sweep_idle_buckets_inner should_sweep
  swept l swept_at draining = elim (Bool-cases (should_sweep l.buckets).1) [
    | inl due ↦ rw due (
      refl,
      (sweep_idle-removed (should_sweep l.buckets).0 swept_at (from_secs 60) (capacity l)
          draining).1,
    )
    | inr later ↦ rw later (refl, λ ip. refl)
  ]

  same-Draining : (l l' : RateLimiter d) → Same l l' → Draining l → Draining l'
  unfolding Same Draining IsDraining
  same-Draining l l' (policy, buckets) draining ip b h =
      subst (λ (p : RateLimitPolicy). b.tokens < p.tokens_per_minute * unit) (sym policy)
        (draining ip b (sym (buckets ip) ∙ h))

  -- an attempt on the limiter, from the one before its sweep
  abbrev Consumed : RateLimiter d → RateLimiter d → IpAddr → ℕ → IpAddr → Type 0
  Consumed l l' ip now k =
      let r = try_consume l'.buckets ip (capacity l') (refill_rate l'.policy) now in
      (d.get r.0.buckets k ≡ (
        if d.key_eq ip k
        then some (one_attempt l.policy (bucket_of l ip) now).0
        else bucket_of l k))
      × (r.1 ≡ (one_attempt l.policy (bucket_of l ip) now).1)

  consumed : (l l' : RateLimiter d) (ip k : IpAddr) (now : ℕ) → Same l l' → Consumed l l' ip now k
  unfolding Same try_consume bucket_or_full
  consumed l l' ip k now (policy, buckets) =
      let same : one_attempt l'.policy (bucket_of l' ip) now
          ≡ one_attempt l.policy (bucket_of l ip) now =
        ap (λ p. one_attempt p (bucket_of l' ip) now) policy
        ∙ ap (λ o. one_attempt l.policy o now) (buckets ip) in
      (
        d.get-insert l'.buckets.buckets ip (one_attempt l'.policy (bucket_of l' ip) now).0 k
            ∙ ap (λ x. if d.key_eq ip k then some x else bucket_of l' k) (ap (λ r. r.0) same)
            ∙ ap
                (λ x.
                  if d.key_eq ip k then some (one_attempt l.policy (bucket_of l ip) now).0 else x)
                (buckets k),
        ap (λ r. r.1) same,
      )

  whole_tokens : (l : RateLimiter d) → 0 < l.policy.tokens_per_minute → unit ≤ capacity l
  whole_tokens l pos = omega (arith, mul-le-mul_right unit pos)

  -- the key of a bucket that an attempt changes
  own_key :
      (l : RateLimiter d) (ip k : IpAddr) (now : ℕ)
      → (if d.key_eq ip k
          then some (one_attempt l.policy (bucket_of l ip) now).0
          else bucket_of l k)
        ≡ (if d.key_eq ip k
            then some (one_attempt l.policy (bucket_of l k) now).0
            else bucket_of l k)
  own_key l ip k now = elim (Bool-cases (d.key_eq ip k)) [
    | inl same ↦
        rw same
          (ap (λ x. some (one_attempt l.policy (bucket_of l x) now).0) ((d.key_eq_iff ip k).0 same))
    | inr other ↦ rw other refl
  ]

  abbrev pub Kept : RateLimiter d → RateLimiter d → Type 0
  Kept l l' = (l'.policy ≡ l.policy) × Draining l'

  -- a check of an address other than the loopback ones
  pub check-remote :
      (l : RateLimiter d) (ip k : IpAddr) (swept_at now : ℕ)
      → is_loopback ip ≡ false
      → 0 < l.policy.tokens_per_minute
      → Draining l
      → ((bucket_of (check l ip swept_at now).0 k ≡ (
            if d.key_eq ip k
            then some (one_attempt l.policy (bucket_of l k) now).0
            else bucket_of l k))
          × ((check l ip swept_at now).1
              ≡ result_of ip (one_attempt l.policy (bucket_of l ip) now).1))
        × Kept l (check l ip swept_at now).0
  unfolding check Same Draining
  check-remote l ip k swept_at now remote pos draining =
      let l1 = swept_if_due l swept_at in
      let same = swept l swept_at draining in
      let (bucket, decision) = consumed l l1 ip k now same in
      let pos1 = subst (λ (p : RateLimitPolicy). 0 < p.tokens_per_minute) (sym same.0) pos in
      let draining1 =
        try_consume-IsDraining l1.buckets ip (capacity l1) (refill_rate l1.policy) now
          (whole_tokens l1 pos1) (same-Draining l l1 same draining) in
      rw remote ((bucket ∙ own_key l ip k now, ap (result_of ip) decision), (same.0, draining1))

  -- the bucket of an address is what its own checks alone make of it
  pub bucket_of-run :
      (l : RateLimiter d) (attempts : List Attempt) (k : IpAddr)
      → 0 < l.policy.tokens_per_minute
      → Draining l
      → (bucket_of (run l attempts) k ≡ own d l.policy k (bucket_of l k) attempts)
        × Draining (run l attempts)
  unfolding check
  bucket_of-run l [] k pos draining = (refl, draining)
  bucket_of-run l (a ∷ rest) k pos draining = elim (Bool-cases (is_loopback a.ip)) [
    | inl loopback ↦ rw loopback (bucket_of-run l rest k pos draining)
    | inr remote ↦
        let l' = (check l a.ip a.swept_at a.now).0 in
        let ((bucket, _), (policy, draining')) =
          check-remote l a.ip k a.swept_at a.now remote pos draining in
        let pos' = subst (λ (p : RateLimitPolicy). 0 < p.tokens_per_minute) (sym policy) pos in
        let (all, still) = bucket_of-run l' rest k pos' draining' in
        (
          all
              ∙ ap (λ p. own d p k (bucket_of l' k) rest) policy
              ∙ ap (λ o. own d l.policy k o rest) (bucket ∙ rw remote refl),
          still,
        )
  ]

module _ (d : DashMap IpAddr TokenBucket) where
  pub new-Draining : (policy : RateLimitPolicy) → Draining (new d policy)
  unfolding Draining IsDraining new TokenBucketMap.new TokenBucketMap.with_sweep_every
  new-Draining policy ip b h = ground (arith, sym (d.get-empty ip) ∙ h)

  pub new-policy :
      (policy : RateLimitPolicy)
      → 0 < policy.tokens_per_minute
      → 0 < (new d policy).policy.tokens_per_minute
  unfolding new
  new-policy policy pos = pos

  -- The eviction sweep never removes a bucket: after any checks of a new limiter with a budget, a
  -- sweep reports that it has removed none, and leaves the bucket of every address, however long it
  -- has been idle.
  pub sweep_idle_buckets-run :
      (policy : RateLimitPolicy) (attempts : List Attempt) (now : ℕ) (k : IpAddr)
      → 0 < policy.tokens_per_minute
      → let l = run (new d policy) attempts in
        ((sweep_idle l.buckets now (from_secs 60) (capacity l)).1 ≡ 0)
        × (bucket_of (sweep_idle_buckets l now) k ≡ bucket_of l k)
  unfolding sweep_idle_buckets sweep_idle_buckets_inner Draining
  sweep_idle_buckets-run policy attempts now k pos =
      let l = run (new d policy) attempts in
      let draining =
        (bucket_of-run (new d policy) attempts k (new-policy policy pos) (new-Draining policy)).1 in
      let (none_removed, kept) =
        sweep_idle-removed l.buckets now (from_secs 60) (capacity l) draining in
      (none_removed, kept k)
