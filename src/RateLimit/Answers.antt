-- ===== src/RateLimit/Answers.antt =====
-- What the limiter answers to one address, against a bucket of that address alone.
use nagent.Prelude.{
  ℕ, ◌<◌, ◌≡◌, refl, sym, ap, ◌∙◌, subst, false, Option, none, some, List, [], ◌∷◌, if◌then◌else◌,
  Bool-cases, inl, inr,
}
use nagent.Collections.{DashMap}
use nagent.Net.{IpAddr, is_loopback}
use nagent.Support.TokenBucket.{TokenBucket}
use nagent.Support.TokenBucketMap
use nagent.RateLimit.{RateLimitPolicy, RateLimiter, CheckResult, result_of, check, new}
use nagent.RateLimit.Independence.{
  Attempt, one_attempt, bucket_of, Draining, check-remote, new-Draining, new-policy,
}

-- the times at which an address is checked
abbrev pub times_of : DashMap IpAddr TokenBucket → IpAddr → List Attempt → List ℕ
times_of d k [] = []
times_of d k (a ∷ rest) =
    let later = times_of d k rest in if d.key_eq a.ip k then a.now ∷ later else later

-- the answers of one bucket to attempts at these times
abbrev pub own_results : RateLimitPolicy → IpAddr → Option TokenBucket → List ℕ → List CheckResult
own_results p ip o [] = []
own_results p ip o (now ∷ times) =
    let (bucket, decision) = one_attempt p o now in
    result_of ip decision ∷ own_results p ip (some bucket) times

module _ {d : DashMap IpAddr TokenBucket} where
  -- what the limiter answers to one address in a run
  abbrev pub results : RateLimiter d → IpAddr → List Attempt → List CheckResult
  results l k [] = []
  results l k (a ∷ rest) =
      let (l', answer) = check l a.ip a.swept_at a.now in
      let later = results l' k rest in if d.key_eq a.ip k then answer ∷ later else later

  results-own :
      (l : RateLimiter d) (attempts : List Attempt) (k : IpAddr)
      → is_loopback k ≡ false
      → 0 < l.policy.tokens_per_minute
      → Draining l
      → results l k attempts ≡ own_results l.policy k (bucket_of l k) (times_of d k attempts)
  unfolding check
  results-own l [] k far pos draining = refl
  results-own l (a ∷ rest) k far pos draining = elim (Bool-cases (is_loopback a.ip)) [
    | inl loopback ↦ elim (Bool-cases (d.key_eq a.ip k)) [
      | inl same ↦ absurd (cc (far, loopback, ap is_loopback ((d.key_eq_iff a.ip k).0 same)))
      | inr other ↦ rw (loopback, other) (results-own l rest k far pos draining)
    ]
    | inr remote ↦
        let l' = (check l a.ip a.swept_at a.now).0 in
        let ((bucket, answer), (policy, draining')) =
          check-remote l a.ip k a.swept_at a.now remote pos draining in
        let pos' = subst (λ (p : RateLimitPolicy). 0 < p.tokens_per_minute) (sym policy) pos in
        let later =
          results-own l' rest k far pos' draining'
          ∙ ap (λ p. own_results p k (bucket_of l' k) (times_of d k rest)) policy in
        elim (Bool-cases (d.key_eq a.ip k)) [
          | inl same ↦
              let e = (d.key_eq_iff a.ip k).0 same in
              let said : (check l a.ip a.swept_at a.now).1
                  ≡ result_of k (one_attempt l.policy (bucket_of l k) a.now).1 =
                answer ∙ ap (λ i. result_of i (one_attempt l.policy (bucket_of l i) a.now).1) e in
              let once = one_attempt l.policy (bucket_of l k) a.now in
              let after : bucket_of l' k ≡ some once.0 = bucket ∙ rw same refl in
              let all = later ∙ ap (λ o. own_results l.policy k o (times_of d k rest)) after in
              rw same
                (ap (λ r. r ∷ results l' k rest) said ∙ ap (λ rs. result_of k once.1 ∷ rs) all)
          | inr other ↦
              let after : bucket_of l' k ≡ bucket_of l k = bucket ∙ rw other refl in
              rw other (later ∙ ap (λ o. own_results l.policy k o (times_of d k rest)) after)
        ]
  ]

module _ (d : DashMap IpAddr TokenBucket) where
  -- The limiter decides on an address like one token bucket of that address: whatever addresses are
  -- checked, in whatever order and with whatever sweeps in between, a new limiter with a budget gives
  -- the checks of an address that is not a loopback address the answers that this address's bucket
  -- alone, full at first, gives at the times of these checks.
  pub results-run :
      (policy : RateLimitPolicy) (attempts : List Attempt) (k : IpAddr)
      → 0 < policy.tokens_per_minute
      → is_loopback k ≡ false
      → results (new d policy) k attempts ≡ own_results policy k none (times_of d k attempts)
  unfolding new TokenBucketMap.new TokenBucketMap.with_sweep_every
  results-run policy attempts k pos far =
      results-own (new d policy) attempts k far (new-policy d policy pos) (new-Draining d policy)
      ∙ ap (λ o. own_results policy k o (times_of d k attempts)) (d.get-empty k)
