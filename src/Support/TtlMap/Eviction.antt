-- ===== src/Support/TtlMap/Eviction.antt =====
-- Which entry `evict_oldest_at` takes.
use nagent.Prelude.{
  In-All, ℕ, ◌+◌, ◌≤◌, ◌<◌, ◌≡◌, ◌≢◌, refl, sym, ap, ◌∙◌, subst, ◌⊎◌, inl, inr, Bool-cases, some,
  List, [], ◌∷◌, All, In, length, ltb, arith, ltb→lt, ltb→le,
}
use nagent.Collections.{DashMap}
use nagent.Support.TtlMap.{Entry, oldest_of, evict_oldest_at}

module _ {K V : Type 0} where
  -- `(ts, k)` is among the entries or the start, and nothing of these is older
  abbrev Oldest : (d : DashMap K (Entry V)) → ℕ → K → List (K × Entry V) → ℕ × K → Type 0
  Oldest d c k₀ es (ts, k) =
      (ts ≤ c)
      × All (λ x. ts ≤ x.1.expires_at) es
      × (((ts ≡ c) × (k ≡ k₀)) ⊎ ((e : Entry V) × In (k, e) es × (e.expires_at ≡ ts)))

  All-le :
      {m n : ℕ} (es : List (K × Entry V))
      → m ≤ n
      → All (λ x. n ≤ x.1.expires_at) es
      → All (λ x. m ≤ x.1.expires_at) es
  All-le [] h a = tt
  All-le (x ∷ es) h a = (omega arith, All-le es h a.1)

module _ {K V : Type 0} (d : DashMap K (Entry V)) where
  oldest_of-some :
      (c : ℕ) (k₀ : K) (es : List (K × Entry V))
      → (r : ℕ × K) × (oldest_of d (some (c, k₀)) es ≡ some r) × Oldest d c k₀ es r
  unfolding oldest_of
  oldest_of-some c k₀ [] = ((c, k₀), refl, (omega arith, tt, inl (refl, refl)))
  oldest_of-some c k₀ ((k, e) ∷ es) = elim (Bool-cases (ltb e.expires_at c)) [
    | inl older ↦
        let (r, eq, (below, least, from)) = oldest_of-some e.expires_at k es in
        let lt = ltb→lt _ _ older in
        (
          r,
          rw older eq,
          (
            omega arith,
            (below, least),
            elim from [
              | inl (p, q) ↦ inr (e, inl (ap (λ x. (x, e)) (sym q)), sym p)
              | inr (e', i, p) ↦ inr (e', inr i, p)
            ],
          ),
        )
    | inr not_older ↦
        let (r, eq, (below, least, from)) = oldest_of-some c k₀ es in
        let le = ltb→le _ _ not_older in
        (
          r,
          rw not_older eq,
          (
            below,
            (omega arith, least),
            elim from [ inl p ↦ inl p | inr (e', i, p) ↦ inr (e', inr i, p) ],
          ),
        )
  ]

  -- What `evict_oldest_at` does to a map that is not empty: the entry of one key goes, and no entry
  -- expires before it.
  pub record Evicts (m : d.Map) : Type 0 where
    pub key : K
    pub entry : Entry V
    pub there : d.get m key ≡ some entry
    pub result : evict_oldest_at d m ≡ d.remove m key
    pub least : (j : K) (f : Entry V) → d.get m j ≡ some f → entry.expires_at ≤ f.expires_at

  Evicts-iter : (m : d.Map) (es : List (K × Entry V)) → d.iter m ≡ es → 0 < d.len m → Evicts m
  unfolding evict_oldest_at oldest_of
  Evicts-iter m [] eq pos = absurd (omega (arith, ap length eq, d.len-iter m))
  Evicts-iter m ((k, e) ∷ es) eq pos =
      let (r, chosen, (below, least, from)) = oldest_of-some e.expires_at k es in
      let Bound : K × Entry V → Type 0 = λ x. d.get m x.0 ≡ some x.1 in
      let Later : K × Entry V → Type 0 = λ x. r.0 ≤ x.1.expires_at in
      let bound : All Bound ((k, e) ∷ es) = subst (All Bound) eq (d.iter_sound m) in
      let evicted : evict_oldest_at d m ≡ d.remove m r.1 = rw (eq, evict_oldest_at) (rw chosen) in
      let later : (j : K) (f : Entry V) → d.get m j ≡ some f → r.0 ≤ f.expires_at = λ j f h.
        In-All Later ((k, e) ∷ es) (subst (In (j, f)) eq (d.iter_complete m j f h))
          (below, least) in
      elim from [
        | inl (p, q) ↦ record {
          key = k;
          entry = e;
          there = bound.0;
          result = evicted ∙ ap (d.remove m) q;
          least = λ j f h. subst (λ (t : ℕ). t ≤ f.expires_at) p (later j f h);
        }
        | inr (e', i, p) ↦ record {
          key = r.1;
          entry = e';
          there = In-All Bound es i bound.1;
          result = evicted;
          least = λ j f h. subst (λ (t : ℕ). t ≤ f.expires_at) (sym p) (later j f h);
        }
      ]

  pub evict_oldest_at-Evicts : (m : d.Map) → 0 < d.len m → Evicts m
  evict_oldest_at-Evicts m pos = Evicts-iter m (d.iter m) refl pos

  pub len-evict_oldest_at : (m : d.Map) → 0 < d.len m → d.len (evict_oldest_at d m) + 1 ≡ d.len m
  len-evict_oldest_at m pos =
      let x = evict_oldest_at-Evicts m pos in rw x.result (d.len-remove m x.key x.entry x.there)

  -- The entry of a key survives an eviction if any other entry of the map expires before it.
  pub evict_oldest_at_keeps :
      (m : d.Map) (k j : K) (e f : Entry V)
      → d.get m k ≡ some e
      → d.get m j ≡ some f
      → f.expires_at < e.expires_at
      → d.get (evict_oldest_at d m) k ≡ some e
  evict_oldest_at_keeps m k j e f hk hj older =
      let x = evict_oldest_at-Evicts m (omega (arith, d.len-remove m j f hj)) in
      rw (x.result, d.get-remove m x.key k)
        (ground (arith, x.there, x.least j f hj, d.key_eq_iff x.key k))

  -- An eviction adds nothing.
  pub get-evict_oldest_at :
      (m : d.Map) (j : K) (f : Entry V)
      → 0 < d.len m
      → d.get (evict_oldest_at d m) j ≡ some f
      → d.get m j ≡ some f
  get-evict_oldest_at m j f pos h =
      let x = evict_oldest_at-Evicts m pos in
      let there : d.get (d.remove m x.key) j ≡ some f = rw x.result at h in
      ground (arith, there, d.get-remove m x.key j)

  Other-iter :
      (m : d.Map) (k : K) (es : List (K × Entry V))
      → d.iter (d.remove m k) ≡ es
      → 0 < d.len (d.remove m k)
      → (j : K) × (f : Entry V) × (j ≢ k) × (d.get m j ≡ some f)
  Other-iter m k [] eq pos = absurd (omega (arith, ap length eq, d.len-iter (d.remove m k)))
  Other-iter m k ((j, f) ∷ es) eq pos =
      let Bound : K × Entry V → Type 0 = λ x. d.get (d.remove m k) x.0 ≡ some x.1 in
      let bound : All Bound ((j, f) ∷ es) = subst (All Bound) eq (d.iter_sound (d.remove m k)) in
      (
        j,
        f,
        (λ same. ground (arith, bound.0, d.get-remove m k j, d.key_eq_iff k j)),
        ground (arith, bound.0, d.get-remove m k j),
      )

  -- A map with two entries has one beside any key.
  pub other_entry :
      (m : d.Map) (k : K) (e : Entry V)
      → d.get m k ≡ some e
      → 1 < d.len m
      → (j : K) × (f : Entry V) × (j ≢ k) × (d.get m j ≡ some f)
  other_entry m k e h two =
      Other-iter m k (d.iter (d.remove m k)) refl (omega (arith, d.len-remove m k e h))
