-- ===== src/Support/TtlMap/Capacity.antt =====
-- `TtlMap.insert` and the cap.
use nagent.Prelude.{
  ℕ, zero, suc, ◌+◌, ◌≤◌, ◌<◌, ◌≡◌, ◌≢◌, refl, inl, inr, Bool, Bool-cases, true, false, some, ltb,
  ltb→lt, ltb→le, le→ltb, arith, Option-cases,
}
use nagent.Collections.{DashMap}
use nagent.Support.TtlMap.{TtlMap, Entry, evict_oldest_at, enforce_cap, insert_new, insert, len}
use nagent.Support.TtlMap.Eviction.{
  evict_oldest_at_keeps, len-evict_oldest_at, get-evict_oldest_at, other_entry,
}

module _ {K V : Type 0} (d : DashMap K (Entry V)) where
  -- With the length as fuel the loop ends at the cap.
  len-enforce_cap :
      (fuel : ℕ) (m : d.Map) (cap : ℕ) (hit : Bool)
      → d.len m ≤ fuel + cap
      → d.len (enforce_cap d fuel m cap hit).0 ≤ cap
  unfolding enforce_cap
  len-enforce_cap zero m cap hit h = omega arith
  len-enforce_cap (suc fuel) m cap hit h = elim (Bool-cases (ltb cap (d.len m))) [
    | inl over ↦
        let lt = ltb→lt cap (d.len m) over in
        rw over (
          len-enforce_cap fuel (evict_oldest_at d m) cap true
            (omega (arith, len-evict_oldest_at d m (omega arith))))
    | inr fits ↦ rw fits (ltb→le cap (d.len m) fits)
  ]

  enforce_cap_hit_true : (fuel : ℕ) (m : d.Map) (cap : ℕ) → (enforce_cap d fuel m cap true).1 ≡ true
  unfolding enforce_cap
  enforce_cap_hit_true zero m cap = refl
  enforce_cap_hit_true (suc fuel) m cap =
      ground (arith, enforce_cap_hit_true fuel (evict_oldest_at d m) cap)

  -- the flag tells whether the map was over the cap
  pub enforce_cap_hit :
      (fuel : ℕ) (m : d.Map) (cap : ℕ)
      → d.len m ≤ fuel + cap
      → (enforce_cap d fuel m cap false).1 ≡ ltb cap (d.len m)
  unfolding enforce_cap
  enforce_cap_hit zero m cap h = ground arith
  enforce_cap_hit (suc fuel) m cap h =
      ground (arith, enforce_cap_hit_true fuel (evict_oldest_at d m) cap)

  -- under the cap the loop does nothing
  pub enforce_cap_fits :
      (fuel : ℕ) (m : d.Map) (cap : ℕ) (hit : Bool)
      → d.len m ≤ cap
      → enforce_cap d fuel m cap hit ≡ (m, hit)
  unfolding enforce_cap
  enforce_cap_fits zero m cap hit h = refl
  enforce_cap_fits (suc fuel) m cap hit h = rw (le→ltb cap (d.len m) h)

  -- The entry that expires last stays.
  abbrev pub IsLast : d.Map → K → Entry V → Type 0
  IsLast m k e = (j : K) (f : Entry V) → d.get m j ≡ some f → j ≢ k → f.expires_at < e.expires_at

  pub get-enforce_cap :
      (fuel : ℕ) (m : d.Map) (cap : ℕ) (hit : Bool) (k : K) (e : Entry V)
      → 0 < cap
      → d.get m k ≡ some e
      → IsLast m k e
      → d.get (enforce_cap d fuel m cap hit).0 k ≡ some e
  unfolding enforce_cap
  get-enforce_cap zero m cap hit k e pos h last = h
  get-enforce_cap (suc fuel) m cap hit k e pos h last = elim (Bool-cases (ltb cap (d.len m))) [
    | inl over ↦
        let lt = ltb→lt cap (d.len m) over in
        let (j, f, ne, there) = other_entry d m k e h (omega arith) in
        let kept = evict_oldest_at_keeps d m k j e f h there (last j f there ne) in
        rw over (
          get-enforce_cap fuel (evict_oldest_at d m) cap true k e pos kept
            (λ i g got. last i g (get-evict_oldest_at d m i g (omega arith) got)))
    | inr fits ↦ rw fits h
  ]

module _ {K V : Type 0} {d : DashMap K (Entry V)} where
  -- the map within its cap
  pub record IsBounded (m : TtlMap d) : Type 0 where
    pub positive : 0 < m.max_entries
    pub within : len m ≤ m.max_entries

  len-insert_new :
      (m : TtlMap d) (k : K) (v : V) (now : ℕ)
      → len (insert_new m k v now).0 ≤ (insert_new m k v now).0.max_entries
  unfolding insert_new
  len-insert_new m k v now = len-enforce_cap d _ _ m.max_entries false (omega arith)

  -- `insert` leaves no more entries than the cap, if there were no more before.
  pub insert-IsBounded :
      (m : TtlMap d) (k : K) (v : V) (now : ℕ) → IsBounded m → IsBounded (insert m k v now).0
  unfolding insert
  insert-IsBounded m k v now b = elim (Option-cases (d.get m.inner k)) [
    | inl absent ↦
        rw (absent, insert)
          (record { positive = unfold insert_new in b.positive; within = len-insert_new m k v now })
    | inr (e, there) ↦
        rw (there, insert)
          (record {
            positive = b.positive;
            within = rw (d.len-insert_old m.inner k _ e there) b.within;
          })
  ]
