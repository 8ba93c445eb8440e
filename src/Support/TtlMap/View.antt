-- ===== src/Support/TtlMap/View.antt =====
-- What a client can see of a `TtlMap`: the values that have not expired. The operations refine
-- those of a plain map of timed values.
use nagent.Prelude.{
  ℕ, ◌+◌, ◌≤◌, ◌<◌, ◌≡◌, ◌≢◌, ◌⊎◌, ◌∙◌, refl, inl, inr, false, Option, none, some, ltb, leb,
  if◌then◌else◌, arith, Option-cases, count-not,
}
use nagent.Collections.{DashMap}
use nagent.Support.TtlMap.{
  TtlMap, Entry, inserted, evicted_expired, evicted_oldest, sweep_expired_at, insert, get, remove,
  sweep_expired, len, is_live,
}
use nagent.Support.TtlMap.Capacity.{enforce_cap_fits, enforce_cap_hit, IsLast, get-enforce_cap}

-- the value of an entry at the instant `t`
abbrev pub live : {V : Type 0} → Option (Entry V) → ℕ → Option V
live none t = none
live (some e) t = if leb e.expires_at t then none else some e.value

module _ {K V : Type 0} {d : DashMap K (Entry V)} where
  unfoldable pub view : TtlMap d → ℕ → K → Option V
  view m t k = live (d.get m.inner k) t

  -- `get` returns what is visible, and what it does to the map cannot be seen.
  pub get-view :
      (m : TtlMap d) (k : K) (now : ℕ)
      → ((get m k now).1 ≡ view m now k)
        × ((t : ℕ) (j : K) → now ≤ t → view (get m k now).0 t j ≡ view m t j)
  unfolding get view
  get-view m k now = elim (Option-cases (d.get m.inner k)) [
    | inl absent ↦ (rw (absent, get), λ t j h. rw (absent, get))
    | inr (e, there) ↦ (
      rw (there, get) (ground arith),
      λ t j h. rw (there, get) (ground (arith, d.get-remove m.inner k j, d.key_eq_iff k j)),
    )
  ]

  -- A sweep cannot be seen from its instant on.
  pub view-sweep_expired :
      (m : TtlMap d) (now t : ℕ) (j : K) → now ≤ t → view (sweep_expired m now).0 t j ≡ view m t j
  unfolding sweep_expired view
  view-sweep_expired m now t j h = rw (d.get-retain m.inner _ j) (ground arith)

  -- The number that a sweep reports is the number of entries that it takes out.
  pub sweep_expired_count :
      (m : TtlMap d) (now : ℕ) → len (sweep_expired m now).0 + (sweep_expired m now).1 ≡ len m
  unfolding sweep_expired
  sweep_expired_count m now = omega (
    arith,
    d.len-retain m.inner (λ _ e. is_live e now),
    count-not (λ x. is_live x.1 now) (d.iter m.inner),
    d.len-iter m.inner,
  )

  view-remove :
      (m : TtlMap d) (k : K) (t : ℕ) (j : K)
      → view (remove m k).0 t j ≡ (if d.key_eq k j then none else view m t j)
  unfolding remove view
  view-remove m k t j = rw (d.get-remove m.inner k j) (ground arith)

  -- The filled map of `insert` before the cap is enforced.
  fresh : TtlMap d → V → ℕ → Entry V
  fresh m v now = record { value = v; expires_at = now + m.ttl }

  view_filled :
      (m : TtlMap d) (k : K) (v : V) (now t : ℕ) (j : K)
      → now ≤ t
      → live (d.get (d.insert (sweep_expired_at d m.inner now).0 k (fresh m v now)) j) t
        ≡ (if d.key_eq k j then (if ltb t (now + m.ttl) then some v else none) else view m t j)
  unfolding sweep_expired_at view fresh
  view_filled m k v now t j h = rw (d.get-insert _ k _ j, d.get-retain m.inner _ j) (ground arith)

  absent_swept :
      (m : TtlMap d) (k : K) (now : ℕ)
      → d.get m.inner k ≡ none
      → d.get (sweep_expired_at d m.inner now).0 k ≡ none
  unfolding sweep_expired_at
  absent_swept m k now absent = rw (d.get-retain m.inner _ k, absent)

  roomy :
      (m : TtlMap d) (k : K) (v : V) (now : ℕ)
      → d.get m.inner k ≡ none
      → (d.get m.inner k ≢ none) ⊎ (len (sweep_expired m now).0 < m.max_entries)
      → d.len (d.insert (sweep_expired_at d m.inner now).0 k (fresh m v now)) ≤ m.max_entries
  unfolding sweep_expired
  roomy m k v now absent (inl present) = absurd (present absent)
  roomy m k v now absent (inr room) =
      omega (arith, d.len-insert_new _ k (fresh m v now) (absent_swept m k now absent))

  -- `insert` makes its value visible for the time to live and leaves the other keys as they were,
  -- if the key is there or the swept map has room for one entry more.
  pub view-insert :
      (m : TtlMap d) (k : K) (v : V) (now t : ℕ) (j : K)
      → (d.get m.inner k ≢ none) ⊎ (len (sweep_expired m now).0 < m.max_entries)
      → now ≤ t
      → view (insert m k v now).0 t j
        ≡ (if d.key_eq k j then (if ltb t (now + m.ttl) then some v else none) else view m t j)
  unfolding insert view fresh sweep_expired_at
  view-insert m k v now t j room h = elim (Option-cases (d.get m.inner k)) [
    | inl absent ↦
        rw (absent, insert)
          (rw (enforce_cap_fits d _ _ m.max_entries false (roomy m k v now absent room))
            (view_filled m k v now t j h))
    | inr (e, there) ↦ rw (there, insert) (rw (d.get-insert m.inner k _ j) (ground arith))
  ]

  get-filled_self :
      (m : TtlMap d) (k : K) (v : V) (now : ℕ)
      → d.get (d.insert (sweep_expired_at d m.inner now).0 k (fresh m v now)) k
        ≡ some (fresh m v now)
  get-filled_self m k v now = rw (d.get-insert _ k _ k, (d.key_eq_iff k k).1 refl)

  filled-IsLast :
      (m : TtlMap d) (k : K) (v : V) (now : ℕ)
      → ((j : K) (e : Entry V) → d.get m.inner j ≡ some e → e.expires_at < now + m.ttl)
      → IsLast d (d.insert (sweep_expired_at d m.inner now).0 k (fresh m v now)) k (fresh m v now)
  unfolding sweep_expired_at fresh
  filled-IsLast m k v now last j f got ne =
      let swept = d.retain m.inner (λ _ e. is_live e now) in
      last j f (
        ground (
          arith,
          got,
          d.get-insert swept k (fresh m v now) j,
          d.get-retain m.inner (λ _ e. is_live e now) j,
          d.key_eq_iff k j,
        ))

  pub view-insert_self :
      (m : TtlMap d) (k : K) (v : V) (now t : ℕ)
      → 0 < m.max_entries
      → ((j : K) (e : Entry V) → d.get m.inner j ≡ some e → e.expires_at < now + m.ttl)
      → t < now + m.ttl
      → view (insert m k v now).0 t k ≡ some v
  unfolding insert view fresh
  view-insert_self m k v now t pos last h = elim (Option-cases (d.get m.inner k)) [
    | inl absent ↦
        rw (absent, insert)
          (rw
            (get-enforce_cap d _ _ m.max_entries false k (fresh m v now) pos
              (get-filled_self m k v now) (filled-IsLast m k v now last))
            (ground arith))
    | inr (e, there) ↦
        rw (there, insert)
          (rw (d.get-insert m.inner k _ k, (d.key_eq_iff k k).1 refl) (ground arith))
  ]

  -- The value that `insert` stores can be read for the time to live, also where the cap is enforced,
  -- if the cap is positive and the other entries expire before it.
  pub get-insert_self :
      (m : TtlMap d) (k : K) (v : V) (now t : ℕ)
      → 0 < m.max_entries
      → ((j : K) (e : Entry V) → d.get m.inner j ≡ some e → e.expires_at < now + m.ttl)
      → t < now + m.ttl
      → (get (insert m k v now).0 k t).1 ≡ some v
  get-insert_self m k v now t pos last h =
      (get-view (insert m k v now).0 k t).0 ∙ view-insert_self m k v now t pos last h

  -- What `insert` reports of a new key: whether the cap was passed, else whether the sweep took an
  -- entry.
  pub insert_outcome :
      (m : TtlMap d) (k : K) (v : V) (now : ℕ)
      → d.get m.inner k ≡ none
      → (insert m k v now).1 ≡ (
          if ltb (len (sweep_expired m now).0) m.max_entries
          then (if ltb 0 (sweep_expired m now).1 then evicted_expired else inserted)
          else evicted_oldest)
  unfolding insert sweep_expired fresh
  insert_outcome m k v now absent =
      let filled = d.insert (sweep_expired_at d m.inner now).0 k (fresh m v now) in
      rw (absent, insert)
        (rw
          (
            enforce_cap_hit d (d.len filled) filled m.max_entries (omega arith),
            d.len-insert_new _ k (fresh m v now) (absent_swept m k now absent),
          )
          (ground arith))
