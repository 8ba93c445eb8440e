-- ===== src/Support/TtlMap.antt =====
-- crates/nagent-support/src/ttl_map.rs: `TtlMap`, a bounded map whose entries expire. Every call of
-- `Instant::now` is the argument `now`, in nanoseconds. One operation is one step: the model has no
-- second thread between the lines of `insert`.
pub mod Eviction
pub mod Capacity
pub mod View
pub mod Lifecycle
mod Tests
use nagent.Prelude.{
  ℕ, zero, suc, ◌+◌, Bool, true, false, not, Option, none, some, List, [], ◌∷◌, count, ltb, leb,
  if◌then◌else◌,
}
use nagent.Collections.{DashMap}

pub data InsertOutcome : Type 0 where
  inserted evicted_expired evicted_oldest : InsertOutcome

pub record Entry (V : Type 0) : Type 0 where
  pub value : V
  pub expires_at : ℕ

pub record TtlMap {K V : Type 0} (d : DashMap K (Entry V)) : Type 0 where
  pub inner : d.Map
  pub ttl : ℕ
  pub max_entries : ℕ

-- the test of `retain` in the sweep
abbrev pub is_live : {V : Type 0} → Entry V → ℕ → Bool
is_live e now = not (leb e.expires_at now)

module _ {K V : Type 0} (d : DashMap K (Entry V)) where
  -- `none` is the failed assertion
  unfoldable pub new : ℕ → ℕ → Option (TtlMap d)
  new ttl max_entries =
      if ltb 0 max_entries
      then some (record { inner = d.empty; ttl = ttl; max_entries = max_entries })
      else none

  -- `sweep_expired_at`: what is left, and the number of evicted entries that the closure counts
  unfoldable pub sweep_expired_at : d.Map → ℕ → d.Map × ℕ
  sweep_expired_at m now =
      (d.retain m (λ _ e. is_live e now), count (λ e. not (is_live e.1 now)) (d.iter m))

  -- the loop of `evict_oldest_at` over the entries, from the oldest so far
  pub oldest_of : Option (ℕ × K) → List (K × Entry V) → Option (ℕ × K)
  oldest_of oldest [] = oldest
  oldest_of none ((k, e) ∷ es) = oldest_of (some (e.expires_at, k)) es
  oldest_of (some (cur, key)) ((k, e) ∷ es) =
      oldest_of (if ltb e.expires_at cur then some (e.expires_at, k) else some (cur, key)) es

  pub evict_oldest_at : d.Map → d.Map
  unfolding oldest_of
  evict_oldest_at m = elim (oldest_of none (d.iter m)) [ none ↦ m | some (_, key) ↦ d.remove m key ]

  -- the loop `while len > max_entries`, on fuel, with the flag `cap_hit`
  unfoldable pub enforce_cap : ℕ → d.Map → ℕ → Bool → d.Map × Bool
  enforce_cap zero m cap hit = (m, hit)
  enforce_cap (suc fuel) m cap hit =
      let rest = enforce_cap fuel (evict_oldest_at m) cap true in
      if ltb cap (d.len m) then rest else (m, hit)

module _ {K V : Type 0} {d : DashMap K (Entry V)} where
  -- Each eviction takes one entry, so the length is fuel enough (`Capacity`).
  unfoldable pub insert_new : TtlMap d → K → V → ℕ → TtlMap d × InsertOutcome
  unfolding sweep_expired_at
  insert_new m key value now =
      let (swept, expired) = sweep_expired_at d m.inner now in
      let filled = d.insert swept key (record { value = value; expires_at = now + m.ttl }) in
      let (left, cap_hit) = enforce_cap d (d.len filled) filled m.max_entries false in
      (
        record m { inner = left },
        (if cap_hit then evicted_oldest else if ltb 0 expired then evicted_expired else inserted),
      )

  unfoldable pub insert : TtlMap d → K → V → ℕ → TtlMap d × InsertOutcome
  unfolding insert_new
  insert m key value now = elim (d.get m.inner key) [
    | some _ ↦ (
      record m {
        inner = d.insert m.inner key (record { value = value; expires_at = now + m.ttl });
      },
      inserted,
    )
    | none ↦ insert_new m key value now
  ]

  unfoldable pub get : TtlMap d → K → ℕ → TtlMap d × Option V
  get m key now = elim (d.get m.inner key) [
    | none ↦ (m, none)
    | some e ↦
        if leb e.expires_at now
        then (record m { inner = d.remove m.inner key }, none)
        else (m, some e.value)
  ]

  unfoldable pub remove : TtlMap d → K → TtlMap d × Option V
  remove m key = (
    record m { inner = d.remove m.inner key },
    elim (d.get m.inner key) [ none ↦ none | some e ↦ some e.value ],
  )

  abbrev pub len : TtlMap d → ℕ
  len m = d.len m.inner

  unfoldable pub clear : TtlMap d → TtlMap d
  clear m = record m { inner = d.empty }

  unfoldable pub sweep_expired : TtlMap d → ℕ → TtlMap d × ℕ
  unfolding sweep_expired_at
  sweep_expired m now =
      let (left, evicted) = sweep_expired_at d m.inner now in (record m { inner = left }, evicted)
