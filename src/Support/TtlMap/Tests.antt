-- ===== src/Support/TtlMap/Tests.antt =====
-- Maps of two entries at most, with a time to live of ten.
use native.Mathlib.Decide.{ℕ_discrete}
use nagent.Prelude.{ℕ, ◌+◌, ◌<◌, ◌≡◌, some, none, arith}
use nagent.Collections.{DashMap, discrete_map}
use nagent.Collections.Assoc.{without}
use nagent.Support.TtlMap.{TtlMap, Entry, sweep_expired, len}
use nagent.Support.TtlMap.Capacity.{IsBounded}
use nagent.Support.TtlMap.View.{view}

abbrev store : DashMap ℕ (Entry ℕ)
store = discrete_map ℕ_discrete (Entry ℕ)

abbrev start : TtlMap store
start = record { inner = store.empty; ttl = 10; max_entries = 2 }

abbrev older : Entry ℕ
older = record { value = 7; expires_at = 10 }

abbrev newer : Entry ℕ
newer = record { value = 8; expires_at = 12 }

-- full at 2
abbrev full : TtlMap store
full = record start { inner = store.insert (store.insert store.empty 1 older) 2 newer }

full_entries : (j : ℕ) (e : Entry ℕ) → store.get full.inner j ≡ some e → e.expires_at < 5 + full.ttl
full_entries j e h = ground (
  arith,
  h,
  store.get-insert (store.insert store.empty 1 older) 2 newer j,
  store.get-insert store.empty 1 older j,
  store.get-empty j,
)

absent_3 : store.get full.inner 3 ≡ none
absent_3 = ground (
  arith,
  store.get-insert (store.insert store.empty 1 older) 2 newer 3,
  store.get-insert store.empty 1 older 3,
  store.get-empty 3,
  store.key_eq_iff 1 3,
  store.key_eq_iff 2 3,
)

full-IsBounded : IsBounded full
unfolding without ℕ_discrete
full-IsBounded = omega arith

swept_room : len (sweep_expired full 11).0 < 2
unfolding sweep_expired without ℕ_discrete
swept_room = omega arith

seen_1 : view full 5 1 ≡ some 7
unfolding view
seen_1 = ground (
  arith,
  store.get-insert (store.insert store.empty 1 older) 2 newer 1,
  store.get-insert store.empty 1 older 1,
  store.key_eq_iff 1 1,
  store.key_eq_iff 2 1,
)
