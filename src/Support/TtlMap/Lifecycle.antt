-- ===== src/Support/TtlMap/Lifecycle.antt =====
-- The operations that start a `TtlMap`, empty it and take one entry out.
use nagent.Prelude.{
  ℕ, ◌<◌, ◌≡◌, ◌∙◌, refl, none, some, if◌then◌else◌, arith, Option-cases, inl, inr,
}
use nagent.Collections.{DashMap}
use nagent.Support.TtlMap.{TtlMap, Entry, new, get, remove, clear, len}
use nagent.Support.TtlMap.View.{view, get-view}

module _ {K V : Type 0} {d : DashMap K (Entry V)} where
  new-empty :
      (ttl max_entries : ℕ)
      → 0 < max_entries
      → (m : TtlMap d) × (new d ttl max_entries ≡ some m) × (len m ≡ 0)
  unfolding new
  new-empty ttl max_entries h =
      (record { inner = d.empty; ttl = ttl; max_entries = max_entries }, ground arith, d.len-empty)

  view-clear : (m : TtlMap d) (t : ℕ) (k : K) → view (clear m) t k ≡ none
  unfolding clear view
  view-clear m t k = rw (d.get-empty k) refl

  -- `remove` returns the value of its key, and from then on `get` finds the other keys only.
  pub remove-view :
      (m : TtlMap d) (k : K) (v : V) (now t : ℕ) (j : K)
      → view m now k ≡ some v
      → ((remove m k).1 ≡ some v)
        × ((get (remove m k).0 j t).1 ≡ (if d.key_eq k j then none else view m t j))
  unfolding remove view
  remove-view m k v now t j there = (
    elim (Option-cases (d.get m.inner k)) [
      | inl absent ↦ ground (arith, absent, there)
      | inr (e, found) ↦ ground (arith, found, there)
    ],
    (get-view (remove m k).0 j t).0 ∙ rw (d.get-remove m.inner k j) (ground arith),
  )
