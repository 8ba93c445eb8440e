-- ===== src/Collections/Bindings.antt =====
-- What holds of all the bindings of a map, after an operation.
use nagent.Prelude.{◌≡◌, ◌∙◌, sym, subst, some, inl, inr, Bool-cases, arith}
use nagent.Collections.{DashMap}

module _ {K V : Type 0} (d : DashMap K V) (P : K → V → Type 0) where
  -- `P` holds of every binding
  abbrev pub AllBound : d.Map → Type 0
  AllBound m = (k : K) (v : V) → d.get m k ≡ some v → P k v

  pub empty-AllBound : AllBound d.empty
  empty-AllBound k v e = absurd (ground (arith, sym (d.get-empty k) ∙ e))

  pub insert-AllBound : (m : d.Map) (k : K) (v : V) → AllBound m → P k v → AllBound (d.insert m k v)
  insert-AllBound m k v a h j w e =
      let found = sym (d.get-insert m k v j) ∙ e in
      elim (Bool-cases (d.key_eq k j)) [
        | inl same ↦
            let bound : v ≡ w = ground (arith, found, same) in
            subst (λ x. P j x) bound (subst (λ i. P i v) ((d.key_eq_iff k j).0 same) h)
        | inr other ↦ a j w (ground (arith, found, other))
      ]

  pub remove-AllBound : (m : d.Map) (k : K) → AllBound m → AllBound (d.remove m k)
  remove-AllBound m k a j w e =
      let found = sym (d.get-remove m k j) ∙ e in
      elim (Bool-cases (d.key_eq k j)) [
        | inl same ↦ absurd (ground (arith, found, same))
        | inr other ↦ a j w (ground (arith, found, other))
      ]
