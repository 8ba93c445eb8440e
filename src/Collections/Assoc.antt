-- ===== src/Collections/Assoc.antt =====
-- An association list without repeated keys: a map that meets the laws of `DashMap`.
use nagent.Prelude.{
  ◌+◌, ◌≡◌, refl, ◌↔◌, Bool, true, Option, none, some, List, [], ◌∷◌, arith, length, count, keep_if,
  All, In, if◌then◌else◌,
}

module _ {K V : Type 0} (key_eq : K → K → Bool) where
  unfoldable pub lookup : K → List (K × V) → Option V
  lookup k [] = none
  lookup k ((j, v) ∷ xs) = if key_eq j k then some v else lookup k xs

  pub lookup-nil : (k : K) → lookup k [] ≡ none
  unfolding lookup
  lookup-nil k = refl

  unfoldable pub without : K → List (K × V) → List (K × V)
  without k [] = []
  without k ((j, v) ∷ xs) = let rest = without k xs in if key_eq j k then rest else (j, v) ∷ rest

  -- no key stands twice
  abbrev pub Distinct : List (K × V) → Type 0
  Distinct [] = Unit
  Distinct ((j, v) ∷ xs) = (lookup j xs ≡ none) × Distinct xs

-- what a map that retains the entries passing `p` has at `k`
abbrev pub kept {ℓ κ} : {K : Type ℓ} {V : Type κ} → (K → V → Bool) → K → Option V → Option V
kept p k none = none
kept p k (some v) = if p k v then some v else none

module _ {K V : Type 0} (key_eq : K → K → Bool)
    (key_eq_iff : (j k : K) → (key_eq j k ≡ true) ↔ (j ≡ k)) where
  pub lookup-without :
      (k j : K) (xs : List (K × V))
      → lookup key_eq j (without key_eq k xs) ≡ (if key_eq k j then none else lookup key_eq j xs)
  unfolding lookup without
  lookup-without k j [] = ground arith
  lookup-without k j ((i, v) ∷ xs) =
      ground (arith, lookup-without k j xs, key_eq_iff i k, key_eq_iff i j, key_eq_iff k j)

  pub without_absent :
      (k : K) (xs : List (K × V)) → lookup key_eq k xs ≡ none → without key_eq k xs ≡ xs
  unfolding lookup without
  without_absent k [] h = refl
  without_absent k ((i, v) ∷ xs) h = ground (arith, without_absent k xs)

  pub without-Distinct :
      (k : K) (xs : List (K × V)) → Distinct key_eq xs → Distinct key_eq (without key_eq k xs)
  unfolding without
  without-Distinct k [] d = tt
  without-Distinct k ((i, v) ∷ xs) d =
      ground (arith, without-Distinct k xs d.1, lookup-without k i xs, key_eq_iff k i)

  pub length-without :
      (k : K) (v : V) (xs : List (K × V))
      → Distinct key_eq xs
      → lookup key_eq k xs ≡ some v
      → length (without key_eq k xs) + 1 ≡ length xs
  unfolding lookup without
  length-without k v [] d h = cc
  length-without k v ((i, w) ∷ xs) d h =
      ground (arith, length-without k v xs d.1, without_absent k xs, key_eq_iff i k)

  pub lookup-keep_if :
      (p : K → V → Bool) (k : K) (xs : List (K × V))
      → Distinct key_eq xs
      → lookup key_eq k (keep_if (λ e. p e.0 e.1) xs) ≡ kept p k (lookup key_eq k xs)
  unfolding lookup
  lookup-keep_if p k [] d = refl
  lookup-keep_if p k ((i, v) ∷ xs) d = ground (arith, lookup-keep_if p k xs d.1, key_eq_iff i k)

  pub keep_if-Distinct :
      (p : K → V → Bool) (xs : List (K × V))
      → Distinct key_eq xs
      → Distinct key_eq (keep_if (λ e. p e.0 e.1) xs)
  keep_if-Distinct p [] d = tt
  keep_if-Distinct p ((i, v) ∷ xs) d =
      ground (arith, keep_if-Distinct p xs d.1, lookup-keep_if p i xs d.1)

  pub lookup_complete :
      (k : K) (v : V) (xs : List (K × V)) → lookup key_eq k xs ≡ some v → In (k, v) xs
  unfolding lookup
  lookup_complete k v [] h = cc
  lookup_complete k v ((i, w) ∷ xs) h = ground (arith, lookup_complete k v xs, key_eq_iff i k)

  -- the bindings of a tail, seen from the whole list
  All-weaken :
      (i : K) (w : V) (xs ys : List (K × V))
      → lookup key_eq i xs ≡ none
      → All (λ e. lookup key_eq e.0 xs ≡ some e.1) ys
      → All (λ e. lookup key_eq e.0 ((i, w) ∷ xs) ≡ some e.1) ys
  unfolding lookup
  All-weaken i w xs [] h a = tt
  All-weaken i w xs ((j, v) ∷ ys) h a = (ground (arith, key_eq_iff i j), All-weaken i w xs ys h a.1)

  pub lookup_sound :
      (xs : List (K × V)) → Distinct key_eq xs → All (λ e. lookup key_eq e.0 xs ≡ some e.1) xs
  unfolding lookup
  lookup_sound [] d = tt
  lookup_sound ((i, v) ∷ xs) d =
      (ground (arith, key_eq_iff i i), All-weaken i v xs xs d.0 (lookup_sound xs d.1))

pub length-keep_if : {A : Type 0} (p : A → Bool) (xs : List A) → length (keep_if p xs) ≡ count p xs
length-keep_if p [] = refl
length-keep_if p (x ∷ xs) = ground (arith, length-keep_if p xs)
