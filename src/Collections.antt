-- ===== src/Collections.antt =====
-- The keyed maps that the program keeps its state in.
-- `DashMap` is the interface of the maps of the `dashmap` crate and of `std` (`HashMap`): the
-- operations that the program calls, with the documented behaviour that it relies on as laws.
-- `assoc_map` is an instance: the association lists of `Assoc`.
pub mod Assoc
pub mod Bindings
use nagent.Prelude.{
  ℕ, ◌+◌, ◌≡◌, ◌↔◌, Bool, true, false, Option, none, some, List, length, count, keep_if, All, In,
  if◌then◌else◌, [], ◌∷◌, refl, ap, arith,
}
use Assoc.{
  kept, lookup, without, Distinct, lookup-nil, lookup-without, without_absent, without-Distinct,
  length-without, lookup-keep_if, keep_if-Distinct, lookup_complete, lookup_sound, length-keep_if,
}

pub record DashMap (K V : Type 0) : Type 1 where
  pub Map : Type 0
  -- `K : Eq`
  pub key_eq : K → K → Bool
  pub empty : Map
  pub get : Map → K → Option V
  pub insert : Map → K → V → Map
  pub remove : Map → K → Map
  pub retain : Map → (K → V → Bool) → Map
  -- the entries, in the order in which `iter` visits them
  pub iter : Map → List (K × V)
  pub len : Map → ℕ
  pub key_eq_iff : (j k : K) → (key_eq j k ≡ true) ↔ (j ≡ k)
  pub get-empty : (k : K) → get empty k ≡ none
  pub get-insert :
      (m : Map) (k : K) (v : V) (j : K)
      → get (insert m k v) j ≡ (if key_eq k j then some v else get m j)
  pub get-remove : (m : Map) (k j : K) → get (remove m k) j ≡ (if key_eq k j then none else get m j)
  pub get-retain : (m : Map) (p : K → V → Bool) (k : K) → get (retain m p) k ≡ kept p k (get m k)
  pub len-empty : len empty ≡ 0
  pub len-insert_new : (m : Map) (k : K) (v : V) → get m k ≡ none → len (insert m k v) ≡ len m + 1
  pub len-insert_old : (m : Map) (k : K) (v w : V) → get m k ≡ some w → len (insert m k v) ≡ len m
  pub len-remove : (m : Map) (k : K) (v : V) → get m k ≡ some v → len (remove m k) + 1 ≡ len m
  pub len-retain : (m : Map) (p : K → V → Bool) → len (retain m p) ≡ count (λ e. p e.0 e.1) (iter m)
  pub len-iter : (m : Map) → length (iter m) ≡ len m
  -- `iter` visits the bindings, each and no other
  pub iter_sound : (m : Map) → All (λ e. get m e.0 ≡ some e.1) (iter m)
  pub iter_complete : (m : Map) (k : K) (v : V) → get m k ≡ some v → In (k, v) (iter m)

-- the value of a `HashSet`, which is a map to it
pub data Present : Type 0 where
  present : Present

-- `HashSet::contains`
abbrev pub is_present : Option Present → Bool
is_present none = false
is_present (some _) = true

abbrev AssocMap : {K : Type 0} (V : Type 0) → (K → K → Bool) → Type 0
AssocMap {K} V key_eq = (xs : List (K × V)) × Distinct key_eq xs

module _ {K V : Type 0} (key_eq : K → K → Bool)
    (key_eq_iff : (j k : K) → (key_eq j k ≡ true) ↔ (j ≡ k)) where
  pub lookup-without_self :
      (k : K) (xs : List (K × V)) → lookup key_eq k (without key_eq k xs) ≡ none
  lookup-without_self k xs = ground (arith, lookup-without key_eq key_eq_iff k k xs, key_eq_iff k k)

  abbrev assoc_insert : AssocMap V key_eq → K → V → AssocMap V key_eq
  assoc_insert (xs, d) k v = (
    (k, v) ∷ without key_eq k xs,
    (lookup-without_self k xs, without-Distinct key_eq key_eq_iff k xs d),
  )

  pub lookup-assoc_insert :
      (k : K) (v : V) (j : K) (xs : List (K × V))
      → lookup key_eq j ((k, v) ∷ without key_eq k xs)
        ≡ (if key_eq k j then some v else lookup key_eq j xs)
  unfolding lookup
  lookup-assoc_insert k v j xs = ground (arith, lookup-without key_eq key_eq_iff k j xs)

  abbrev pub assoc_map : DashMap K V
  assoc_map = record {
    Map = AssocMap V key_eq;
    key_eq = key_eq;
    empty = ([], tt);
    get = λ m k. lookup key_eq k m.0;
    insert = assoc_insert;
    remove = λ m k. (without key_eq k m.0, without-Distinct key_eq key_eq_iff k m.0 m.1);
    retain = λ m p. (keep_if (λ e. p e.0 e.1) m.0, keep_if-Distinct key_eq key_eq_iff p m.0 m.1);
    iter = λ m. m.0;
    len = λ m. length m.0;
    key_eq_iff = key_eq_iff;
    get-empty = λ k. lookup-nil key_eq k;
    get-insert = λ m k v j. lookup-assoc_insert k v j m.0;
    get-remove = λ m k j. lookup-without key_eq key_eq_iff k j m.0;
    get-retain = λ m p k. lookup-keep_if key_eq key_eq_iff p k m.0 m.1;
    len-empty = refl;
    len-insert_new = λ m k v h. omega (arith, ap length (without_absent key_eq key_eq_iff k m.0 h));
    len-insert_old = λ m k v w h. omega (arith, length-without key_eq key_eq_iff k w m.0 m.1 h);
    len-remove = λ m k v h. length-without key_eq key_eq_iff k v m.0 m.1 h;
    len-retain = λ m p. length-keep_if (λ e. p e.0 e.1) m.0;
    len-iter = λ m. refl;
    iter_sound = λ m. lookup_sound key_eq key_eq_iff m.0 m.1;
    iter_complete = λ m k v h. lookup_complete key_eq key_eq_iff k v m.0 h;
  }

-- The keys' equality, from a decision.
abbrev pub decided {ℓ} : {A : Type ℓ} → Discrete A → A → A → Bool
decided d a b = elim (d a b) [ yes _ ↦ true | no _ ↦ false ]

pub decided_iff {ℓ} : {A : Type ℓ} (d : Discrete A) (a b : A) → (decided d a b ≡ true) ↔ (a ≡ b)
decided_iff {A} d a b = go (d a b)
  where
    go :
        (x : Dec (a ≡ b)) → (elim x as (λ _. Bool) [ yes _ ↦ true | no _ ↦ false ] ≡ true) ↔ (a ≡ b)
    go (yes e) = ((λ _. e), (λ _. refl))
    go (no n) = ((λ e. cc), (λ e. absurd (n e)))

-- A map whose keys have decidable equality.
abbrev pub discrete_map : {K : Type 0} → Discrete K → (V : Type 0) → DashMap K V
discrete_map {K} k V = assoc_map {K = K} {V = V} (decided k) (decided_iff k)
