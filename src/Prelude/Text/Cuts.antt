-- ===== src/Prelude/Text/Cuts.antt =====
-- Where the functions on text cut it.
use nagent.Prelude.{
  ℕ, ◌≡◌, refl, ap, true, false, not, ◌==◌, some, [], ◌∷◌, ◌++◌, all, arith, inl, inr, Bool-cases,
  Option-cases, and_true, ==_iff,
}
use nagent.Prelude.Text.{Text, is_whitespace, trim_start, strip_prefix, split_at}

-- Leading white space is dropped, up to the first character of another kind.
pub trim_start-append :
    (ws : Text) (c : ℕ) (s : Text)
    → all is_whitespace ws ≡ true
    → is_whitespace c ≡ false
    → trim_start (ws ++ c ∷ s) ≡ c ∷ s
unfolding trim_start
trim_start-append [] c s h black = rw black refl
trim_start-append (w ∷ ws) c s h black =
    let (hw, hs) = and_true (is_whitespace w) (all is_whitespace ws) h in
    rw hw (trim_start-append ws c s hs black)

-- What `trim_start` drops is white space.
pub trim_start_sound :
    (s : Text) → (ws : Text) × (all is_whitespace ws ≡ true) × (s ≡ ws ++ trim_start s)
unfolding trim_start
trim_start_sound [] = ([], refl, refl)
trim_start_sound (c ∷ s) = elim (Bool-cases (is_whitespace c)) [
  | inl white ↦
      let (ws, h, e) = trim_start_sound s in
      (c ∷ ws, rw (white, h) refl, rw white (ap (λ r. c ∷ r) e))
  | inr black ↦ ([], refl, rw black refl)
]

pub strip_prefix-append : (p s : Text) → strip_prefix p (p ++ s) ≡ some s
unfolding strip_prefix
strip_prefix-append [] s = refl
strip_prefix-append (c ∷ p) s = ground (arith, strip_prefix-append p s)

pub strip_prefix_sound : (p s r : Text) → strip_prefix p s ≡ some r → s ≡ p ++ r
unfolding strip_prefix
strip_prefix_sound [] s r h = ground (arith, h)
strip_prefix_sound (c ∷ p) [] r h = ground (arith, h)
strip_prefix_sound (c ∷ p) (d ∷ s) r h = elim (Bool-cases (c == d)) [
  | inl same ↦ grind (arith, ==_iff c d, same, strip_prefix_sound p s r, h)
  | inr other ↦ ground (arith, other, h)
]

pub split_at-append :
    (c : ℕ) (b a : Text) → all (λ d. not (d == c)) b ≡ true → split_at c (b ++ c ∷ a) ≡ some (b, a)
unfolding split_at
split_at-append c [] a h = ground arith
split_at-append c (d ∷ b) a h =
    let (hd, hb) = and_true (not (d == c)) (all (λ x. not (x == c)) b) h in
    ground (arith, hd, split_at-append c b a hb)

pub split_at_sound : (c : ℕ) (s b a : Text) → split_at c s ≡ some (b, a) → s ≡ b ++ c ∷ a
unfolding split_at
split_at_sound c [] b a h = ground (arith, h)
split_at_sound c (d ∷ s) b a h = elim (Bool-cases (d == c)) [
  | inl same ↦ grind (arith, ==_iff d c, same, h)
  | inr other ↦ elim (Option-cases (split_at c s)) [
    | inl missing ↦ grind (arith, other, missing, h)
    | inr ((before, after), found) ↦
        grind (arith, other, found, split_at_sound c s before after found, h)
  ]
]
