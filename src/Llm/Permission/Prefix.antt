-- ===== src/Llm/Permission/Prefix.antt =====
-- What `parse_decision_prefix` reads: the three sentinels, and nothing else.
use nagent.Prelude.{
  ◌≡◌, refl, sym, ap, ◌∙◌, Bool, true, not, ◌==◌, ◌&&◌, ◌||◌, none, some, ◌∷◌, ◌++◌, all, arith,
  inl, inr, Bool-cases, Option-cases, and_true, all-weaken, leb,
}
use nagent.Prelude.Text.{
  Text, is_whitespace, trim_start, strip_prefix, split_at, is_ascii_alphanumeric, is_empty,
  utf8_len,
}
use nagent.Prelude.Text.Cuts.{
  trim_start-append, trim_start_sound, strip_prefix-append, strip_prefix_sound, split_at-append,
  split_at_sound,
}
use nagent.Llm.Permission.{
  DecisionPrefix, approve, approve_always, deny, is_safe_id, is_safe_tool_name, sentinel,
  approve_prefix, approve_always_prefix, deny_prefix, decision_at_start, parse_decision_prefix,
}

-- what the client writes for a decision, before the text `r`
abbrev pub written : DecisionPrefix → Text → Text
written (approve id) r = approve_prefix ++ (id ++ b']' ∷ r)
written (approve_always name) r = approve_always_prefix ++ (name ++ b']' ∷ r)
written (deny id) r = deny_prefix ++ (id ++ b']' ∷ r)

abbrev pub is_safe : DecisionPrefix → Bool
is_safe (approve id) = is_safe_id id
is_safe (approve_always name) = is_safe_tool_name name
is_safe (deny id) = is_safe_id id

safe_id_open : (s : Text) → is_safe_id s ≡ true → all (λ c. not (c == b']')) s ≡ true
unfolding is_safe_id
safe_id_open s h =
    let legal = all (λ c. is_ascii_alphanumeric c || c == b'_' || c == b'-') s in
    let chars = and_true (not (is_empty s) && leb (utf8_len s) 128) legal h in
    all-weaken (λ c. is_ascii_alphanumeric c || c == b'_' || c == b'-') (λ c. not (c == b']')) s
      (λ c e. ground (arith, e)) chars.1

safe_tool_name_open : (s : Text) → is_safe_tool_name s ≡ true → all (λ c. not (c == b']')) s ≡ true
unfolding is_safe_tool_name
safe_tool_name_open s h =
    let legal = all (λ c. is_ascii_alphanumeric c || c == b'_') s in
    let chars = and_true (not (is_empty s) && leb (utf8_len s) 64) legal h in
    all-weaken (λ c. is_ascii_alphanumeric c || c == b'_') (λ c. not (c == b']')) s
      (λ c e. ground (arith, e)) chars.1

module _ (safe : Text → Bool) (decision : Text → DecisionPrefix) where
  sentinel-append :
      (id r : Text)
      → safe id ≡ true
      → all (λ c. not (c == b']')) id ≡ true
      → sentinel safe decision (id ++ b']' ∷ r) ≡ some (decision id, r)
  unfolding sentinel
  sentinel-append id r h free = rw (split_at-append b']' id r free, sentinel, h) refl

  sentinel_sound :
      (s r : Text) (d : DecisionPrefix)
      → sentinel safe decision s ≡ some (d, r)
      → (id : Text) × (d ≡ decision id) × (safe id ≡ true) × (s ≡ id ++ b']' ∷ r)
  unfolding sentinel
  sentinel_sound s r d h = elim (Option-cases (split_at b']' s)) [
    | inl missing ↦ grind (arith, missing, h)
    | inr ((id, after), found) ↦ elim (Bool-cases (safe id)) [
      | inl fine ↦ (
        id,
        grind (arith, found, fine, h),
        fine,
        split_at_sound b']' s id r (grind (arith, found, fine, h)),
      )
      | inr bad ↦ grind (arith, found, bad, h)
    ]
  ]

not_approve : (s : Text) → strip_prefix approve_prefix (approve_always_prefix ++ s) ≡ none
unfolding strip_prefix
not_approve s = refl

deny_not_approve : (s : Text) → strip_prefix approve_prefix (deny_prefix ++ s) ≡ none
unfolding strip_prefix
deny_not_approve s = refl

deny_not_always : (s : Text) → strip_prefix approve_always_prefix (deny_prefix ++ s) ≡ none
unfolding strip_prefix
deny_not_always s = refl

decision_at_start-written :
    (d : DecisionPrefix) (r : Text)
    → is_safe d ≡ true
    → decision_at_start (written d r) ≡ some (d, r)
unfolding decision_at_start
decision_at_start-written (approve id) r safe =
    rw (strip_prefix-append approve_prefix (id ++ b']' ∷ r), decision_at_start)
      (sentinel-append is_safe_id approve id r safe (safe_id_open id safe))
decision_at_start-written (approve_always name) r safe =
    rw
      (
        not_approve (name ++ b']' ∷ r),
        strip_prefix-append approve_always_prefix (name ++ b']' ∷ r),
        decision_at_start,
      )
      (sentinel-append is_safe_tool_name approve_always name r safe (safe_tool_name_open name safe))
decision_at_start-written (deny id) r safe =
    rw
      (
        deny_not_approve (id ++ b']' ∷ r),
        deny_not_always (id ++ b']' ∷ r),
        strip_prefix-append deny_prefix (id ++ b']' ∷ r),
        decision_at_start,
      )
      (sentinel-append is_safe_id deny id r safe (safe_id_open id safe))

decision_is :
    (s : Text) (d k : DecisionPrefix) (r : Text)
    → d ≡ k
    → is_safe k ≡ true
    → s ≡ written k r
    → (is_safe d ≡ true) × (s ≡ written d r)
decision_is s d k r e safe shape = (ap is_safe e ∙ safe, shape ∙ ap (λ x. written x r) (sym e))

-- the shape of a text whose sentinel is read
sentinel_shape :
    (p s rest id r : Text)
    → strip_prefix p s ≡ some rest
    → rest ≡ id ++ b']' ∷ r
    → s ≡ p ++ (id ++ b']' ∷ r)
sentinel_shape p s rest id r cut shape = strip_prefix_sound p s rest cut ∙ ap (λ t. p ++ t) shape

decision_at_start_sound :
    (s : Text) (d : DecisionPrefix) (r : Text)
    → decision_at_start s ≡ some (d, r)
    → (is_safe d ≡ true) × (s ≡ written d r)
unfolding decision_at_start
decision_at_start_sound s d r h = elim (Option-cases (strip_prefix approve_prefix s)) [
  | inr (rest, cut) ↦
      let (id, e, safe, shape) =
        sentinel_sound is_safe_id approve rest r d (grind (arith, cut, h)) in
      decision_is s d (approve id) r e safe (sentinel_shape approve_prefix s rest id r cut shape)
  | inl no_approve ↦ elim (Option-cases (strip_prefix approve_always_prefix s)) [
    | inr (rest, cut) ↦
        let (name, e, safe, shape) =
          sentinel_sound is_safe_tool_name approve_always rest r d
            (grind (arith, no_approve, cut, h)) in
        decision_is s d (approve_always name) r e safe
          (sentinel_shape approve_always_prefix s rest name r cut shape)
    | inl no_always ↦ elim (Option-cases (strip_prefix deny_prefix s)) [
      | inr (rest, cut) ↦
          let (id, e, safe, shape) =
            sentinel_sound is_safe_id deny rest r d
              (grind (arith, no_approve, no_always, cut, h)) in
          decision_is s d (deny id) r e safe (sentinel_shape deny_prefix s rest id r cut shape)
      | inl no_deny ↦ absurd (grind (arith, no_approve, no_always, no_deny, h))
    ]
  ]
]

trim_start-written :
    (ws : Text) (d : DecisionPrefix) (r : Text)
    → all is_whitespace ws ≡ true
    → trim_start (ws ++ written d r) ≡ written d r
trim_start-written ws (approve id) r white = trim_start-append ws b'[' _ white refl
trim_start-written ws (approve_always name) r white = trim_start-append ws b'[' _ white refl
trim_start-written ws (deny id) r white = trim_start-append ws b'[' _ white refl

-- A safe decision, written after white space and before any text, is read back with that text.
pub parse_decision_prefix-written :
    (ws : Text) (d : DecisionPrefix) (r : Text)
    → all is_whitespace ws ≡ true
    → is_safe d ≡ true
    → parse_decision_prefix (ws ++ written d r) ≡ some (d, r)
unfolding parse_decision_prefix
parse_decision_prefix-written ws d r white safe =
    rw (trim_start-written ws d r white) (decision_at_start-written d r safe)

-- Whatever is read as a decision is that decision, safe, written after white space and before the
-- text that is returned.
pub parse_decision_prefix_sound :
    (text : Text) (d : DecisionPrefix) (r : Text)
    → parse_decision_prefix text ≡ some (d, r)
    → (ws : Text) × (all is_whitespace ws ≡ true) × (is_safe d ≡ true) × (text ≡ ws ++ written d r)
unfolding parse_decision_prefix
parse_decision_prefix_sound text d r h =
    let (ws, white, e) = trim_start_sound text in
    let (safe, shape) = decision_at_start_sound (trim_start text) d r h in
    (ws, white, safe, e ∙ ap (λ t. ws ++ t) shape)
