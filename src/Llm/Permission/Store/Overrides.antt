-- ===== src/Llm/Permission/Store/Overrides.antt =====
-- The overrides of a session are those that were added since it was last cleared.
use nagent.Prelude.{
  ℕ, ◌≡◌, refl, sym, ap, ◌∙◌, Bool, false, ◌&&◌, ◌||◌, if◌then◌else◌, List, [], ◌∷◌, arith, inl,
  inr, Bool-cases, Option-cases,
}
use nagent.Prelude.Text.{Text}
use nagent.Collections.{DashMap, present, is_present}
use nagent.Llm.Permission.Store.{
  SessionMaps, SessionPermissionState, PermissionStore, put, evict_expired, state_or_default,
  set_pending, take_pending, add_override, has_override, clear_session,
}

-- a change of the store, with its clock readings
pub data Change (Json Uuid : Type 0) : Type 0 where
  sets : Uuid → Text → Text → Json → ℕ → ℕ → Change Json Uuid
  takes : Uuid → Text → ℕ → Change Json Uuid
  adds : Uuid → Text → ℕ → Change Json Uuid
  clears : Uuid → Change Json Uuid

module _ {Json Uuid : Type 0} {m : SessionMaps Json}
    (d : DashMap Uuid (SessionPermissionState m)) where
  -- whether `tool` is allowed in the session `u` after a change, if `before` says it of the state
  -- before
  abbrev pub granted : Uuid → Text → Bool → Change Json Uuid → Bool
  granted u tool before (sets _ _ _ _ _ _) = before
  granted u tool before (takes _ _ _) = before
  granted u tool before (adds v name _) = (d.key_eq v u && m.overrides.key_eq name tool) || before
  granted u tool before (clears v) = if d.key_eq v u then false else before

  abbrev pub granted_after : Uuid → Text → Bool → List (Change Json Uuid) → Bool
  granted_after u tool before [] = before
  granted_after u tool before (c ∷ cs) = granted_after u tool (granted u tool before c) cs

module _ {Json Uuid : Type 0} {m : SessionMaps Json}
    {d : DashMap Uuid (SessionPermissionState m)} where
  unfoldable pub change : PermissionStore d → Change Json Uuid → PermissionStore d
  change s (sets u id tool args t t') = set_pending s u id tool args t t'
  change s (takes u id t) = (take_pending s u id t).0
  change s (adds u tool t) = add_override s u tool t
  change s (clears u) = clear_session s u

  unfoldable pub run : PermissionStore d → List (Change Json Uuid) → PermissionStore d
  run s [] = s
  run s (c ∷ cs) = run (change s c) cs

  has_override-eq :
      (s : PermissionStore d) (u : Uuid) (tool : Text)
      → has_override s u tool
        ≡ is_present (m.overrides.get (state_or_default s u).session_overrides tool)
  unfolding has_override
  has_override-eq s u tool = elim (Option-cases (d.get s.inner u)) [
    | inl absent ↦ rw (absent, has_override, m.overrides.get-empty tool) refl
    | inr (state, there) ↦ rw (there, has_override) refl
  ]

  -- a session's state replaced by one with the overrides `o`
  has_override-insert :
      (s : PermissionStore d) (v : Uuid) (state : SessionPermissionState m) (u : Uuid) (tool : Text)
      → has_override (put s v state) u tool ≡ (
          if d.key_eq v u
          then is_present (m.overrides.get state.session_overrides tool)
          else has_override s u tool)
  unfolding has_override
  has_override-insert s v state u tool =
      rw (d.get-insert s.inner v state u, has_override) (ground arith)

  -- a replacement that keeps the overrides
  has_override-kept :
      (s : PermissionStore d) (v : Uuid) (state : SessionPermissionState m) (u : Uuid) (tool : Text)
      → state.session_overrides ≡ (state_or_default s v).session_overrides
      → has_override (put s v state) u tool ≡ has_override s u tool
  has_override-kept s v state u tool same =
      rw (has_override-insert s v state u tool) (elim (Bool-cases (d.key_eq v u)) [
        | inl here ↦ rw here (
            ap (λ o. is_present (m.overrides.get o tool)) same
            ∙ sym (has_override-eq s v tool)
            ∙ ap (λ x. has_override s x tool) ((d.key_eq_iff v u).0 here))
        | inr elsewhere ↦ rw elsewhere refl
      ])

  has_override-change :
      (s : PermissionStore d) (c : Change Json Uuid) (u : Uuid) (tool : Text)
      → has_override (change s c) u tool ≡ granted d u tool (has_override s u tool) c
  unfolding change set_pending clear_session take_pending add_override evict_expired has_override
  has_override-change s (sets v id name args t t') u tool = has_override-kept s v _ u tool refl
  has_override-change s (takes v id t) u tool = has_override-kept s v _ u tool refl
  has_override-change s (adds v name t) u tool =
      let state = state_or_default s v in
      has_override-insert s v _ u tool ∙ elim (Bool-cases (d.key_eq v u)) [
        | inl here ↦
            rw (here, m.overrides.get-insert state.session_overrides name present tool)
              (ground (arith, has_override-eq s v tool, (d.key_eq_iff v u).0 here))
        | inr elsewhere ↦ rw elsewhere refl
      ]
  has_override-change s (clears v) u tool =
      rw (d.get-remove s.inner v u, has_override) (ground arith)

  -- After any changes a tool is allowed in a session exactly if an override was added for it in this
  -- session, or it was allowed before, and the session was not cleared since.
  pub has_override-run :
      (s : PermissionStore d) (cs : List (Change Json Uuid)) (u : Uuid) (tool : Text)
      → has_override (run s cs) u tool ≡ granted_after d u tool (has_override s u tool) cs
  unfolding run
  has_override-run s [] u tool = refl
  has_override-run s (c ∷ cs) u tool =
      has_override-run (change s c) cs u tool
      ∙ ap (λ b. granted_after d u tool b cs) (has_override-change s c u tool)
