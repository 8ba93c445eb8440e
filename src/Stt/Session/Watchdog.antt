-- ===== src/Stt/Session/Watchdog.antt =====
-- What a pass of the watchdog removes.
use nagent.Prelude.{
  ℕ, ◌+◌, ◌<◌, ◌≤◌, ◌≡◌, ◌⊎◌, inl, inr, refl, sym, ap, ◌∙◌, Bool, true, Option, none, some, List,
  [], ◌∷◌, any, not, Bool-cases, arith, if◌then◌else◌, In, All,
}
use nagent.Collections.Assoc.{kept}
use nagent.Stt.Session.{
  SessionStores, SessionState, SessionMap, is_idle, unregister, idle_sessions, unregister_all,
  sweep,
}

module _ (s : SessionStores) where
  abbrev listed : s.Uuid → List s.Uuid → Bool
  listed j ids = any (λ id. s.sessions.key_eq id j) ids

  get-unregister_all :
      (ids : List s.Uuid) (m : SessionMap s) (j : s.Uuid)
      → s.sessions.get (unregister_all m ids).map j
        ≡ (if listed j ids then none else s.sessions.get m.map j)
  unfolding unregister_all unregister
  get-unregister_all [] m j = refl
  get-unregister_all (id ∷ ids) m j =
      ground (arith, get-unregister_all ids (unregister m id).0 j, s.sessions.get-remove m.map id j)

  channels-unregister_all :
      (ids : List s.Uuid) (m : SessionMap s) → (unregister_all m ids).channels ≡ m.channels
  unfolding unregister_all unregister
  channels-unregister_all [] m = refl
  channels-unregister_all (id ∷ ids) m = channels-unregister_all ids (unregister m id).0

  module _ (m : SessionMap s) (idle_ms : ℕ) (now : s.Uuid → ℕ) where
    -- only bindings of the map
    abbrev Bound : s.Uuid × SessionState s.Uuid → Type 0
    Bound e = s.sessions.get m.map e.0 ≡ some e.1

    listed-idle_sessions :
        (j : s.Uuid) (es : List (s.Uuid × SessionState s.Uuid))
        → All Bound es
        → listed j (idle_sessions es idle_ms now) ≡ true
        → (st : SessionState s.Uuid) × (s.sessions.get m.map j ≡ some st)
          × (is_idle st idle_ms (now j) ≡ true)
    unfolding idle_sessions
    listed-idle_sessions j [] a h = ground (arith, h)
    listed-idle_sessions j ((id, st) ∷ es) a h = elim (Bool-cases (is_idle st idle_ms (now id))) [
      | inl idle ↦ elim (Bool-cases (s.sessions.key_eq id j)) [
        | inl same ↦
            let e = (s.sessions.key_eq_iff id j).0 same in
            (
              st,
              ap (s.sessions.get m.map) (sym e) ∙ a.0,
              ap (λ k. is_idle st idle_ms (now k)) (sym e) ∙ idle,
            )
        | inr other ↦ listed-idle_sessions j es a.1 (ground (arith, h, idle, other))
      ]
      | inr active ↦ listed-idle_sessions j es a.1 (ground (arith, h, active))
    ]

    idle_sessions-listed :
        (j : s.Uuid) (st : SessionState s.Uuid) (es : List (s.Uuid × SessionState s.Uuid))
        → In (j, st) es
        → is_idle st idle_ms (now j) ≡ true
        → listed j (idle_sessions es idle_ms now) ≡ true
    unfolding idle_sessions
    idle_sessions-listed j st [] i idle = elim i [ ]
    idle_sessions-listed j st ((id, st1) ∷ es) (inl e) idle =
        let active : is_idle st1 idle_ms (now id) ≡ true =
          ap (λ p. is_idle p.1 idle_ms (now p.0)) e ∙ idle in
        ground (arith, active, (s.sessions.key_eq_iff id j).1 (ap (λ p. p.0) e))
    idle_sessions-listed j st ((id, st1) ∷ es) (inr i) idle =
        ground (arith, idle_sessions-listed j st es i idle)

    abbrev entries : List (s.Uuid × SessionState s.Uuid)
    entries = s.sessions.iter m.map

    listed_idle :
        (j : s.Uuid) (st : SessionState s.Uuid)
        → s.sessions.get m.map j ≡ some st
        → listed j (idle_sessions entries idle_ms now) ≡ is_idle st idle_ms (now j)
    listed_idle j st h = elim (Bool-cases (is_idle st idle_ms (now j))) [
      | inl idle ↦
          idle_sessions-listed j st entries (s.sessions.iter_complete m.map j st h) idle ∙ sym idle
      | inr active ↦ elim (Bool-cases (listed j (idle_sessions entries idle_ms now))) [
        | inl found ↦
            let (st1, e, idle) =
              listed-idle_sessions j entries (s.sessions.iter_sound m.map) found in
            cc (e, h, idle)
        | inr missing ↦ missing ∙ sym active
      ]
    ]

    kept_idle :
        (j : s.Uuid) (o : Option (SessionState s.Uuid))
        → s.sessions.get m.map j ≡ o
        → (if listed j (idle_sessions entries idle_ms now) then none else o)
          ≡ kept (λ _ st. not (is_idle st idle_ms (now j))) j o
    kept_idle j none h = ground arith
    kept_idle j (some st) h = rw (listed_idle j st h) (ground arith)

  kept-sweep :
      (m : SessionMap s) (idle_ms : ℕ) (now : s.Uuid → ℕ) (j : s.Uuid)
      → s.sessions.get (sweep m idle_ms now).map j
        ≡ kept (λ _ st. not (is_idle st idle_ms (now j))) j (s.sessions.get m.map j)
  unfolding sweep
  kept-sweep m idle_ms now j =
      get-unregister_all (idle_sessions (s.sessions.iter m.map) idle_ms now) m j
      ∙ kept_idle m idle_ms now j (s.sessions.get m.map j) refl

  -- a session before and after a pass that looked at it at the time `now`
  abbrev pub Watched : ℕ → ℕ → Option (SessionState s.Uuid) → Option (SessionState s.Uuid) → Type 0
  Watched idle_ms now none after = after ≡ none
  Watched idle_ms now (some st) after =
      ((after ≡ none) × (st.last_activity_ms + idle_ms ≤ now))
      ⊎ ((after ≡ some st) × (now ≤ st.last_activity_ms + idle_ms))

  kept-Watched :
      (idle_ms now : ℕ) (j : s.Uuid) (o : Option (SessionState s.Uuid))
      → 0 < idle_ms
      → Watched idle_ms now o (kept (λ _ st. not (is_idle st idle_ms now)) j o)
  unfolding is_idle
  kept-Watched idle_ms now j none positive = refl
  kept-Watched idle_ms now j (some st) positive = elim (Bool-cases (is_idle st idle_ms now)) [
    | inl idle ↦ rw idle (inl (refl, ground (arith, idle)))
    | inr active ↦ rw active (inr (refl, ground (arith, active)))
  ]

  -- A pass of the watchdog, with a timeout that is not zero, keeps every session whose last activity is
  -- less than the timeout ago when the pass looks at it, as it is, and removes every session whose last
  -- activity is longer ago; it adds no session and touches no channel.
  pub get-sweep :
      (m : SessionMap s) (idle_ms : ℕ) (now : s.Uuid → ℕ) (j : s.Uuid)
      → 0 < idle_ms
      → Watched idle_ms
          (now j)
          (s.sessions.get m.map j)
          (s.sessions.get (sweep m idle_ms now).map j)
        × ((sweep m idle_ms now).channels ≡ m.channels)
  unfolding sweep
  get-sweep m idle_ms now j positive = (
    rw (kept-sweep m idle_ms now j)
        (kept-Watched idle_ms (now j) j (s.sessions.get m.map j) positive),
    channels-unregister_all (idle_sessions (s.sessions.iter m.map) idle_ms now) m,
  )
