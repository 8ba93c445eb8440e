-- ===== src/Llm/DiscoveredTools/Snapshots.antt =====
-- The store as a set of names for each session.
use nagent.Prelude.{
  ◌≡◌, ◌↔◌, Bool, true, false, ◌&&◌, not, ◌||◌, refl, ap, sym, ◌∙◌, Option, none, some, [], map, In,
  In-All, In-map, map-In, arith, inl, inr, Bool-cases,
}
use nagent.Prelude.Words.{unwrap_or}
use nagent.Prelude.Text.{Text, is_empty}
use nagent.Collections.{DashMap, Present, present, is_present}
use nagent.Llm.DiscoveredTools.{DiscoveredTools, add, snapshot, clear_session}

present_iff : (o : Option Present) → (is_present o ≡ true) ↔ (o ≡ some present)
present_iff none = ground arith
present_iff (some present) = ((λ _. refl), (λ _. refl))

-- the names that a set gives
members_iff :
    (names : DashMap Text Present) (tools : names.Map) (name : Text)
    → In name (map (λ (e : Text × Present). e.0) (names.iter tools))
      ↔ (is_present (names.get tools name) ≡ true)
members_iff names tools name = (
  (λ i.
      let ((n, v), i', e) = map-In (λ (e : Text × Present). e.0) (names.iter tools) name i in
      let sound =
        In-All (λ e. names.get tools e.0 ≡ some e.1) (names.iter tools) i'
          (names.iter_sound tools) in
      ap is_present (ap (names.get tools) (sym e) ∙ sound)),
  (λ h.
      In-map (λ (e : Text × Present). e.0) (names.iter tools) (name, present)
        (names.iter_complete tools name present ((present_iff (names.get tools name)).0 h))),
)

-- a session without a set has an empty one
or_empty :
    (names : DashMap Text Present) (o : Option names.Map) (name : Text)
    → is_present (names.get (unwrap_or o names.empty) name)
      ≡ elim o as (λ _. Bool) [ none ↦ false | some tools ↦ is_present (names.get tools name) ]
or_empty names none name = ap is_present (names.get-empty name)
or_empty names (some tools) name = refl

module _ {Uuid : Type 0} {names : DashMap Text Present} {d : DashMap Uuid names.Map} where
  -- the sets, as a test
  unfoldable pub is_recorded : DiscoveredTools names d → Uuid → Text → Bool
  is_recorded s session name = elim (d.get s.inner session) [
    | none ↦ false
    | some tools ↦ is_present (names.get tools name)
  ]

  -- A snapshot lists the recorded names of its session and no other.
  pub snapshot_iff :
      (s : DiscoveredTools names d) (session : Uuid) (name : Text)
      → In name (snapshot s session) ↔ (is_recorded s session name ≡ true)
  unfolding snapshot is_recorded
  snapshot_iff s session name = go (d.get s.inner session)
    where
      go :
          (o : Option names.Map)
          → In name (elim o [
            | none ↦ []
            | some tools ↦ map (λ (e : Text × Present). e.0) (names.iter tools)
          ])
            ↔ (elim o as (λ _. Bool) [
              | none ↦ false
              | some tools ↦ is_present (names.get tools name)
            ]
                ≡ true)
      go none = ((λ i. elim i [ ]), (λ h. ground (arith, h)))
      go (some tools) = members_iff names tools name

  recorded_here :
      (s : DiscoveredTools names d) (session : Uuid) (tool name : Text)
      → is_present (
          names.get
            (names.insert (unwrap_or (d.get s.inner session) names.empty) tool present)
            name)
        ≡ (names.key_eq tool name || is_recorded s session name)
  unfolding is_recorded
  recorded_here s session tool name =
      let old = or_empty names (d.get s.inner session) name in
      let get =
        names.get-insert (unwrap_or (d.get s.inner session) names.empty) tool present name in
      ap is_present get ∙ elim (Bool-cases (names.key_eq tool name)) [
        | inl same ↦ rw same refl
        | inr other ↦ rw other old
      ]

  -- A name is recorded in a session after `add` where it was recorded before, and where it is the
  -- name, not an empty one, that `add` is given for that session; `clear_session` forgets the names
  -- of its session and of no other.
  pub is_recorded-add :
      (s : DiscoveredTools names d) (session : Uuid) (tool : Text) (other : Uuid) (name : Text)
      → (is_recorded (add s session tool) other name ≡ (
          (not (is_empty tool) && (d.key_eq session other && names.key_eq tool name))
          || is_recorded s other name))
        × (is_recorded (clear_session s session) other name
            ≡ (not (d.key_eq session other) && is_recorded s other name))
  unfolding is_recorded add clear_session
  is_recorded-add s session tool other name = (added, cleared)
    where
      kept_set : names.Map
      kept_set = names.insert (unwrap_or (d.get s.inner session) names.empty) tool present

      added : is_recorded (add s session tool) other name ≡ (
          (not (is_empty tool) && (d.key_eq session other && names.key_eq tool name))
          || is_recorded s other name)
      added = elim (Bool-cases (is_empty tool)) [
        | inl empty ↦ rw empty refl
        | inr given ↦
            let get = d.get-insert s.inner session kept_set other in
            elim (Bool-cases (d.key_eq session other)) [
              | inl same ↦
                  let e = ap (λ u. is_recorded s u name) ((d.key_eq_iff session other).0 same) in
                  rw (given, get, same, is_recorded)
                    (recorded_here s session tool name ∙ ap (λ x. names.key_eq tool name || x) e)
              | inr differs ↦ rw (given, get, differs, is_recorded) refl
            ]
      ]

      cleared :
          is_recorded (clear_session s session) other name
          ≡ (not (d.key_eq session other) && is_recorded s other name)
      cleared =
          let get = d.get-remove s.inner session other in
          elim (Bool-cases (d.key_eq session other)) [
            | inl same ↦ rw (get, same, is_recorded) refl
            | inr differs ↦ rw (get, differs, is_recorded) refl
          ]
