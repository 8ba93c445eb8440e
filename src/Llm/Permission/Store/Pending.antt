-- ===== src/Llm/Permission/Store/Pending.antt =====
-- The approvals that wait for the user: each can be taken once, within its five minutes.
use nagent.Prelude.{
  ℕ, ◌+◌, ◌≤◌, ◌≡◌, refl, ap, ◌∙◌, ◌&&◌, if◌then◌else◌, Option, none, some, arith, inl, inr,
  Bool-cases, ltb,
}
use nagent.Prelude.Words.{duration_since}
use nagent.Prelude.Text.{Text}
use nagent.Collections.{DashMap}
use nagent.Llm.Permission.Store.{
  PendingApproval, SessionMaps, SessionPermissionState, PermissionStore, put, evict_expired,
  pending_ttl, state_or_default, set_pending, take_pending, peek_pending,
}

-- an approval, unless it has expired at `t`
abbrev pub unexpired :
    {Json : Type 0} → Option (PendingApproval Json) → ℕ → Option (PendingApproval Json)
unexpired none t = none
unexpired (some p) t = if ltb (duration_since t p.created_at) pending_ttl then some p else none

unexpired_later :
    {Json : Type 0} (o : Option (PendingApproval Json)) (now t : ℕ)
    → now ≤ t
    → unexpired (unexpired o now) t ≡ unexpired o t
unexpired_later none now t h = refl
unexpired_later (some p) now t h = ground arith

module _ {Json : Type 0} {m : SessionMaps Json} where
  get-evict_expired :
      (state : SessionPermissionState m) (now : ℕ) (id : Text)
      → m.pendings.get (evict_expired state now).pending id
        ≡ unexpired (m.pendings.get state.pending id) now
  unfolding evict_expired
  get-evict_expired state now id = rw (m.pendings.get-retain state.pending _ id) (ground arith)

module _ {Json Uuid : Type 0} {m : SessionMaps Json}
    {d : DashMap Uuid (SessionPermissionState m)} where
  -- what waits in the session `u` under `id` at the instant `t`
  unfoldable pub waiting : PermissionStore d → ℕ → Uuid → Text → Option (PendingApproval Json)
  waiting s t u id = unexpired (m.pendings.get (state_or_default s u).pending id) t

  waiting-put :
      (s : PermissionStore d) (v : Uuid) (state : SessionPermissionState m) (t : ℕ) (u : Uuid)
      (id : Text)
      → waiting (put s v state) t u id
        ≡ (if d.key_eq v u then unexpired (m.pendings.get state.pending id) t else waiting s t u id)
  unfolding waiting
  waiting-put s v state t u id = rw (d.get-insert s.inner v state u) (ground arith)

  -- `take_pending` returns what waits under its id, and from its instant on nothing waits there; what
  -- waits elsewhere stays.
  pub take_pending-waiting :
      (s : PermissionStore d) (v : Uuid) (id : Text) (now t : ℕ) (u : Uuid) (j : Text)
      → now ≤ t
      → ((take_pending s v id now).1 ≡ waiting s now v id)
        × (waiting (take_pending s v id now).0 t u j
            ≡ (if d.key_eq v u && m.pendings.key_eq id j then none else waiting s t u j))
  unfolding take_pending waiting
  take_pending-waiting s v id now t u j h =
      let state = state_or_default s v in
      (
        get-evict_expired state now id,
        waiting-put s v _ t u j ∙ elim (Bool-cases (d.key_eq v u)) [
          | inl here ↦
              rw
                (
                  here,
                  m.pendings.get-remove (evict_expired state now).pending id j,
                  get-evict_expired state now j,
                )
                (ground (
                  arith,
                  unexpired_later (m.pendings.get state.pending j) now t h,
                  ap (λ x. waiting s t x j) ((d.key_eq_iff v u).0 here),
                ))
          | inr elsewhere ↦ rw elsewhere refl
        ],
      )

  -- An approval that `set_pending` records waits for five minutes, in place of an earlier one with
  -- its id; what waits elsewhere stays. (Seen from the instant of its sweep on.)
  pub waiting-set_pending :
      (s : PermissionStore d) (v : Uuid) (id tool : Text) (args : Json) (evicted_at now t : ℕ)
      (u : Uuid) (j : Text)
      → evicted_at ≤ t
      → waiting (set_pending s v id tool args evicted_at now) t u j ≡ (
          if d.key_eq v u && m.pendings.key_eq id j
          then (if ltb t (now + pending_ttl)
              then some (record { tool_name = tool; args = args; created_at = now })
              else none)
          else waiting s t u j)
  unfolding set_pending waiting
  waiting-set_pending s v id tool args evicted_at now t u j h =
      let state = state_or_default s v in
      waiting-put s v _ t u j ∙ elim (Bool-cases (d.key_eq v u)) [
        | inl here ↦
            rw
              (
                here,
                m.pendings.get-insert (evict_expired state evicted_at).pending id _ j,
                get-evict_expired state evicted_at j,
              )
              (ground (
                arith,
                unexpired_later (m.pendings.get state.pending j) evicted_at t h,
                ap (λ x. waiting s t x j) ((d.key_eq_iff v u).0 here),
              ))
        | inr elsewhere ↦ rw elsewhere refl
      ]

  -- `peek_pending` reads no clock, so it finds an approval however long ago it was recorded.
  peek_pending-set_pending :
      (s : PermissionStore d) (v : Uuid) (id tool : Text) (args : Json) (evicted_at now : ℕ)
      → peek_pending (set_pending s v id tool args evicted_at now) v id
        ≡ some (record { tool_name = tool; args = args; created_at = now })
  unfolding peek_pending set_pending
  peek_pending-set_pending s v id tool args evicted_at now =
      let state = evict_expired (state_or_default s v) evicted_at in
      rw
        (
          d.get-insert s.inner v _ v,
          (d.key_eq_iff v v).1 refl,
          peek_pending,
          m.pendings.get-insert state.pending id _ id,
          (m.pendings.key_eq_iff id id).1 refl,
        )
        refl
