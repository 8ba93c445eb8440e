-- ===== src/Llm/Permission/Store.antt =====
-- crates/nagent-server/src/llm/permission.rs: `PermissionStore`. The mutex makes each operation one
-- step. The session ids and the JSON values are those of other crates: parameters. The `HashMap`s
-- are the maps of `Collections`; a `HashSet` is a map to the trivial value.
pub mod Overrides
pub mod Pending
mod Tests
use nagent.Prelude.{ℕ, Bool, true, false, Option, none, some, ltb}
use nagent.Prelude.Words.{from_secs, duration_since, unwrap_or}
use nagent.Prelude.Text.{Text}
use nagent.Collections.{DashMap, Present, present, is_present}

abbrev pub pending_ttl : ℕ
pending_ttl = from_secs 300

pub record PendingApproval (Json : Type 0) : Type 0 where
  pub tool_name : Text
  pub args : Json
  pub created_at : ℕ

-- the two maps of a session
pub record SessionMaps (Json : Type 0) : Type 1 where
  pub pendings : DashMap Text (PendingApproval Json)
  pub overrides : DashMap Text Present

pub record SessionPermissionState {Json : Type 0} (m : SessionMaps Json) : Type 0 where
  pub pending : m.pendings.Map
  pub session_overrides : m.overrides.Map

pub record PermissionStore {Json Uuid : Type 0} {m : SessionMaps Json}
    (d : DashMap Uuid (SessionPermissionState m)) : Type 0 where
  pub inner : d.Map

module _ {Json : Type 0} {m : SessionMaps Json} where
  abbrev pub default_state : SessionPermissionState m
  default_state = record { pending = m.pendings.empty; session_overrides = m.overrides.empty }

  unfoldable pub evict_expired : SessionPermissionState m → ℕ → SessionPermissionState m
  evict_expired state now = record state {
    pending =
        m.pendings.retain state.pending
          (λ _ (p : PendingApproval Json). ltb (duration_since now p.created_at) pending_ttl);
  }

module _ {Json Uuid : Type 0} {m : SessionMaps Json}
    {d : DashMap Uuid (SessionPermissionState m)} where
  unfoldable pub new : PermissionStore d
  new = record { inner = d.empty }

  -- `entry(session_id).or_default()`
  abbrev pub state_or_default : PermissionStore d → Uuid → SessionPermissionState m
  state_or_default s session_id = unwrap_or (d.get s.inner session_id) default_state

  -- the session's entry after its change
  abbrev pub put : PermissionStore d → Uuid → SessionPermissionState m → PermissionStore d
  put s session_id state = record s { inner = d.insert s.inner session_id state }

  -- `evicted_at` and `now` are the two readings of the clock
  unfoldable pub set_pending :
      PermissionStore d → Uuid → Text → Text → Json → ℕ → ℕ → PermissionStore d
  set_pending s session_id tool_call_id tool_name args evicted_at now =
      let state = evict_expired (state_or_default s session_id) evicted_at in
      let approval : PendingApproval Json = record {
        tool_name = tool_name;
        args = args;
        created_at = now;
      } in
      put s session_id
        (record state { pending = m.pendings.insert state.pending tool_call_id approval })

  unfoldable pub take_pending :
      PermissionStore d → Uuid → Text → ℕ → PermissionStore d × Option (PendingApproval Json)
  take_pending s session_id tool_call_id now =
      let state = evict_expired (state_or_default s session_id) now in
      (
        put s session_id (record state { pending = m.pendings.remove state.pending tool_call_id }),
        m.pendings.get state.pending tool_call_id,
      )

  unfoldable pub peek_pending : PermissionStore d → Uuid → Text → Option (PendingApproval Json)
  peek_pending s session_id tool_call_id = elim (d.get s.inner session_id) [
    | none ↦ none
    | some state ↦ m.pendings.get state.pending tool_call_id
  ]

  unfoldable pub add_override : PermissionStore d → Uuid → Text → ℕ → PermissionStore d
  add_override s session_id tool_name now =
      let state = evict_expired (state_or_default s session_id) now in
      put s session_id (record state {
        session_overrides = m.overrides.insert state.session_overrides tool_name present;
      })

  unfoldable pub has_override : PermissionStore d → Uuid → Text → Bool
  has_override s session_id tool_name = elim (d.get s.inner session_id) [
    | none ↦ false
    | some state ↦ is_present (m.overrides.get state.session_overrides tool_name)
  ]

  unfoldable pub clear_session : PermissionStore d → Uuid → PermissionStore d
  clear_session s session_id = record { inner = d.remove s.inner session_id }
