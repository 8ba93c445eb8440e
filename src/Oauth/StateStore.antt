-- ===== src/Oauth/StateStore.antt =====
-- crates/nagent-server/src/oauth/state.rs. The random bytes of a token are an argument, as are the
-- readings of the two clocks: `now` is an instant, `now_unix` the seconds of the wall clock. The
-- payload and the base64 coding are those of other crates: parameters.
pub mod RoundTrip
mod Tests
use nagent.Prelude.{ℕ, ◌-◌, ◌*◌, Bool, Option, none, some, leb, if◌then◌else◌, map}
use nagent.Prelude.Words.{from_secs}
use nagent.Prelude.Text.{Text}
use nagent.Collections.{DashMap}
use nagent.Support.TtlMap
use nagent.Support.TtlMap.{TtlMap, Entry, insert, remove, get}

abbrev pub max_state_entries : ℕ
max_state_entries = 16 * 1024

abbrev pub state_ttl : ℕ
state_ttl = from_secs 600

pub record StateStoreEntry (Json : Type 0) : Type 0 where
  pub created_at_unix : ℕ
  pub payload : Json

module _ {Json : Type 0} where
  abbrev pub entry_now : Json → ℕ → StateStoreEntry Json
  entry_now payload now_unix = record { created_at_unix = now_unix; payload = payload }

  unfoldable pub is_expired : StateStoreEntry Json → ℕ → Bool
  is_expired e now_unix = leb state_ttl (from_secs (now_unix - e.created_at_unix))

  -- `None` for an entry that has expired
  unfoldable pub if_fresh : Option (StateStoreEntry Json) → ℕ → Option (StateStoreEntry Json)
  if_fresh none now_unix = none
  if_fresh (some e) now_unix = if is_expired e now_unix then none else some e

pub record StateStore {Json : Type 0} (d : DashMap Text (Entry (StateStoreEntry Json)))
    : Type 0 where
  pub inner : TtlMap d

-- `Option::map`
abbrev on_some : {A B : Type 0} → (A → B) → Option A → Option B
on_some f none = none
on_some f (some a) = some (f a)

unfoldable pub new :
    {Json : Type 0} (d : DashMap Text (Entry (StateStoreEntry Json))) → Option (StateStore d)
new d = on_some (λ m. record { inner = m }) (TtlMap.new d state_ttl max_state_entries)

module _ {Json : Type 0} {d : DashMap Text (Entry (StateStoreEntry Json))}
    (base64_url : Text → Text) where
  unfoldable pub push : StateStore d → Text → Json → ℕ → ℕ → StateStore d × Text
  push s bytes payload now now_unix = (
    record { inner = (insert s.inner (base64_url bytes) (entry_now payload now_unix) now).0 },
    base64_url bytes,
  )

module _ {Json : Type 0} {d : DashMap Text (Entry (StateStoreEntry Json))} where
  unfoldable pub pop : StateStore d → Text → ℕ → StateStore d × Option (StateStoreEntry Json)
  pop s token now_unix =
      (record { inner = (remove s.inner token).0 }, if_fresh (remove s.inner token).1 now_unix)

  unfoldable pub peek : StateStore d → Text → ℕ → ℕ → StateStore d × Option (StateStoreEntry Json)
  peek s token now now_unix =
      (record { inner = (get s.inner token now).0 }, if_fresh (get s.inner token now).1 now_unix)
