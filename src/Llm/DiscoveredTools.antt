-- ===== src/Llm/DiscoveredTools.antt =====
-- crates/nagent-server/src/llm/discovered_tools.rs: the names of the tools that a session has used.
-- The mutex makes each operation one step; a `HashSet` is a map to the trivial value.
pub mod Snapshots
mod Tests
use nagent.Prelude.{Option, none, some, List, [], map, if◌then◌else◌}
use nagent.Prelude.Words.{unwrap_or}
use nagent.Prelude.Text.{Text, is_empty}
use nagent.Collections.{DashMap, Present, present}

pub record DiscoveredTools {Uuid : Type 0} (names : DashMap Text Present)
    (d : DashMap Uuid names.Map) : Type 0 where
  pub inner : d.Map

module _ {Uuid : Type 0} {names : DashMap Text Present} {d : DashMap Uuid names.Map} where
  unfoldable pub new : DiscoveredTools names d
  new = record { inner = d.empty }

  unfoldable pub add : DiscoveredTools names d → Uuid → Text → DiscoveredTools names d
  add s session tool = if is_empty tool then s else record s {
    inner =
        d.insert s.inner session
          (names.insert (unwrap_or (d.get s.inner session) names.empty) tool present);
  }

  unfoldable pub snapshot : DiscoveredTools names d → Uuid → List Text
  snapshot s session = elim (d.get s.inner session) [
    | none ↦ []
    | some tools ↦ map (λ (e : Text × Present). e.0) (names.iter tools)
  ]

  unfoldable pub clear_session : DiscoveredTools names d → Uuid → DiscoveredTools names d
  clear_session s session_id = record s { inner = d.remove s.inner session_id }
