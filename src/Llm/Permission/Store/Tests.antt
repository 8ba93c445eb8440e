-- ===== src/Llm/Permission/Store/Tests.antt =====
-- Two sessions, 1 and 2, whose JSON values are numbers.
use native.Mathlib.Decide.{ℕ_discrete}
use nagent.Prelude.{ℕ, ◌≡◌, ◌&&◌, if◌then◌else◌, none, List, [], ◌∷◌, arith}
use nagent.Prelude.Text.{Text, codes}
use nagent.Collections.{DashMap, discrete_map, Present}
use nagent.Llm.Permission.Store.{
  PendingApproval, SessionMaps, SessionPermissionState, PermissionStore, new, set_pending,
  take_pending, has_override,
}
use nagent.Llm.Permission.Store.Overrides.{
  Change, sets, takes, adds, clears, run, granted_after, has_override-run,
}
use nagent.Llm.Permission.Store.Pending.{waiting, take_pending-waiting}

Text-discrete : Discrete Text
Text-discrete = hlevel ℕ_discrete

abbrev maps : SessionMaps ℕ
maps = record {
  pendings = discrete_map Text-discrete (PendingApproval ℕ);
  overrides = discrete_map Text-discrete Present;
}

abbrev sessions : DashMap ℕ (SessionPermissionState maps)
sessions = discrete_map ℕ_discrete (SessionPermissionState maps)

abbrev empty : PermissionStore sessions
empty = new

abbrev changes : List (Change ℕ ℕ)
changes =
    adds 1 (codes "web_fetch") 5
    ∷ sets 2 (codes "call_1") (codes "email_send") 0 6 6
    ∷ clears 2
    ∷ takes 2 (codes "call_1") 7
    ∷ []

abbrev asked : PermissionStore sessions
asked = set_pending empty 1 (codes "call_1") (codes "web_fetch") 42 5 6

has_override-run_example :
    has_override (run empty changes) 1 (codes "web_fetch")
    ≡ granted_after sessions 1
        (codes "web_fetch")
        (has_override empty 1 (codes "web_fetch"))
        changes
has_override-run_example = has_override-run empty changes 1 (codes "web_fetch")

take_pending-waiting_example :
    ((take_pending asked 1 (codes "call_1") 8).1 ≡ waiting asked 8 1 (codes "call_1"))
    × (waiting (take_pending asked 1 (codes "call_1") 8).0 9 1 (codes "call_1") ≡ (
        if sessions.key_eq 1 1 && maps.pendings.key_eq (codes "call_1") (codes "call_1")
        then none
        else waiting asked 9 1 (codes "call_1")))
take_pending-waiting_example =
    take_pending-waiting asked 1 (codes "call_1") 8 9 1 (codes "call_1") (omega arith)
