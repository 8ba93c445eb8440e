-- ===== src/Llm/DiscoveredTools/Tests.antt =====
-- Two sessions, 1 and 2.
use native.Mathlib.Decide.{ℕ_discrete}
use nagent.Prelude.{ℕ, ◌≡◌, not, ◌&&◌, ◌||◌}
use nagent.Prelude.Text.{Text, codes, is_empty}
use nagent.Collections.{DashMap, discrete_map, Present}
use nagent.Llm.DiscoveredTools.{DiscoveredTools, new, add, clear_session}
use nagent.Llm.DiscoveredTools.Snapshots.{is_recorded, is_recorded-add}

Text-discrete : Discrete Text
Text-discrete = hlevel ℕ_discrete

abbrev names : DashMap Text Present
names = discrete_map Text-discrete Present

abbrev sessions : DashMap ℕ names.Map
sessions = discrete_map ℕ_discrete names.Map

abbrev empty : DiscoveredTools names sessions
empty = new

abbrev used : DiscoveredTools names sessions
used = add empty 1 (codes "weather")

is_recorded-add_example :
    (is_recorded (add used 1 (codes "news")) 2 (codes "news") ≡ (
      (not (is_empty (codes "news"))
        && (sessions.key_eq 1 2 && names.key_eq (codes "news") (codes "news")))
      || is_recorded used 2 (codes "news")))
    × (is_recorded (clear_session used 1) 2 (codes "news")
        ≡ (not (sessions.key_eq 1 2) && is_recorded used 2 (codes "news")))
is_recorded-add_example = is_recorded-add used 1 (codes "news") 2 (codes "news")
