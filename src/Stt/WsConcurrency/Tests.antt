-- ===== src/Stt/WsConcurrency/Tests.antt =====
-- Two slots, one to an address.
use native.Mathlib.Decide.{ℕ_discrete}
use nagent.Stt.WsConcurrency.Counters.{tally}
use nagent.Collections.Assoc.{lookup}
use nagent.Prelude.{◌+◌, ◌&&◌, ℕ, ◌≡◌, some, List, [], ◌∷◌, arith}
use nagent.Net.{IpAddr, v4, IpAddr-discrete}
use nagent.Collections.{DashMap, discrete_map}
use nagent.Stt.WsConcurrency.{
  WsConcurrency, new, try_admit, settle, settle_ip, exchange_global, global_in_use, per_ip_in_use,
}
use nagent.Stt.WsConcurrency.RoundTrip.{try_admit_lem, verdict, is_admitted}
use nagent.Stt.WsConcurrency.Threads.{
  Action, reserve, settles, releases, counts_down, evicts, run, start,
}
use nagent.Stt.WsConcurrency.Accounting.{IsAccounted, run_accounts}

abbrev store : DashMap IpAddr ℕ
store = discrete_map IpAddr-discrete ℕ

abbrev peer : IpAddr
peer = v4 203 0 113 7

-- two threads of one address race, and the first session leaves
abbrev race : List Action
race =
    reserve 0 (some peer)
    ∷ reserve 0 (some peer)
    ∷ reserve 1 (some peer)
    ∷ settles 0
    ∷ settles 0
    ∷ releases 0
    ∷ counts_down 0
    ∷ evicts
    ∷ []

run_accounts_example : IsAccounted (run (start {d = store} (new 2 1)) race)
run_accounts_example = run_accounts 2 1 race (omega arith)

abbrev one_session : WsConcurrency store
one_session = (try_admit (new 3 2) (some peer)).0

try_admit_lem_example :
    ((try_admit one_session (some peer)).1 ≡ verdict one_session peer)
    × (global_in_use (try_admit one_session (some peer)).0
        ≡ global_in_use one_session + tally (is_admitted (verdict one_session peer)))
    × (per_ip_in_use (try_admit one_session (some peer)).0 peer
        ≡ tally (is_admitted (verdict one_session peer) && store.key_eq peer peer)
          + per_ip_in_use one_session peer)
unfolding new try_admit settle settle_ip exchange_global lookup IpAddr-discrete ℕ_discrete
try_admit_lem_example = try_admit_lem one_session peer peer (omega arith) (omega arith)
