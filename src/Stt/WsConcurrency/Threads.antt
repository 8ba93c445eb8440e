-- ===== src/Stt/WsConcurrency/Threads.antt =====
-- Any number of threads that admit and release sessions, as a sequence of atomic actions.
use nagent.Prelude.{ℕ, zero, suc, Bool, true, false, Option, none, some, List, [], ◌∷◌}
use nagent.Net.{IpAddr}
use nagent.Collections.{DashMap}
use nagent.Stt.WsConcurrency.{
  WsConcurrency, AdmitDecision, admitted, global_full, per_ip_full, exchange_global, settle_ip,
  release_global, release_ip, evict_zero_entries,
}

-- The counters, and where the threads are: those that hold a global slot and have still to settle
-- their address, the sessions that run, and the releases that have still to count their address
-- down.
pub record World (d : DashMap IpAddr ℕ) : Type 0 where
  pub counters : WsConcurrency d
  pub settling : List IpAddr
  pub running : List (Option IpAddr)
  pub leaving : List IpAddr

pub data Action : Type 0 where
  -- a compare-and-swap with the value that the thread has loaded, however old
  reserve : ℕ → Option IpAddr → Action
  -- the n-th settling thread looks at its address
  settles : ℕ → Action
  -- the n-th running session gives its global slot back
  releases : ℕ → Action
  -- the n-th leaving thread counts its address down
  counts_down : ℕ → Action
  evicts : Action

-- the n-th element and the others
unfoldable pub pick {ℓ} : {A : Type ℓ} → ℕ → List A → Option (A × List A)
pick n [] = none
pick zero (x ∷ xs) = some (x, xs)
pick (suc n) (x ∷ xs) = elim (pick n xs) [ none ↦ none | some (y, ys) ↦ some (y, x ∷ ys) ]

module _ {d : DashMap IpAddr ℕ} where
  reserved : World d → WsConcurrency d × Bool → Option IpAddr → World d
  reserved s (w, false) peer = s
  reserved s (w, true) none = record s { counters = w; running = none ∷ s.running }
  reserved s (w, true) (some addr) = record s { counters = w; settling = addr ∷ s.settling }

  settled : World d → WsConcurrency d × AdmitDecision → IpAddr → List IpAddr → World d
  settled s (w, admitted) addr rest = record s {
    counters = w;
    settling = rest;
    running = some addr ∷ s.running;
  }
  settled s (w, global_full) addr rest = record s { counters = w; settling = rest }
  settled s (w, per_ip_full) addr rest = record s { counters = w; settling = rest }

  released : World d → Option IpAddr → List (Option IpAddr) → World d
  released s none rest = record s { counters = release_global s.counters; running = rest }
  released s (some addr) rest = record s {
    counters = release_global s.counters;
    running = rest;
    leaving = addr ∷ s.leaving;
  }

  -- An action whose thread is not there does nothing.
  unfoldable pub step : World d → Action → World d
  unfolding reserved settled released
  step s (reserve current peer) = reserved s (exchange_global s.counters current) peer
  step s (settles n) = elim (pick n s.settling) [
    | none ↦ s
    | some (addr, rest) ↦ settled s (settle_ip s.counters addr) addr rest
  ]
  step s (releases n) = elim (pick n s.running) [
    | none ↦ s
    | some (peer, rest) ↦ released s peer rest
  ]
  step s (counts_down n) = elim (pick n s.leaving) [
    | none ↦ s
    | some (addr, rest) ↦ record s { counters = release_ip s.counters addr; leaving = rest }
  ]
  step s evicts = record s { counters = evict_zero_entries s.counters }

  unfoldable pub run : World d → List Action → World d
  run s [] = s
  run s (a ∷ actions) = run (step s a) actions

  unfoldable pub start : WsConcurrency d → World d
  start w = record { counters = w; settling = []; running = []; leaving = [] }
