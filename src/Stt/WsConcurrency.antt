-- ===== src/Stt/WsConcurrency.antt =====
-- crates/nagent-server/src/stt/ws_concurrency.rs. The functions below are the atomic actions of the
-- code: a compare-and-swap on the global counter, the work on one per-address counter while its
-- entry is held, and `fetch_sub` and `fetch_update`. `try_admit` and `release_with_ip` compose them
-- for a thread that is not disturbed; `Threads` runs them in any order.
pub mod Threads
pub mod Counters
pub mod Accounting
pub mod RoundTrip
mod Tests
use nagent.Prelude.{
  ℕ, ◌+◌, ◌-◌, ◌%◌, ◌^◌, Bool, true, false, Option, none, some, max, ltb, leb, ◌==◌, ◌&&◌,
  if◌then◌else◌,
}
use nagent.Prelude.Words.{unwrap_or}
use nagent.Net.{IpAddr}
use nagent.Collections.{DashMap}

pub data AdmitDecision : Type 0 where
  admitted global_full per_ip_full : AdmitDecision

pub record WsConcurrency (d : DashMap IpAddr ℕ) : Type 0 where
  pub global_cap : ℕ
  pub per_ip_cap : ℕ
  pub global_count : ℕ
  pub per_ip : d.Map

module _ {d : DashMap IpAddr ℕ} where
  unfoldable pub new : ℕ → ℕ → WsConcurrency d
  new global_cap per_ip_cap = record {
    global_cap = max global_cap 1;
    per_ip_cap = max per_ip_cap 1;
    global_count = 0;
    per_ip = d.empty;
  }

  abbrev pub global_in_use : WsConcurrency d → ℕ
  global_in_use w = w.global_count

  abbrev pub per_ip_in_use : WsConcurrency d → IpAddr → ℕ
  per_ip_in_use w addr = unwrap_or (d.get w.per_ip addr) 0

  -- `compare_exchange(current, current + 1)` on the global counter, after the test of `current`
  unfoldable pub exchange_global : WsConcurrency d → ℕ → WsConcurrency d × Bool
  exchange_global w current =
      if ltb current w.global_cap && w.global_count == current
      then (record w { global_count = current + 1 }, true)
      else (w, false)

  -- the per-address part of `try_admit`; a refusal rolls the global slot back by `fetch_sub`, which
  -- wraps at zero
  unfoldable pub settle_ip : WsConcurrency d → IpAddr → WsConcurrency d × AdmitDecision
  settle_ip w addr =
      let current = unwrap_or (d.get w.per_ip addr) 0 in
      let opened = d.insert w.per_ip addr current in
      if leb w.per_ip_cap current
      then (
        record w { global_count = (w.global_count + 2 ^ 64 - 1) % 2 ^ 64; per_ip = opened },
        per_ip_full,
      )
      else (record w { per_ip = d.insert opened addr (current + 1) }, admitted)

  unfoldable pub settle : WsConcurrency d → Option IpAddr → WsConcurrency d × AdmitDecision
  settle w none = (w, admitted)
  settle w (some addr) = settle_ip w addr

  unfoldable pub try_admit : WsConcurrency d → Option IpAddr → WsConcurrency d × AdmitDecision
  unfolding settle exchange_global settle_ip
  try_admit w peer =
      if leb w.global_cap w.global_count
      then (w, global_full)
      else settle (exchange_global w w.global_count).0 peer

  unfoldable pub release_global : WsConcurrency d → WsConcurrency d
  release_global w = record w { global_count = w.global_count - 1 }

  -- the decrement of `release_with_ip`
  unfoldable pub release_ip : WsConcurrency d → IpAddr → WsConcurrency d
  release_ip w addr = elim (d.get w.per_ip addr) [
    | none ↦ w
    | some v ↦ record w { per_ip = d.insert w.per_ip addr (v - 1) }
  ]

  unfoldable pub evict_zero_entries : WsConcurrency d → WsConcurrency d
  evict_zero_entries w = record w { per_ip = d.retain w.per_ip (λ _ v. ltb 0 v) }

  unfoldable pub release_with_ip : WsConcurrency d → IpAddr → WsConcurrency d
  unfolding release_global release_ip evict_zero_entries
  release_with_ip w addr = evict_zero_entries (release_ip (release_global w) addr)
