-- ===== src/Stt/WsConcurrency/Counters.antt =====
-- What each atomic action does to the counters.
use nagent.Prelude.{
  ℕ, ◌+◌, ◌-◌, ◌%◌, ◌^◌, ◌<◌, ◌≡◌, Bool, true, false, arith, Option-cases, ◌⊎◌, inl, inr,
}
use nagent.Net.{IpAddr}
use nagent.Collections.{DashMap}
use nagent.Stt.WsConcurrency.{
  WsConcurrency, admitted, per_ip_full, per_ip_in_use, exchange_global, settle_ip, release_ip,
  evict_zero_entries,
}

-- 1 if the test holds
abbrev pub tally : Bool → ℕ
tally true = 1
tally false = 0

module _ {d : DashMap IpAddr ℕ} (w : WsConcurrency d) where
  -- A successful exchange takes one slot below the cap.
  pub exchange_global_lem :
      (current : ℕ)
      → (exchange_global w current).1 ≡ true
      → (w.global_count < w.global_cap)
        × ((exchange_global w current).0 ≡ record w { global_count = w.global_count + 1 })
  unfolding exchange_global
  exchange_global_lem current h = (ground arith, ground arith)

  pub in_use-settle_admitted :
      (addr a : IpAddr)
      → (settle_ip w addr).1 ≡ admitted
      → per_ip_in_use (settle_ip w addr).0 a ≡ tally (d.key_eq addr a) + per_ip_in_use w a
  unfolding settle_ip
  in_use-settle_admitted addr a h =
      let cur = per_ip_in_use w addr in
      ground (
        arith,
        d.get-insert w.per_ip addr cur a,
        d.get-insert (d.insert w.per_ip addr cur) addr (cur + 1) a,
        d.key_eq_iff addr a,
      )

  pub in_use-settle_refused :
      (addr a : IpAddr)
      → (settle_ip w addr).1 ≡ per_ip_full
      → per_ip_in_use (settle_ip w addr).0 a ≡ per_ip_in_use w a
  unfolding settle_ip
  in_use-settle_refused addr a h =
      let cur = per_ip_in_use w addr in
      ground (
        arith,
        d.get-insert w.per_ip addr cur a,
        d.get-insert (d.insert w.per_ip addr cur) addr (cur + 1) a,
        d.key_eq_iff addr a,
      )

  pub settle_ip_lem :
      (addr : IpAddr)
      → (((settle_ip w addr).1 ≡ admitted)
          × ((settle_ip w addr).0.global_count ≡ w.global_count)
          × (per_ip_in_use w addr < w.per_ip_cap))
        ⊎ (((settle_ip w addr).1 ≡ per_ip_full)
            × ((settle_ip w addr).0.global_count ≡ (w.global_count + 2 ^ 64 - 1) % 2 ^ 64))
  unfolding settle_ip
  settle_ip_lem addr = ground arith

  pub in_use-release_ip :
      (addr a : IpAddr)
      → per_ip_in_use (release_ip w addr) a ≡ per_ip_in_use w a - tally (d.key_eq addr a)
  unfolding release_ip
  in_use-release_ip addr a = elim (Option-cases (d.get w.per_ip addr)) [
    | inl absent ↦ rw (absent, release_ip) (ground (arith, absent, d.key_eq_iff addr a))
    | inr (v, there) ↦
        rw (there, release_ip)
          (rw (d.get-insert w.per_ip addr (v - 1) a) (ground (arith, there, d.key_eq_iff addr a)))
  ]

  pub in_use-evict : (a : IpAddr) → per_ip_in_use (evict_zero_entries w) a ≡ per_ip_in_use w a
  unfolding evict_zero_entries
  in_use-evict a = rw (d.get-retain w.per_ip _ a) (ground arith)

  pub settle_caps :
      (addr : IpAddr)
      → ((settle_ip w addr).0.global_cap ≡ w.global_cap)
        × ((settle_ip w addr).0.per_ip_cap ≡ w.per_ip_cap)
  unfolding settle_ip
  settle_caps addr = (ground arith, ground arith)

  pub release_ip_caps :
      (addr : IpAddr)
      → ((release_ip w addr).global_count ≡ w.global_count)
        × ((release_ip w addr).global_cap ≡ w.global_cap)
        × ((release_ip w addr).per_ip_cap ≡ w.per_ip_cap)
  unfolding release_ip
  release_ip_caps addr = (ground arith, ground arith, ground arith)
