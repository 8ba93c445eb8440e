-- ===== src/Stt/WsConcurrency/RoundTrip.antt =====
-- `try_admit` and `release_with_ip` of a thread that nobody disturbs.
use nagent.Prelude.{
  ℕ, ◌+◌, ◌-◌, ◌^◌, ◌<◌, ◌≡◌, Bool, true, false, some, leb, arith, if◌then◌else◌, ◌&&◌, ◌∙◌, ap,
  sym,
}
use nagent.Stt.WsConcurrency.Counters.{tally, in_use-release_ip, in_use-evict, release_ip_caps}
use nagent.Net.{IpAddr}
use nagent.Collections.{DashMap}
use nagent.Stt.WsConcurrency.{
  WsConcurrency, AdmitDecision, admitted, global_full, per_ip_full, try_admit, release_with_ip,
  settle, settle_ip, exchange_global, release_global, release_ip, global_in_use, per_ip_in_use,
}

abbrev pub is_admitted : AdmitDecision → Bool
is_admitted admitted = true
is_admitted global_full = false
is_admitted per_ip_full = false

module _ {d : DashMap IpAddr ℕ} (w : WsConcurrency d) (addr : IpAddr) where
  -- what `try_admit` decides, written down without the counters' updates
  abbrev pub verdict : AdmitDecision
  verdict =
      if leb w.global_cap (global_in_use w)
      then global_full
      else if leb w.per_ip_cap (per_ip_in_use w addr)
      then per_ip_full
      else admitted

  decision-try_admit : (try_admit w (some addr)).1 ≡ verdict
  unfolding try_admit settle exchange_global settle_ip
  decision-try_admit = ground arith

  -- `try_admit` of an address refuses at the global cap, else at the cap of the address, else
  -- admits. An admission takes one global slot and one slot of the address; a refusal leaves every
  -- count as it was. The global count and its cap are machine words.
  pub try_admit_lem :
      (a : IpAddr)
      → global_in_use w < w.global_cap + 1
      → w.global_cap < 2 ^ 64
      → ((try_admit w (some addr)).1 ≡ verdict)
        × (global_in_use (try_admit w (some addr)).0
            ≡ global_in_use w + tally (is_admitted verdict))
        × (per_ip_in_use (try_admit w (some addr)).0 a
            ≡ tally (is_admitted verdict && d.key_eq addr a) + per_ip_in_use w a)
  unfolding try_admit settle exchange_global settle_ip
  try_admit_lem a h fits =
      let cur = per_ip_in_use w addr in
      (
        decision-try_admit,
        ground arith,
        ground (
          arith,
          d.get-insert w.per_ip addr cur a,
          d.get-insert (d.insert w.per_ip addr cur) addr (cur + 1) a,
          d.key_eq_iff addr a,
        ),
      )

  -- `release_with_ip` gives back one global slot and one slot of the address.
  release_with_ip_lem :
      (a : IpAddr)
      → (global_in_use (release_with_ip w addr) ≡ global_in_use w - 1)
        × (per_ip_in_use (release_with_ip w addr) a ≡ per_ip_in_use w a - tally (d.key_eq addr a))
  unfolding release_with_ip release_global
  release_with_ip_lem a =
      let r = release_global w in
      ((release_ip_caps r addr).0, in_use-evict (release_ip r addr) a ∙ in_use-release_ip r addr a)

-- An admitted session that ends leaves the global count and the count of every address as they
-- were before `try_admit`.
pub release_with_ip-try_admit :
    {d : DashMap IpAddr ℕ} (w : WsConcurrency d) (addr a : IpAddr)
    → global_in_use w < w.global_cap + 1
    → w.global_cap < 2 ^ 64
    → (try_admit w (some addr)).1 ≡ admitted
    → (global_in_use (release_with_ip (try_admit w (some addr)).0 addr) ≡ global_in_use w)
      × (per_ip_in_use (release_with_ip (try_admit w (some addr)).0 addr) a ≡ per_ip_in_use w a)
release_with_ip-try_admit {d = d} w addr a h fits yes_it_was =
    let after = (try_admit w (some addr)).0 in
    let (d0, g0, p0) = try_admit_lem w addr a h fits in
    let (g1, p1) = release_with_ip_lem after addr a in
    let is = ap is_admitted (sym d0 ∙ yes_it_was) in
    (
      omega (arith, g0, g1, ap tally is),
      omega (arith, p0, p1, ap (λ b. tally (b && d.key_eq addr a)) is),
    )
