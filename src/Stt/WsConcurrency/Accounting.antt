-- ===== src/Stt/WsConcurrency/Accounting.antt =====
-- The counters count the sessions, under every interleaving of the atomic actions.
use nagent.Prelude.{
  ℕ, zero, suc, ◌+◌, ◌^◌, ◌≤◌, ◌<◌, ◌≡◌, Bool, false, Option, none, some, List, [], ◌∷◌, arith,
  Option-cases, Bool-cases, inl, inr, count, length,
}
use nagent.Net.{IpAddr}
use nagent.Collections.{DashMap}
use nagent.Stt.WsConcurrency.{
  new, per_ip_in_use, exchange_global, settle_ip, release_global, evict_zero_entries,
}
use nagent.Stt.WsConcurrency.Threads.{
  World, Action, reserve, settles, releases, counts_down, evicts, pick, step, run, start,
}
use nagent.Stt.WsConcurrency.Counters.{
  tally, exchange_global_lem, settle_ip_lem, settle_caps, release_ip_caps, in_use-settle_admitted,
  in_use-settle_refused, in_use-release_ip, in_use-evict,
}

pick-length :
    {A : Type 0} (n : ℕ) (xs : List A) {x : A} {rest : List A}
    → pick n xs ≡ some (x, rest)
    → length xs ≡ suc (length rest)
unfolding pick
pick-length n [] h = cc
pick-length zero (y ∷ ys) h = ground arith
pick-length (suc n) (y ∷ ys) {x} {rest} h = elim (Option-cases (pick n ys)) [
  | inl gone ↦ cc (rw (gone, pick) at h)
  | inr ((z, zs), got) ↦
      let same : some (z, y ∷ zs) ≡ some (x, rest) = rw (got, pick) at h in
      ground (arith, same, pick-length n ys got)
]

pick-count :
    {A : Type 0} (p : A → Bool) (n : ℕ) (xs : List A) {x : A} {rest : List A}
    → pick n xs ≡ some (x, rest)
    → count p xs ≡ tally (p x) + count p rest
unfolding pick
pick-count p n [] h = cc
pick-count p zero (y ∷ ys) h = ground arith
pick-count p (suc n) (y ∷ ys) {x} {rest} h = elim (Option-cases (pick n ys)) [
  | inl gone ↦ cc (rw (gone, pick) at h)
  | inr ((z, zs), got) ↦
      let same : some (z, y ∷ zs) ≡ some (x, rest) = rw (got, pick) at h in
      ground (arith, same, pick-count p n ys got)
]

-- whether a running session holds a slot of the address
abbrev pub holds : DashMap IpAddr ℕ → IpAddr → Option IpAddr → Bool
holds d a none = false
holds d a (some addr) = d.key_eq addr a

module _ {d : DashMap IpAddr ℕ} where
  -- the slots of an address that are in use
  abbrev pub slots : World d → IpAddr → ℕ
  slots s a = count (holds d a) s.running + count (λ addr. d.key_eq addr a) s.leaving

  pub record IsAccounted (s : World d) : Type 0 where
    pub cap : s.counters.global_cap < 2 ^ 64
    pub globals : s.counters.global_count ≡ length s.settling + length s.running
    pub within : s.counters.global_count ≤ s.counters.global_cap
    pub addresses : (a : IpAddr) → per_ip_in_use s.counters a ≡ slots s a
    pub per_ip_within : (a : IpAddr) → per_ip_in_use s.counters a ≤ s.counters.per_ip_cap

module _ {d : DashMap IpAddr ℕ} (s : World d) (v : IsAccounted s) where
  reserve-IsAccounted :
      (current : ℕ) (peer : Option IpAddr) → IsAccounted (step s (reserve current peer))
  unfolding step
  reserve-IsAccounted current none = elim (Bool-cases (exchange_global s.counters current).1) [
    | inl took ↦
        let (free, result) = exchange_global_lem s.counters current took in
        rw (took, result)
          (record {
            cap = v.cap;
            globals = omega (arith, v.globals);
            within = omega arith;
            addresses = v.addresses;
            per_ip_within = v.per_ip_within;
          })
    | inr missed ↦ rw missed v
  ]
  reserve-IsAccounted current (some addr) =
      elim (Bool-cases (exchange_global s.counters current).1) [
        | inl took ↦
            let (free, result) = exchange_global_lem s.counters current took in
            rw (took, result)
              (record {
                cap = v.cap;
                globals = omega (arith, v.globals);
                within = omega arith;
                addresses = v.addresses;
                per_ip_within = v.per_ip_within;
              })
        | inr missed ↦ rw missed v
      ]

  settle_cap : (addr : IpAddr) → (settle_ip s.counters addr).0.global_cap < 2 ^ 64
  settle_cap addr = omega (arith, settle_caps s.counters addr, v.cap)

  settles-IsAccounted : (n : ℕ) → IsAccounted (step s (settles n))
  unfolding step
  settles-IsAccounted n = elim (Option-cases (pick n s.settling)) [
    | inl gone ↦ rw (gone, step) v
    | inr ((addr, rest), got) ↦ elim (settle_ip_lem s.counters addr) [
      | inl (took, same, free) ↦
          rw (got, step)
            (rw took (record {
              cap = settle_cap addr;
              globals = omega (arith, same, v.globals, pick-length n s.settling got);
              within = omega (arith, same, v.within, settle_caps s.counters addr);
              addresses =
                  λ a. ground (arith, v.addresses a, in_use-settle_admitted s.counters addr a took);
              per_ip_within = λ a. ground (
                arith,
                in_use-settle_admitted s.counters addr a took,
                settle_caps s.counters addr,
                v.per_ip_within a,
                d.key_eq_iff addr a,
              );
            }))
      | inr (full, rolled) ↦
          rw (got, step)
            (rw full (record {
              cap = settle_cap addr;
              globals =
                  omega (arith, rolled, v.globals, v.within, v.cap, pick-length n s.settling got);
              within = omega (
                arith,
                rolled,
                v.globals,
                v.within,
                v.cap,
                settle_caps s.counters addr,
                pick-length n s.settling got,
              );
              addresses = λ a. rw (in_use-settle_refused s.counters addr a full) (v.addresses a);
              per_ip_within = λ a. omega (
                arith,
                in_use-settle_refused s.counters addr a full,
                v.per_ip_within a,
                settle_caps s.counters addr,
              );
            }))
    ]
  ]

  releases-IsAccounted : (n : ℕ) → IsAccounted (step s (releases n))
  unfolding step release_global
  releases-IsAccounted n = elim (Option-cases (pick n s.running)) [
    | inl gone ↦ rw (gone, step) v
    | inr ((none, rest), got) ↦
        rw (got, step)
          (record {
            cap = v.cap;
            globals = omega (arith, v.globals, pick-length n s.running got);
            within = omega (arith, v.within);
            addresses = λ a. omega (arith, v.addresses a, pick-count (holds d a) n s.running got);
            per_ip_within = v.per_ip_within;
          })
    | inr ((some addr, rest), got) ↦
        rw (got, step)
          (record {
            cap = v.cap;
            globals = omega (arith, v.globals, pick-length n s.running got);
            within = omega (arith, v.within);
            addresses = λ a. ground (arith, v.addresses a, pick-count (holds d a) n s.running got);
            per_ip_within = v.per_ip_within;
          })
  ]

  counts_down-IsAccounted : (n : ℕ) → IsAccounted (step s (counts_down n))
  unfolding step
  counts_down-IsAccounted n = elim (Option-cases (pick n s.leaving)) [
    | inl gone ↦ rw (gone, step) v
    | inr ((addr, rest), got) ↦
        let (g, gc, pc) = release_ip_caps s.counters addr in
        rw (got, step)
          (record {
            cap = omega (arith, gc, v.cap);
            globals = omega (arith, g, v.globals);
            within = omega (arith, g, gc, v.within);
            addresses = λ a. omega (
              arith,
              v.addresses a,
              in_use-release_ip s.counters addr a,
              pick-count (λ b. d.key_eq b a) n s.leaving got,
            );
            per_ip_within =
                λ a. omega (arith, pc, in_use-release_ip s.counters addr a, v.per_ip_within a);
          })
  ]

  evicts-IsAccounted : IsAccounted (step s evicts)
  unfolding step
  evicts-IsAccounted = record {
    cap = unfold evict_zero_entries in v.cap;
    globals = unfold evict_zero_entries in v.globals;
    within = unfold evict_zero_entries in v.within;
    addresses = λ a. rw (in_use-evict s.counters a) (v.addresses a);
    per_ip_within =
        λ a. rw (in_use-evict s.counters a) (unfold evict_zero_entries in v.per_ip_within a);
  }

module _ {d : DashMap IpAddr ℕ} where
  pub step-IsAccounted : (s : World d) (a : Action) → IsAccounted s → IsAccounted (step s a)
  step-IsAccounted s (reserve current peer) v = reserve-IsAccounted s v current peer
  step-IsAccounted s (settles n) v = settles-IsAccounted s v n
  step-IsAccounted s (releases n) v = releases-IsAccounted s v n
  step-IsAccounted s (counts_down n) v = counts_down-IsAccounted s v n
  step-IsAccounted s evicts v = evicts-IsAccounted s v

  run-IsAccounted :
      (s : World d) (actions : List Action) → IsAccounted s → IsAccounted (run s actions)
  unfolding run
  run-IsAccounted s [] v = v
  run-IsAccounted s (a ∷ actions) v = run-IsAccounted (step s a) actions (step-IsAccounted s a v)

  start-IsAccounted :
      (global_cap per_ip_cap : ℕ)
      → global_cap < 2 ^ 64
      → IsAccounted (start {d = d} (new global_cap per_ip_cap))
  unfolding start new
  start-IsAccounted global_cap per_ip_cap h = record {
    cap = omega arith;
    globals = omega arith;
    within = omega arith;
    addresses = λ a. rw (d.get-empty a);
    per_ip_within = λ a. rw (d.get-empty a) (omega arith);
  }

  -- Whatever the threads do, in whatever order and with however stale a value each
  -- compare-and-swap is tried: the global counter is the number of threads and sessions that hold a
  -- slot and stays within its cap, and the counter of each address is the number of its slots in use
  -- and stays within the cap of an address. The roll-back of a refusal never wraps. (The global cap
  -- fits a 64-bit `usize`.)
  pub run_accounts :
      (global_cap per_ip_cap : ℕ) (actions : List Action)
      → global_cap < 2 ^ 64
      → IsAccounted (run (start {d = d} (new global_cap per_ip_cap)) actions)
  run_accounts global_cap per_ip_cap actions h =
      run-IsAccounted _ actions (start-IsAccounted global_cap per_ip_cap h)
