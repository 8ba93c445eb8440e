-- ===== src/Support/SweepClock/Cadence.antt =====
-- When the sweep gate opens.
use nagent.Prelude.{ℕ, zero, suc, ◌+◌, ◌-◌, ◌/◌, ◌%◌, ◌^◌, ◌<◌, ◌≡◌, ◌≢◌, arith, if◌then◌else◌}
use nagent.Support.SweepClock.{SweepClock, tick}

-- How often the gate opens over the next `n` calls.
pub opened : ℕ → SweepClock → ℕ → ℕ
opened zero c every = 0
opened (suc n) c every =
    let (c', open_now) = tick c every in
    let rest = opened n c' every in if open_now then suc rest else rest

div_step_open : (a q : ℕ) → 0 < q → a % q ≡ q - 1 → (a + 1) / q ≡ a / q + 1
div_step_open a q pos h = grind arith

div_step_shut : (a q : ℕ) → 0 < q → a % q ≢ q - 1 → (a + 1) / q ≡ a / q
div_step_shut a q pos h = grind arith

-- Over `n` calls the gate opens once for each multiple of a positive `every` that the counter passes, as
-- long as the 64-bit counter does not wrap.
pub opened-eq-div :
    (n every : ℕ) (c : SweepClock)
    → 0 < every
    → c.ops_since_sweep + n < 2 ^ 64
    → opened n c every + c.ops_since_sweep / every ≡ (c.ops_since_sweep + n) / every
unfolding opened tick
opened-eq-div zero every c pos fits = grind arith
opened-eq-div (suc n) every c pos fits =
    let a = c.ops_since_sweep in
    let rest = opened-eq-div n every (tick c every).0 pos in
    ground (arith, rest, div_step_open a every pos, div_step_shut a every pos)

-- Any `every` calls in a row open the gate exactly once.
pub opened_once :
    (every : ℕ) (c : SweepClock)
    → 0 < every
    → c.ops_since_sweep + every < 2 ^ 64
    → opened every c every ≡ 1
opened_once every c pos fits = grind (arith, opened-eq-div every every c pos fits)
