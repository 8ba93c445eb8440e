-- ===== src/Support/SweepClock.antt =====
-- crates/nagent-support/src/ratelimit.rs: `SweepClock`, the counter that gates the eviction sweeps.
-- `fetch_add` wraps at 2 ^ 64; the state is the counter.
pub mod Cadence
mod Tests
use nagent.Prelude.{ℕ, ◌+◌, ◌-◌, ◌%◌, ◌^◌, Bool, false, ◌==◌, if◌then◌else◌}

pub record SweepClock : Type 0 where
  pub ops_since_sweep : ℕ

abbrev pub new : SweepClock
new = record { ops_since_sweep = 0 }

abbrev pub default_sweep_every : ℕ
default_sweep_every = 1024

unfoldable pub tick : SweepClock → ℕ → SweepClock × Bool
tick c sweep_every = if sweep_every == 0 then (c, false) else (
  record c { ops_since_sweep = (c.ops_since_sweep + 1) % 2 ^ 64 },
  (c.ops_since_sweep % sweep_every) == (sweep_every - 1),
)
