-- ===== src/Support/SweepClock/Tests.antt =====
-- Runs of the sweep gate.
use nagent.Prelude.{◌≡◌, refl, true, false}
use nagent.Support.SweepClock.{SweepClock, tick}

abbrev midway : SweepClock
midway = record { ops_since_sweep = 5 }

tick_fourth : (tick (record { ops_since_sweep = 3 }) 4).1 ≡ true
unfolding tick
tick_fourth = refl

tick_never : (tick midway 0).1 ≡ false
unfolding tick
tick_never = refl
