-- ===== src/Prelude/Words.antt =====
-- Machine integers and `std::time`. A `Duration` or an `Instant` is its number of nanoseconds.
use Prim.Native.Nat.{ℕ, ◌+◌, ◌-◌, ◌*◌, ◌/◌, ◌%◌, ◌^◌, min}
use mathlib.Core.Option.{Option, none, some}
use nagent.Prelude.Tests.{ltb, if◌then◌else◌}

abbrev pub u32_max : ℕ
u32_max = 2 ^ 32 - 1

abbrev pub u64_max : ℕ
u64_max = 2 ^ 64 - 1

-- `u32::saturating_add`
abbrev pub saturating_add32 : ℕ → ℕ → ℕ
saturating_add32 a b = min (a + b) u32_max

-- `u64::saturating_mul`
abbrev pub saturating_mul64 : ℕ → ℕ → ℕ
saturating_mul64 a b = min (a * b) u64_max

-- `u64::checked_shl`
abbrev pub checked_shl64 : ℕ → ℕ → Option ℕ
checked_shl64 a n = if ltb n 64 then some ((a * 2 ^ n) % 2 ^ 64) else none

abbrev pub unwrap_or {ℓ} : {A : Type ℓ} → Option A → A → A
unwrap_or none d = d
unwrap_or (some a) d = a

abbrev pub nanos_per_sec : ℕ
nanos_per_sec = 10 ^ 9

-- `Duration::from_secs`
abbrev pub from_secs : ℕ → ℕ
from_secs s = s * nanos_per_sec

-- `Duration::as_secs`
abbrev pub as_secs : ℕ → ℕ
as_secs d = d / nanos_per_sec

-- `Instant::duration_since` and `saturating_duration_since`: zero when the clock went back
abbrev pub duration_since : ℕ → ℕ → ℕ
duration_since now earlier = now - earlier
