-- ===== src/Support/Windowed/Backoff.antt =====
-- The waits that `WindowedBucket.check` reports when it denies.
use native.Mathlib.Nat.{pow-le-pow_right, pow-suc}
use nagent.Prelude.{
  ℕ, suc, ◌+◌, ◌-◌, ◌*◌, ◌^◌, ◌≤◌, ◌<◌, ◌≡◌, min, max, arith, leb, Bool-cases, inl, inr, leb→le,
  leb→lt, if◌then◌else◌,
}
use nagent.Prelude.Words.{
  u32_max, u64_max, nanos_per_sec, checked_shl64, saturating_add32, unwrap_or, from_secs, as_secs,
  duration_since,
}
use nagent.Support.Windowed.{WindowedBucket, Limits, deny, retry_after, current, spend, check}

pow2-le_20 : (e : ℕ) → e ≤ 20 → 2 ^ e ≤ 2 ^ 20
pow2-le_20 e h = pow-le-pow_right (omega arith) h

checked_shl64_small : (e : ℕ) → e ≤ 20 → unwrap_or (checked_shl64 1 e) u64_max ≡ 2 ^ e
checked_shl64_small e h = ground (arith, pow2-le_20 e h)

-- the whole seconds left in the window, at least one
base_secs : Limits → WindowedBucket → ℕ → ℕ
base_secs l b now = max (as_secs (l.window - duration_since now b.window_start)) 1

-- how often the wait of a streak is doubled
doublings : Limits → ℕ → ℕ
doublings l streak = min (streak - (l.backoff_after - 1)) 20

-- the wait in whole seconds
wait_secs : Limits → ℕ → ℕ → ℕ
wait_secs l base e = min (min (base * 2 ^ e) u64_max) (as_secs l.max_backoff)

retry_after-eq :
    (l : Limits) (b : WindowedBucket) (now : ℕ)
    → retry_after l b now
      ≡ from_secs (wait_secs l (base_secs l b now) (doublings l b.consecutive_denies))
unfolding retry_after wait_secs base_secs doublings
retry_after-eq l b now =
    rw (checked_shl64_small (min (b.consecutive_denies - (l.backoff_after - 1)) 20) (omega arith))

retry_after_bounds :
    (l : Limits) (b : WindowedBucket) (now : ℕ)
    → nanos_per_sec ≤ l.max_backoff
    → (nanos_per_sec ≤ retry_after l b now) × (retry_after l b now ≤ l.max_backoff)
unfolding wait_secs base_secs
retry_after_bounds l b now h =
    let e = doublings l b.consecutive_denies in
    let pos : 2 ^ 0 ≤ 2 ^ e = pow-le-pow_right (omega arith) {i = 0} (omega arith) in
    rw (retry_after-eq l b now) (grind arith, omega arith)

-- A denied attempt is asked to wait a full second at least and `max_backoff` at most, if the
-- ceiling is not below one second.
pub check_deny_bounds :
    (l : Limits) (b : WindowedBucket) (now r : ℕ)
    → nanos_per_sec ≤ l.max_backoff
    → (check l b now).1 ≡ deny r
    → (nanos_per_sec ≤ r) × (r ≤ l.max_backoff)
unfolding spend check
check_deny_bounds l b now r h denied = ground (arith, retry_after_bounds l (current l b now) now h)

wait_secs_double :
    (l : Limits) (base e : ℕ)
    → as_secs l.max_backoff ≤ u64_max
    → wait_secs l base (suc e) ≡ min (2 * wait_secs l base e) (as_secs l.max_backoff)
unfolding wait_secs
wait_secs_double l base e h = rw (pow-suc 2 e) (grind arith)

doublings_late :
    (l : Limits) (s : ℕ)
    → l.backoff_after - 1 ≤ s
    → s < l.backoff_after - 1 + 20
    → s < u32_max
    → doublings l (saturating_add32 s 1) ≡ suc (doublings l s)
unfolding doublings
doublings_late l s late few small = omega arith

doublings_early :
    (l : Limits) (s : ℕ)
    → s < l.backoff_after - 1
    → s < u32_max
    → doublings l (saturating_add32 s 1) ≡ doublings l s
unfolding doublings
doublings_early l s early small = omega arith

retry_after_next :
    (l : Limits) (b : WindowedBucket) (now : ℕ)
    → b.consecutive_denies < l.backoff_after - 1 + 20
    → b.consecutive_denies < u32_max
    → as_secs l.max_backoff ≤ u64_max
    → retry_after l
        (record b {
          consecutive_denies = saturating_add32 b.consecutive_denies 1;
          last_update = now;
        })
        now
      ≡ (if leb (l.backoff_after - 1) b.consecutive_denies
          then min (2 * retry_after l b now) (from_secs (as_secs l.max_backoff))
          else retry_after l b now)
unfolding base_secs
retry_after_next l b now few small fits =
    let s = b.consecutive_denies in
    let o = l.backoff_after - 1 in
    rw (retry_after-eq l b now, retry_after-eq l _ now)
      (elim (Bool-cases (leb o s)) [
        | inl late ↦ ground (
          arith,
          doublings_late l s (leb→le o s late) few small,
          wait_secs_double l (base_secs l b now) (doublings l s) fits,
        )
        | inr early ↦ ground (arith, doublings_early l s (leb→lt s o early) small)
      ])

-- While the window lasts, a second attempt at the same instant is denied as well: with twice the
-- wait, up to the ceiling, once the streak has reached `backoff_after - 1` denies, and with the
-- same wait before. (The doubling stops after twenty steps; a `Duration` has at most `u64::MAX`
-- seconds.)
pub deny_doubles :
    (l : Limits) (b : WindowedBucket) (now r : ℕ)
    → duration_since now b.window_start < l.window
    → b.consecutive_denies < l.backoff_after - 1 + 20
    → b.consecutive_denies < u32_max
    → as_secs l.max_backoff ≤ u64_max
    → (check l b now).1 ≡ deny r
    → (check l (check l b now).0 now).1
      ≡ deny (
          if leb (l.backoff_after - 1) b.consecutive_denies
          then min (2 * r) (from_secs (as_secs l.max_backoff))
          else r)
unfolding check
deny_doubles l b now r within few small fits denied =
    ground (arith, retry_after_next l b now few small fits)
