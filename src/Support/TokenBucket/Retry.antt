-- ===== src/Support/TokenBucket/Retry.antt =====
-- The wait that a refusal names.
use native.Mathlib.Nat.{lt-mul-div-succ, mul-le-mul_left, mul_assoc, div-lt_iff_lt-mul}
use nagent.Prelude.{
  ℕ, ◌+◌, ◌-◌, ◌*◌, ◌≤◌, ◌<◌, ◌≡◌, refl, ap, sym, leb→lt, ltb, true, leb, min, arith, Bool-cases,
  inl, inr,
}
use nagent.Support.TokenBucket.{
  unit, nearest, TokenDecision, allow, deny, TokenBucket, refilled, retry_after, try_consume,
}

nearest-lt : (amount rate : ℕ) → 0 < rate → amount < rate * (nearest amount rate + 1)
nearest-lt amount rate pos =
    let above = lt-mul-div-succ (2 * amount + rate) {b = 2 * rate} (omega (arith, pos)) in
    omega (arith, pos, above, mul_assoc 2 rate (nearest amount rate + 1))

-- no wait is longer than a minute and a nanosecond
retry_after-le : (rate tokens : ℕ) → 0 < rate → retry_after rate tokens ≤ unit + 1
retry_after-le rate tokens pos =
    let some_rate : ltb 0 rate ≡ true = grind (arith, pos) in
    let amount = unit - tokens in
    let one_each : amount * 1 ≤ amount * rate = mul-le-mul_left amount pos in
    let enough_room : 2 * amount + rate < (amount + 2) * (2 * rate) =
      omega (arith, one_each, pos) in
    let below =
      (div-lt_iff_lt-mul {k = 2 * rate} {x = 2 * amount + rate} {y = amount + 2}
          (omega (arith, pos))).1
        enough_room in
    let small : amount ≤ unit = omega arith in
    rw (some_rate, retry_after) (omega (arith, below, small))

takes :
    (b : TokenBucket) (capacity rate now : ℕ)
    → unit ≤ refilled b capacity rate now
    → (try_consume b capacity rate now).1 ≡ allow
unfolding try_consume
takes b capacity rate now h =
    let yes' : leb unit (refilled b capacity rate now) ≡ true = grind (arith, h) in rw yes' refl

abbrev wait_of : TokenDecision → ℕ
wait_of allow = 0
wait_of (deny wait) = wait

-- a refusal leaves less than a token and names the wait for the rest
refused :
    (b : TokenBucket) (capacity rate now wait : ℕ)
    → (try_consume b capacity rate now).1 ≡ deny wait
    → (tokens : ℕ) × (tokens < unit)
      × (try_consume b capacity rate now).0 ≡ record { tokens = tokens; last_update = now }
      × (wait ≡ retry_after rate tokens)
unfolding try_consume
refused b capacity rate now wait denied =
    elim (Bool-cases (leb unit (refilled b capacity rate now))) [
      | inl there ↦ ground (arith, rw there at denied)
      | inr short ↦ (
        refilled b capacity rate now,
        leb→lt _ _ short,
        rw short refl,
        ap wait_of (sym (rw short at denied)),
      )
    ]

enough :
    (tokens rate capacity now wait later : ℕ)
    → tokens < unit
    → 0 < rate
    → unit ≤ capacity
    → wait ≡ retry_after rate tokens
    → now + wait < later
    → unit ≤ min (tokens + rate * (later - now)) capacity
enough tokens rate capacity now wait later short pos fits named after =
    let some_rate : ltb 0 rate ≡ true = grind (arith, pos) in
    let is_nearest : wait ≡ nearest (unit - tokens) rate = rw (some_rate, retry_after) at named in
    let passed : nearest (unit - tokens) rate + 1 ≤ later - now =
      omega (arith, is_nearest, after) in
    omega (arith, short, fits, nearest-lt (unit - tokens) rate pos, mul-le-mul_left rate passed)

-- A refusal names the wait: after it, rounded up to the next nanosecond, an attempt takes a token, if the bucket can
-- hold one, there is a rate, and no other attempt comes between.
pub try_consume-retry_after :
    (b : TokenBucket) (capacity rate now wait later : ℕ)
    → unit ≤ capacity
    → 0 < rate
    → (try_consume b capacity rate now).1 ≡ deny wait
    → now + wait < later
    → (try_consume (try_consume b capacity rate now).0 capacity rate later).1 ≡ allow
unfolding try_consume
try_consume-retry_after b capacity rate now wait later fits pos denied after =
    let (tokens, short, left, named) = refused b capacity rate now wait denied in
    rw left (
      takes _ capacity rate later
        (enough tokens rate capacity now wait later short pos fits named after))

pub deny-le :
    (b : TokenBucket) (capacity rate now wait : ℕ)
    → 0 < rate
    → (try_consume b capacity rate now).1 ≡ deny wait
    → wait ≤ unit + 1
deny-le b capacity rate now wait pos denied =
    let (tokens, short, left, named) = refused b capacity rate now wait denied in
    omega (arith, named, retry_after-le rate tokens pos)
