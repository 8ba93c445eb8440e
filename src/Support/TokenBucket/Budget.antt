-- ===== src/Support/TokenBucket/Budget.antt =====
-- What a bucket allows over a stretch of time.
use nagent.Prelude.{
  ℕ, suc, ◌+◌, ◌-◌, ◌*◌, ◌≤◌, ◌<◌, ◌≡◌, ap, Bool, true, false, List, [], ◌∷◌, leb, arith,
  Bool-cases, inl, inr, if◌then◌else◌,
}
use native.Mathlib.Nat.{mul-add}
use nagent.Support.TokenBucket.{
  unit, TokenDecision, allow, deny, TokenBucket, refilled, try_consume,
}

abbrev pub is_allow : TokenDecision → Bool
is_allow allow = true
is_allow (deny _) = false

-- the attempts, each by the time that has passed since the one before
abbrev pub attempts : ℕ → ℕ → TokenBucket → List ℕ → TokenBucket × ℕ
attempts capacity rate b [] = (b, 0)
attempts capacity rate b (gap ∷ gaps) =
    let (b', d) = try_consume b capacity rate (b.last_update + gap) in
    let (end, n) = attempts capacity rate b' gaps in (end, if is_allow d then suc n else n)

abbrev pub sum : List ℕ → ℕ
sum [] = 0
sum (gap ∷ gaps) = gap + sum gaps

-- what an attempt takes and leaves is part of what was there and of the refill
step :
    (capacity rate gap : ℕ) (b : TokenBucket)
    → (if is_allow (try_consume b capacity rate (b.last_update + gap)).1 then unit else 0)
        + (try_consume b capacity rate (b.last_update + gap)).0.tokens
      ≤ b.tokens + rate * gap
unfolding try_consume
step capacity rate gap b =
    let elapsed : (b.last_update + gap) - b.last_update ≡ gap = omega arith in
    let refill = ap (λ x. b.tokens + rate * x) elapsed in
    elim (Bool-cases (leb unit (refilled b capacity rate (b.last_update + gap)))) [
      | inl there ↦ rw there (grind (arith, there, refill))
      | inr short ↦ rw short (grind (arith, refill))
    ]

last_update-try_consume :
    (b : TokenBucket) (capacity rate now : ℕ)
    → (try_consume b capacity rate now).0.last_update ≡ now
unfolding try_consume
last_update-try_consume b capacity rate now = ground arith

-- Over any attempts, on a clock that does not go back, a bucket allows no more tokens than it held
-- and the time between them has refilled, and what it holds afterwards is part of that.
pub attempts-bound :
    (capacity rate : ℕ) (b : TokenBucket) (gaps : List ℕ)
    → (attempts capacity rate b gaps).1 * unit + (attempts capacity rate b gaps).0.tokens
      ≤ b.tokens + rate * sum gaps
attempts-bound capacity rate b [] = omega arith
attempts-bound capacity rate b (gap ∷ gaps) =
    let now = b.last_update + gap in
    let b' = (try_consume b capacity rate now).0 in
    let rest = attempts-bound capacity rate b' gaps in
    let first = step capacity rate gap b in
    let split = mul-add rate gap (sum gaps) in
    elim (Bool-cases (is_allow (try_consume b capacity rate now).1)) [
      | inl taken ↦ rw taken (omega (arith, rest, rw taken at first, split))
      | inr refused ↦ rw refused (omega (arith, rest, rw refused at first, split))
    ]

-- After any attempt a bucket is not full, if it can hold a token.
pub try_consume-lt :
    (b : TokenBucket) (capacity rate now : ℕ)
    → unit ≤ capacity
    → (try_consume b capacity rate now).0.tokens < capacity
unfolding try_consume
try_consume-lt b capacity rate now fits = grind (arith, fits)
