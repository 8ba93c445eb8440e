-- ===== src/Support/Windowed/Budget.antt =====
-- How many attempts a `WindowedBucket` lets through.
use nagent.Prelude.{
  ℕ, ◌+◌, ◌-◌, ◌*◌, ◌≤◌, ◌<◌, ◌≡◌, min, arith, List, [], ◌∷◌, length, All, leb, subst, sym, inl,
  inr, Bool-cases, leb→le, leb→lt,
}
use nagent.Prelude.Words.{u32_max, duration_since}
use nagent.Support.Windowed.{WindowedBucket, WindowedDecision, Limits, allow, deny, check}

-- 1 for an attempt that goes through
abbrev pub passes : WindowedDecision → ℕ
passes allow = 1
passes (deny _) = 0

-- the attempts that are allowed when `check` is called at the given instants
unfoldable pub allowed : Limits → WindowedBucket → List ℕ → ℕ
allowed l b [] = 0
allowed l b (t ∷ ts) = let (b', d) = check l b t in passes d + allowed l b' ts

-- the count never passes the cap, and the cap is a `u32`
pub record IsValid (l : Limits) (b : WindowedBucket) : Type 0 where
  pub within : b.count ≤ l.max_count
  pub small : l.max_count ≤ u32_max

pub check-IsValid :
    (l : Limits) (b : WindowedBucket) (now : ℕ) → IsValid l b → IsValid l (check l b now).0
unfolding check
check-IsValid l b now v = ground arith

module _ (l : Limits) (b : WindowedBucket) (t : ℕ) (v : IsValid l b) where
  pub check_in_window :
      duration_since t b.window_start < l.window
      → ((check l b t).0.window_start ≡ b.window_start)
        × ((check l b t).0.count ≡ b.count + passes (check l b t).1)
        × (passes (check l b t).1 ≡ min 1 (l.max_count - b.count))
  unfolding check
  check_in_window h = (ground arith, ground arith, ground arith)

  pub check_next_window :
      l.window ≤ duration_since t b.window_start
      → ((check l b t).0.window_start ≡ t)
        × ((check l b t).0.count ≡ passes (check l b t).1)
        × (passes (check l b t).1 ≡ min 1 l.max_count)
  unfolding check
  check_next_window h = (ground arith, ground arith, ground arith)

-- In the window of the bucket exactly the attempts that are left of the cap go through.
pub allowed_in_window :
    (l : Limits) (b : WindowedBucket) (ts : List ℕ)
    → IsValid l b
    → All (λ t. duration_since t b.window_start < l.window) ts
    → allowed l b ts ≡ min (length ts) (l.max_count - b.count)
unfolding allowed
allowed_in_window l b [] v h = omega arith
allowed_in_window l b (t ∷ ts) v h =
    let (start, counted, passed) = check_in_window l b t v h.0 in
    let rest =
      allowed_in_window l (check l b t).0 ts (check-IsValid l b t v)
        (subst (λ s. All (λ t. duration_since t s < l.window) ts) (sym start) h.1) in
    omega (arith, rest)

stretch_in_window :
    (window start later : ℕ) (ts : List ℕ)
    → start ≤ later
    → All (λ t. (start ≤ t) × (t < start + window)) ts
    → All (λ t. duration_since t later < window) ts
stretch_in_window window start later [] h a = tt
stretch_in_window window start later (t ∷ ts) h a =
    (omega arith, stretch_in_window window start later ts h a.1)

-- Over any stretch of time as long as the window, wherever the windows of the bucket fall, at most
-- twice the cap go through.
pub allowed-le-twice :
    (l : Limits) (b : WindowedBucket) (start : ℕ) (ts : List ℕ)
    → IsValid l b
    → All (λ t. (start ≤ t) × (t < start + l.window)) ts
    → allowed l b ts ≤ 2 * l.max_count - b.count
unfolding allowed
allowed-le-twice l b start [] v h = omega (arith, v.within)
allowed-le-twice l b start (t ∷ ts) v h =
    let b' = (check l b t).0 in
    let v' = check-IsValid l b t v in
    elim (Bool-cases (leb l.window (duration_since t b.window_start))) [
      | inl next ↦
          let (begun, counted, passed) = check_next_window l b t v (leb→le _ _ next) in
          let rest =
            allowed_in_window l b' ts v'
              (stretch_in_window l.window start b'.window_start ts (omega arith) h.1) in
          omega (arith, rest, v.within)
      | inr same ↦
          let (begun, counted, passed) = check_in_window l b t v (leb→lt _ _ same) in
          omega (arith, allowed-le-twice l b' start ts v' h.1, v.within)
    ]

-- An attempt after the window has run out goes through, and starts the next window.
pub check_after_window :
    (l : Limits) (b : WindowedBucket) (now : ℕ)
    → 0 < l.max_count
    → b.window_start + l.window ≤ now
    → ((check l b now).1 ≡ allow) × ((check l b now).0.window_start ≡ now)
unfolding check
check_after_window l b now pos over = (ground arith, ground arith)

-- A client that comes back when the reported wait is over is denied again, whenever the ceiling or
-- the whole seconds of the report cut the wait below what is left of the window.
pub early_retry_denied :
    (l : Limits) (b : WindowedBucket) (now r : ℕ)
    → (check l b now).1 ≡ deny r
    → duration_since now b.window_start + r < l.window
    → b.window_start ≤ now
    → passes (check l (check l b now).0 (now + r)).1 ≡ 0
unfolding check
early_retry_denied l b now r denied early past = ground arith
