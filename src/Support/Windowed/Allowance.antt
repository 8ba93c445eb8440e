-- ===== src/Support/Windowed/Allowance.antt =====
-- What is left of the attempts of a bucket over a stretch of time, the bucket being there or not:
-- the measure by which the limiters' budgets are proved.
use nagent.Prelude.{
  ℕ, ◌+◌, ◌-◌, ◌*◌, ◌≤◌, ◌<◌, ◌≡◌, ◌⊎◌, refl, Option, none, some, arith, leb, if◌then◌else◌,
  Bool-cases, leb→le, leb→lt, inl, inr,
}
use nagent.Prelude.Words.{u32_max, unwrap_or, duration_since}
use nagent.Support.Windowed.{WindowedBucket, Limits, new, check, bump_deny}
use nagent.Support.Windowed.Budget.{IsValid, passes, check_in_window, check_next_window}

-- A bucket whose window began in the stretch has the rest of the cap left, an older bucket one cap
-- more, and where there is no bucket the next window begins in the stretch.
abbrev pub left : Limits → ℕ → Option WindowedBucket → ℕ
left l start none = l.max_count
left l start (some b) =
    (if leb start b.window_start then l.max_count else 2 * l.max_count) - b.count

abbrev pub IsValidOption : Limits → Option WindowedBucket → Type 0
IsValidOption l none = l.max_count ≤ u32_max
IsValidOption l (some b) = IsValid l b

new-IsValid : (l : Limits) (now : ℕ) → l.max_count ≤ u32_max → IsValid l (new now)
unfolding new
new-IsValid l now h = omega arith

pub unwrap_or-new-IsValid :
    (l : Limits) (o : Option WindowedBucket) (now : ℕ)
    → IsValidOption l o
    → IsValid l (unwrap_or o (new now))
unwrap_or-new-IsValid l none now v = new-IsValid l now v
unwrap_or-new-IsValid l (some b) now v = v

left-check-some :
    (l : Limits) (start t : ℕ) (b : WindowedBucket)
    → IsValid l b
    → start ≤ t
    → t < start + l.window
    → passes (check l b t).1 + left l start (some (check l b t).0) ≤ left l start (some b)
left-check-some l start t b v from until =
    elim (Bool-cases (leb l.window (duration_since t b.window_start))) [
      | inl next ↦
          let (begun, counted, passed) = check_next_window l b t v (leb→le _ _ next) in
          ground (arith, begun, counted, passed, v.within)
      | inr same ↦
          let (begun, counted, passed) = check_in_window l b t v (leb→lt _ _ same) in
          ground (arith, begun, counted, passed, v.within)
    ]

left-new-le : (l : Limits) (start t : ℕ) → start ≤ t → left l start (some (new t)) ≤ l.max_count
unfolding new
left-new-le l start t from = ground arith

-- An attempt in the stretch takes what it passes out of what is left.
pub left-check :
    (l : Limits) (start t : ℕ) (o : Option WindowedBucket)
    → IsValidOption l o
    → start ≤ t
    → t < start + l.window
    → let r = check l (unwrap_or o (new t)) t in
      passes r.1 + left l start (some r.0) ≤ left l start o
left-check l start t (some b) v from until = left-check-some l start t b v from until
left-check l start t none v from until = omega (
  arith,
  left-check-some l start t (new t) (new-IsValid l t v) from until,
  left-new-le l start t from,
)

pub left-bump_deny :
    (l : Limits) (start t : ℕ) (b : WindowedBucket)
    → left l start (some (bump_deny b t)) ≡ left l start (some b)
unfolding bump_deny
left-bump_deny l start t b = refl

pub bump_deny-IsValid :
    (l : Limits) (t : ℕ) (b : WindowedBucket) → IsValid l b → IsValid l (bump_deny b t)
unfolding bump_deny
bump_deny-IsValid l t b v = record { within = v.within; small = v.small }

-- an entry before and after a sweep at `t` may have run: it is the same, or its window had run out
abbrev pub Faded : ℕ → ℕ → Option WindowedBucket → Option WindowedBucket → Type 0
Faded window t o o' =
    (o' ≡ o)
    ⊎ ((o' ≡ none)
        × ((b : WindowedBucket) × (o ≡ some b) × (window ≤ duration_since t b.window_start)))

-- Such a sweep within the stretch adds nothing to what is left.
pub Faded-left :
    (l : Limits) (start t : ℕ) (o o' : Option WindowedBucket)
    → 0 < l.window
    → Faded l.window t o o'
    → t < start + l.window
    → IsValidOption l o
    → IsValidOption l o' × (left l start o' ≤ left l start o)
Faded-left l start t o o' pos (inl e) until v = rw e (v, omega arith)
Faded-left l start t o o' pos (inr (gone, (b, e, over))) until v =
    let valid = rw e at v in rw (gone, e) (faded b over valid)
  where
    faded :
        (b : WindowedBucket)
        → l.window ≤ duration_since t b.window_start
        → IsValid l b
        → IsValidOption l none × (left l start none ≤ left l start (some b))
    faded b over v = (v.small, ground (arith, v.within, over, until, pos))
