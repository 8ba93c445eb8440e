-- ===== src/Support/Windowed/Tests.antt =====
-- Runs of one bucket: three attempts a minute, backoff from the second deny on, five minutes at
-- most.
use nagent.Prelude.{ℕ, ◌≤◌, ◌≡◌, refl, List, [], ◌∷◌, arith}
use nagent.Prelude.Words.{from_secs}
use nagent.Support.Windowed.{WindowedBucket, Limits, deny, new, check, retry_after}
use nagent.Support.Windowed.Budget.{IsValid, allowed, allowed-le-twice}

abbrev limits : Limits
limits = record {
  max_count = 3;
  window = from_secs 60;
  backoff_after = 2;
  max_backoff = from_secs 300;
}

-- exhausted half a second after its window began
abbrev full : WindowedBucket
full = record { count = 3; window_start = 0; last_update = 500_000_000; consecutive_denies = 4 }

limits-IsValid : IsValid limits full
limits-IsValid = omega arith

full_denied : (check limits full 500_000_000).1 ≡ deny (from_secs 300)
unfolding check retry_after
full_denied = refl

abbrev tired : WindowedBucket
tired = record full { consecutive_denies = 1 }

tired_denied : (check limits tired 500_000_000).1 ≡ deny (from_secs 59)
unfolding check retry_after
tired_denied = refl

abbrev attempts : List ℕ
attempts = 1 ∷ 2 ∷ 3 ∷ 4 ∷ 5 ∷ []

fresh-IsValid : IsValid limits (new 0)
unfolding new
fresh-IsValid = omega arith

-- three at the end of one window and three at the start of the next
abbrev straddling : List ℕ
straddling =
    from_secs 59 ∷ from_secs 59 ∷ from_secs 59 ∷ from_secs 61 ∷ from_secs 61 ∷ from_secs 61 ∷ []

straddling-allowed : allowed limits (new 0) straddling ≡ 6
unfolding allowed check new
straddling-allowed = refl

allowed-le-twice_example : allowed limits (new 0) straddling ≤ 6
unfolding new
allowed-le-twice_example =
    allowed-le-twice limits (new 0) (from_secs 59) straddling fresh-IsValid (omega arith)
