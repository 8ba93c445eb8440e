-- ===== src/Auth/LoginRateLimiter/Outcome.antt =====
-- The decision of the limiter against the verdicts of the three families.
use nagent.Prelude.{
  ℕ, ◌<◌, ◌≤◌, ◌≡◌, ◌≢◌, ◌⊎◌, refl, false, Option, none, some, arith, Option-cases, inl, inr,
}
use nagent.Prelude.Text.{Text}
use nagent.Net.{IpAddr, is_loopback}
use nagent.Support.Windowed.{WindowedDecision}
use nagent.Support.WindowedMap.Keys.{decision-check}
use nagent.Auth.LoginRateLimiter.{
  Stores, LoginRateLimiter, LoginRateLimitDecision, BucketKind, pair, email, ip, allow, deny, check,
  attempt, consult, swept, normalise_email, note_deny,
}
use nagent.Auth.LoginRateLimiter.Decisions.{
  wait, HasWindows, pair_verdict, email_verdict, ip_verdict, pair_verdict-swept,
  email_verdict-swept, ip_verdict-swept,
}

-- the families' decisions, by the kind that a deny names
abbrev pub by_kind :
    WindowedDecision → WindowedDecision → WindowedDecision → BucketKind → WindowedDecision
by_kind p e i pair = p
by_kind p e i email = e
by_kind p e i ip = i

-- the decision allows, or asks for a shorter wait
abbrev pub Shorter : WindowedDecision → ℕ → Type 0
Shorter d r = (d ≡ WindowedDecision.allow) ⊎ (wait d < r)

-- the families before the one that a deny names allow, or ask for a shorter wait
abbrev pub First : WindowedDecision → WindowedDecision → ℕ → BucketKind → Type 0
First p e r pair = Unit
First p e r email = Shorter p r
First p e r ip = Shorter p r × Shorter e r

-- what the three decisions amount to: all of them allow, or the first of the longest waits counts
abbrev pub Amounts :
    WindowedDecision → WindowedDecision → WindowedDecision → Option (ℕ × BucketKind) → Type 0
Amounts p e i none =
    (p ≡ WindowedDecision.allow) × (e ≡ WindowedDecision.allow) × (i ≡ WindowedDecision.allow)
Amounts p e i (some (r, k)) =
    (by_kind p e i k ≢ WindowedDecision.allow)
    × (wait (by_kind p e i k) ≡ r)
    × (wait p ≤ r)
    × (wait e ≤ r)
    × (wait i ≤ r)
    × First p e r k

note_deny-Amounts :
    (p e i : WindowedDecision)
    → Amounts p e i (note_deny (note_deny (note_deny none p pair) e email) i ip)
unfolding note_deny
note_deny-Amounts WindowedDecision.allow WindowedDecision.allow WindowedDecision.allow =
    (refl, refl, refl)
note_deny-Amounts WindowedDecision.allow WindowedDecision.allow (WindowedDecision.deny c) =
    ground arith
note_deny-Amounts WindowedDecision.allow (WindowedDecision.deny b) WindowedDecision.allow =
    ground arith
note_deny-Amounts WindowedDecision.allow (WindowedDecision.deny b) (WindowedDecision.deny c) =
    ground arith
note_deny-Amounts (WindowedDecision.deny a) WindowedDecision.allow WindowedDecision.allow =
    ground arith
note_deny-Amounts (WindowedDecision.deny a) WindowedDecision.allow (WindowedDecision.deny c) =
    ground arith
note_deny-Amounts (WindowedDecision.deny a) (WindowedDecision.deny b) WindowedDecision.allow =
    ground arith
note_deny-Amounts (WindowedDecision.deny a) (WindowedDecision.deny b) (WindowedDecision.deny c) =
    ground arith

abbrev pub reported : LoginRateLimitDecision → Option (ℕ × BucketKind)
reported allow = none
reported (deny r k) = some (r, k)

reported-attempt :
    {s : Stores} (rl : LoginRateLimiter s) (e : Text) (a : IpAddr) (now : ℕ)
    → reported (attempt rl e a now).1
      ≡ note_deny
          (note_deny
            (note_deny none (pair_verdict rl e a now).1 pair)
            (email_verdict rl e now).1
            email)
          (ip_verdict rl a now).1
          ip
unfolding attempt
reported-attempt rl e a now =
    let p = decision-check rl.pair_buckets (e, a) rl.pair_limits now in
    let m = decision-check rl.email_buckets e rl.email_limits now in
    let i = decision-check rl.ip_buckets a rl.ip_limits now in
    rw (← p, ← m, ← i)
      (elim (Option-cases (consult rl e a now).1) [
        | inl passed ↦ rw (passed, attempt)
        | inr (d, denied) ↦ rw (denied, attempt)
      ])

-- A login attempt from a remote address goes through exactly if the buckets of its pair, of its
-- email and of its address all let it through. A refusal names a family that refused, reports the
-- wait of that family, and no family asks for a longer one; in the order pair, email, address it is the
-- first that asks for that wait. A sweep that ran before changes nothing
-- of this. (The windows are not empty, and the sweep's clock reading is not the later one.)
pub check-Amounts :
    {s : Stores} (rl : LoginRateLimiter s) (address : Text) (addr : IpAddr) (swept_at now : ℕ)
    → HasWindows rl
    → swept_at ≤ now
    → is_loopback addr ≡ false
    → let e = normalise_email address in
      Amounts
        (pair_verdict rl e addr now).1
        (email_verdict rl e now).1
        (ip_verdict rl addr now).1
        (reported (check rl address addr swept_at now).1)
unfolding check
check-Amounts rl address addr swept_at now w le remote =
    let e = normalise_email address in
    let rl' = swept rl swept_at in
    rw
      (
        remote,
        reported-attempt rl' e addr now,
        pair_verdict-swept rl w swept_at now le e addr,
        email_verdict-swept rl w swept_at now le e,
        ip_verdict-swept rl w swept_at now le addr,
      )
      (note_deny-Amounts (pair_verdict rl e addr now).1 (email_verdict rl e now).1
        (ip_verdict rl addr now).1)
