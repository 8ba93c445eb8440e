-- ===== src/Auth/LoginRateLimiter/Reset.antt =====
-- What a successful login forgets.
use nagent.Prelude.{◌≡◌, none, if◌then◌else◌, refl}
use nagent.Prelude.Text.{Text}
use nagent.Net.{IpAddr}
use nagent.Support.WindowedMap.Keys.{get-reset}
use nagent.Auth.LoginRateLimiter.{Stores, LoginRateLimiter, reset, normalise_email}
use nagent.Auth.LoginRateLimiter.Entries.{email_entry, ip_entry}

module _ {s : Stores} where
  -- `reset` drops the bucket of the normalised address, also of its pair with the host, and keeps
  -- every other bucket; no bucket of a host changes.
  pub entries-reset :
      (rl : LoginRateLimiter s) (address : Text) (addr : IpAddr) (e : Text) (a : IpAddr)
      → (email_entry (reset rl address addr) e
          ≡ (if s.emails.key_eq (normalise_email address) e then none else email_entry rl e))
        × (s.pairs.get (reset rl address addr).pair_buckets.buckets (e, a) ≡ (
            if s.pairs.key_eq (normalise_email address, addr) (e, a)
            then none
            else s.pairs.get rl.pair_buckets.buckets (e, a)))
        × (ip_entry (reset rl address addr) a ≡ ip_entry rl a)
  unfolding reset
  entries-reset rl address addr e a = (
    get-reset rl.email_buckets (normalise_email address) e,
    get-reset rl.pair_buckets (normalise_email address, addr) (e, a),
    refl,
  )
