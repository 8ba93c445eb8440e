-- ===== src/RateLimit/Headers.antt =====
-- Which address a request counts for.
use nagent.Prelude.{
  ◌≡◌, ◌≢◌, refl, Bool, true, Option, none, some, Bool-cases, Option-cases, inl, inr,
}
use nagent.Prelude.Text.{Text, trim}
use nagent.Net.{IpAddr}
use nagent.RateLimit.{TrustedProxiesConfig, first_entry, is_trusted, resolve_client_ip}

module _ {IpNet : Type 0} (contains : IpNet → IpAddr → Bool) (parse : Text → Option IpAddr) where
  -- A request counts for another address than its peer's only where the peer is in one of the
  -- trusted networks and the trimmed first entry of its `X-Forwarded-For` header, which is text, is
  -- that address.
  pub resolve_client_ip-forwarded :
      (header : Option (Option Text)) (peer : IpAddr) (trusted : TrustedProxiesConfig IpNet)
      → resolve_client_ip contains parse header peer trusted ≢ peer
      → (is_trusted contains trusted peer ≡ true)
        × ((s : Text) × (header ≡ some (some s))
            × (parse (trim (first_entry s))
                ≡ some (resolve_client_ip contains parse header peer trusted)))
  unfolding resolve_client_ip
  resolve_client_ip-forwarded header peer trusted other =
      elim (Bool-cases (is_trusted contains trusted peer)) [
        | inl near ↦ (near, by_header near header other)
        | inr far ↦ absurd (other (rw far refl))
      ]
    where
      by_header :
          is_trusted contains trusted peer ≡ true
          → (header : Option (Option Text))
          → resolve_client_ip contains parse header peer trusted ≢ peer
          → (s : Text) × (header ≡ some (some s))
            × (parse (trim (first_entry s))
                ≡ some (resolve_client_ip contains parse header peer trusted))
      by_header near none h = absurd (h (rw near refl))
      by_header near (some none) h = absurd (h (rw near refl))
      by_header near (some (some s)) h = elim (Option-cases (parse (trim (first_entry s)))) [
        | inl missing ↦ absurd (h (rw (near, missing) refl))
        | inr (ip, found) ↦ (s, refl, rw (near, found) refl)
      ]
