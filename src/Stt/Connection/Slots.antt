-- ===== src/Stt/Connection/Slots.antt =====
-- The slot of a connection, from the upgrade to the end.
use nagent.Prelude.{
  ℕ, ◌+◌, ◌^◌, ◌<◌, ◌≡◌, ◌&&◌, refl, sym, ap, ◌∙◌, Bool, true, false, none, some, List, ◌∷◌, ◌++◌,
  arith,
}
use nagent.Prelude.Text.{Text}
use nagent.Prelude.Result.{ok}
use nagent.Net.{IpAddr}
use nagent.RateLimit.{CheckResult, limited, check}
use nagent.RateLimit
use nagent.Stt.Proto.{Bytes, BackendInfo, backend, encode_frame}
use nagent.Stt.Validation.{LimitsConfig}
use nagent.Stt.WsConcurrency.{
  WsConcurrency, AdmitDecision, admitted, global_full, per_ip_full, try_admit, global_in_use,
  per_ip_in_use, release_with_ip,
}
use nagent.Stt.WsConcurrency.Counters.{tally}
use nagent.Stt.WsConcurrency.RoundTrip.{try_admit_lem, release_with_ip-try_admit, is_admitted}
use nagent.Stt.Inbound.{Server, SttState, InboundError, session_of}
use nagent.Stt.Connection.{
  upgraded, Event, ended, settled, admit_checked, ws_upgrade, ws_connection,
}
use nagent.Stt.Connection.Ends.{state_of, ws_connection-IsReleased, ws_connection_failed}

module _ {v : Server} where
  -- the slots after an upgrade are those of an admission
  abbrev Admits : SttState v → IpAddr → SttState v → Type 0
  Admits s ip s1 =
      ((try_admit s.ws_concurrency (some ip)).1 ≡ admitted)
      × (s1.ws_concurrency ≡ (try_admit s.ws_concurrency (some ip)).0)

  settled-Admits :
      (s : SttState v) (r : WsConcurrency v.slots × AdmitDecision)
      → (settled s r).1 ≡ upgraded
      → (r.1 ≡ admitted) × ((settled s r).0.ws_concurrency ≡ r.0)
  settled-Admits s (w, admitted) h = (refl, refl)
  settled-Admits s (w, global_full) h = absurd (cc h)
  settled-Admits s (w, per_ip_full) h = absurd (cc h)

  admit_checked-Admits :
      (s : SttState v) (ip : IpAddr) (r : CheckResult)
      → (admit_checked s ip r).1 ≡ upgraded
      → Admits s ip (admit_checked s ip r).0
  admit_checked-Admits s ip RateLimit.ok h =
      settled-Admits s (try_admit s.ws_concurrency (some ip)) h
  admit_checked-Admits s ip (limited i w) h = absurd (cc h)

  ws_upgrade-Admits :
      (s : SttState v) (ip : IpAddr) (swept_at now : ℕ)
      → (ws_upgrade s (some ip) swept_at now).1 ≡ upgraded
      → Admits s ip (ws_upgrade s (some ip) swept_at now).0
  unfolding ws_upgrade
  ws_upgrade-Admits s ip swept_at now h =
      let (l, r) = check s.rate_limiter ip swept_at now in
      admit_checked-Admits (record s { rate_limiter = l }) ip r h

  module _ (limits : LimitsConfig) (describe : InboundError v.CodecFailure → Text)
      (describe_limit : IpAddr → ℕ → Text) (s : SttState v) (ip : IpAddr) (id : v.stores.Uuid)
      (fits : (global_in_use s.ws_concurrency < s.ws_concurrency.global_cap + 1)
        × (s.ws_concurrency.global_cap < 2 ^ 64)) where
    -- the connection behind an upgrade, on a socket that gives these events
    abbrev pub served : ℕ → ℕ → ℕ → BackendInfo → Bool → List Event → SttState v
    served swept_at now opened_at info can_send es =
        let s1 = (ws_upgrade s (some ip) swept_at now).0 in
        state_of
          (ws_connection limits describe describe_limit (some ip) id s1 opened_at info can_send es)

    -- An upgraded connection that is greeted, and whose socket ends, leaves the count of all the
    -- connections and the count of every address as they were before the upgrade, whatever was sent
    -- over it, if no other connection comes or goes meanwhile.
    pub served-ended :
        (swept_at now opened_at : ℕ) (info : BackendInfo) (es rest : List Event) (a : IpAddr)
        → (ws_upgrade s (some ip) swept_at now).1 ≡ upgraded
        → let w = (served swept_at now opened_at info true (es ++ ended ∷ rest)).ws_concurrency in
          (global_in_use w ≡ global_in_use s.ws_concurrency)
          × (per_ip_in_use w a ≡ per_ip_in_use s.ws_concurrency a)
    served-ended swept_at now opened_at info es rest a h =
        let (said, slots) = ws_upgrade-Admits s ip swept_at now h in
        let s1 = (ws_upgrade s (some ip) swept_at now).0 in
        let (_, _, released) =
          ws_connection-IsReleased limits describe describe_limit (some ip) id s1 opened_at info es
            rest in
        let (g, p) = release_with_ip-try_admit s.ws_concurrency ip a fits.0 fits.1 said in
        let e = released ∙ ap (λ w. release_with_ip w ip) slots in
        (ap global_in_use e ∙ g, ap (λ w. per_ip_in_use w a) e ∙ p)

    -- An upgraded connection to which the greeting cannot be sent ends at once and keeps its slot: the
    -- count of all the connections, and that of its address, stay one higher than before the upgrade.
    pub served-failed_greeting :
        (swept_at now opened_at : ℕ) (info : BackendInfo) (es : List Event) (bytes : Bytes)
        → encode_frame v.wire (backend info) ≡ ok bytes
        → (ws_upgrade s (some ip) swept_at now).1 ≡ upgraded
        → let s1 = served swept_at now opened_at info false es in
          (session_of s1 id ≡ none)
          × (global_in_use s1.ws_concurrency ≡ global_in_use s.ws_concurrency + 1)
          × (per_ip_in_use s1.ws_concurrency ip ≡ per_ip_in_use s.ws_concurrency ip + 1)
    served-failed_greeting swept_at now opened_at info es bytes e h =
        let (said, slots) = ws_upgrade-Admits s ip swept_at now h in
        let s1 = (ws_upgrade s (some ip) swept_at now).0 in
        let (gone, kept) =
          ws_connection_failed limits describe describe_limit (some ip) id s1 opened_at info es
            bytes e in
        let (verdict_is, g, p) = try_admit_lem s.ws_concurrency ip ip fits.0 fits.1 in
        let took = ap is_admitted (sym verdict_is ∙ said) in
        let w = kept ∙ slots in
        let own = (v.slots.key_eq_iff ip ip).1 refl in
        (
          gone,
          omega (arith, ap global_in_use w, g, ap tally took),
          omega (
            arith,
            ap (λ x. per_ip_in_use x ip) w,
            p,
            ap (λ b. tally (b && v.slots.key_eq ip ip)) took,
            ap tally own,
          ),
        )
