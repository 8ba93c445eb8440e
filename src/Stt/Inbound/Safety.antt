-- ===== src/Stt/Inbound/Safety.antt =====
-- What a frame and the other operations keep: the sessions' settings and the queued jobs are clean.
use nagent.Prelude.{
  ℕ, zero, suc, ◌≤◌, ◌≡◌, inl, inr, refl, sym, subst, ◌∙◌, Option, none, some, List, [], ◌∷◌,
  length, All, All-append, arith, Bool-cases,
}
use nagent.Collections.Bindings.{AllBound, insert-AllBound, remove-AllBound}
use nagent.Stt.Channel.{Channels, logged}
use nagent.Stt.Proto.{Payload}
use nagent.Stt.Validation.{LimitsConfig}
use nagent.Stt.Session.{
  SessionStores, SessionState, SessionMap, deliver, unregister, unregister_all, touch,
}
use nagent.Stt.Pool.{InferRequest, PoolDispatch, BackendError, channels, shard_for, worker_count}
use nagent.Stt.Pool
use nagent.Stt.Inbound.{Server, SttState, request_of}
use nagent.Stt.Inbound.Effects.{IsHint, Effect, unchanged, configured, sent}

-- the language is allowed, and the samples are within the limit
abbrev pub IsAllowed : {Uuid : Type 0} → LimitsConfig → InferRequest Uuid → Type 0
IsAllowed limits r = IsHint r.language × (length r.samples ≤ limits.max_audio_frame_samples)

-- a session has its own channel, and a language that is allowed
abbrev pub IsProper : {Uuid : Type 0} → Uuid → SessionState Uuid → Type 0
IsProper id st = (st.outbound_tx ≡ id) × IsHint st.language

module _ {Uuid : Type 0} (jobs : Channels ℕ (InferRequest Uuid)) (limits : LimitsConfig) where
  abbrev pub AllAllowed : jobs.Chans → Type 0
  AllAllowed c =
      (w : ℕ) (q : List (InferRequest Uuid)) → jobs.log c w ≡ some q → All (IsAllowed limits) q

  logged-All :
      (r : InferRequest Uuid) (o : Option (List (InferRequest Uuid)))
      → ((q : List (InferRequest Uuid)) → o ≡ some q → All (IsAllowed limits) q)
      → IsAllowed limits r
      → (q : List (InferRequest Uuid)) → logged r o ≡ some q
      → All (IsAllowed limits) q
  logged-All r none a h q e = absurd (cc e)
  logged-All r (some ms) a h q e =
      subst (All (IsAllowed limits)) (cc e) (All-append _ ms (r ∷ []) (a ms refl) (h, tt))

  send-AllAllowed :
      (hash : Uuid → ℕ) (pool : PoolDispatch) (c : jobs.Chans) (r : InferRequest Uuid)
      → AllAllowed c
      → IsAllowed limits r
      → AllAllowed (Pool.send_to_worker jobs hash pool c r).0
  unfolding Pool.send_to_worker
  send-AllAllowed hash pool c r a h w q e =
      let at = shard_for hash r.session_id (worker_count pool) in
      let found = sym (jobs.log-send c at r w) ∙ e in
      elim (Bool-cases (jobs.key_eq at w)) [
        | inl same ↦ logged-All r (jobs.log c at) (a at) h q (ground (arith, found, same))
        | inr other ↦ a w q (ground (arith, found, other))
      ]

  pub channels-AllAllowed : (n : ℕ) → AllAllowed (channels jobs n jobs.closed)
  unfolding channels
  channels-AllAllowed zero w q e = absurd (ground (arith, sym (jobs.log-closed w) ∙ e))
  channels-AllAllowed (suc n) w q e =
      let found = sym (jobs.log-channel (channels jobs n jobs.closed) n w) ∙ e in
      elim (Bool-cases (jobs.key_eq n w)) [
        | inl same ↦
            let fresh : [] ≡ q = ground (arith, found, same) in
            subst (All (IsAllowed limits)) fresh tt
        | inr other ↦ channels-AllAllowed n w q (ground (arith, found, other))
      ]

module _ {t : SessionStores} where
  abbrev pub AllProper : SessionMap t → Type 0
  AllProper m = AllBound t.sessions IsProper m.map

  pub unregister_all-AllProper :
      (ids : List t.Uuid) (m : SessionMap t) → AllProper m → AllProper (unregister_all m ids)
  unfolding unregister_all unregister
  unregister_all-AllProper [] m p = p
  unregister_all-AllProper (id ∷ ids) m p =
      unregister_all-AllProper ids (unregister m id).0
        (remove-AllBound t.sessions IsProper m.map id p)

  pub deliver_map :
      (m : SessionMap t) (tx : Option t.Uuid) (p : Payload) → (deliver m tx p).0.map ≡ m.map
  deliver_map m none p = refl
  deliver_map m (some tx) p = refl

module _ {v : Server} where
  abbrev pub IsClean : LimitsConfig → SttState v → Type 0
  IsClean limits s = AllProper s.sessions × AllAllowed v.jobs limits s.queued

  pub Effect-IsClean :
      (limits : LimitsConfig) (s : SttState v) (id : v.stores.Uuid) (s1 : SttState v)
      → Effect limits s id s1
      → IsClean limits s
      → IsClean limits s1
  Effect-IsClean limits s id s1 unchanged c = c
  Effect-IsClean limits s id s1 (configured st h st1 same hint) (p, a) = (
    insert-AllBound v.stores.sessions IsProper s.sessions.map id st1 p (same ∙ (p id st h).0, hint),
    a,
  )
  Effect-IsClean limits s id s1 (sent st h now samples le) (p, a) = (
    insert-AllBound v.stores.sessions IsProper s.sessions.map id (touch st now) p
        (unfold touch in p id st h),
    send-AllAllowed v.jobs limits v.hash s.job_tx s.queued (request_of id (touch st now) samples) a
        (unfold touch in ((p id st h).1, le)),
  )
