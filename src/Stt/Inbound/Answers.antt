-- ===== src/Stt/Inbound/Answers.antt =====
-- Whose state a frame and an answer touch: the isolation of the sessions.
use nagent.Prelude.{
  ℕ, ◌≡◌, ◌≢◌, ◌⊎◌, inl, inr, refl, ap, subst, ◌∙◌, Bool, true, false, ◌&&◌, ◌==◌, Option, none,
  some, arith, Bool-cases, if◌then◌else◌,
}
use nagent.Prelude.Result.{Result, ok, err}
use nagent.Stt.Channel.{logged}
use nagent.Stt.Proto.{Bytes, Payload}
use nagent.Stt.Validation.{LimitsConfig}
use nagent.Stt.Session.{
  SessionStores, SessionState, SessionMap, OutboundMessage, payload, InferResponse, transcript_of,
  touch, tx_of, send_message, deliver, outbound_for, send_to_session,
}
use nagent.Stt.Pool.{InferRequest, BackendError, response_of, handle_one, shard_for, worker_count}
use nagent.Stt.Pool
use nagent.Stt.Inbound.{
  Server, SttState, session_of, store_session, request_of, handle_inbound, answer_job,
}
use nagent.Stt.Inbound.Effects.{Effect, unchanged, configured, sent, handle_inbound-Effect}
use nagent.Stt.Inbound.Safety.{AllProper, deliver_map}

module _ {v : Server} where
  -- `s1` is `s` but for the session `id` and, at most, one job of it for each worker
  abbrev pub IsIsolated : SttState v → v.stores.Uuid → SttState v → Type 0
  IsIsolated s id s1 =
      ((j : v.stores.Uuid) → id ≢ j → session_of s1 j ≡ session_of s j)
      × (s1.sessions.channels ≡ s.sessions.channels)
      × ((w : ℕ)
          → (v.jobs.log s1.queued w ≡ v.jobs.log s.queued w)
            ⊎ ((r : InferRequest v.stores.Uuid) × (r.session_id ≡ id)
                × (v.jobs.log s1.queued w ≡ logged r (v.jobs.log s.queued w))))

  session_of-store_session :
      (s : SttState v) (id : v.stores.Uuid) (st : SessionState v.stores.Uuid) (j : v.stores.Uuid)
      → id ≢ j
      → session_of (store_session s id st) j ≡ session_of s j
  session_of-store_session s id st j other =
      v.stores.sessions.get-insert s.sessions.map id st j
      ∙ ground (arith, other, v.stores.sessions.key_eq_iff id j)

  log-send :
      (s : SttState v) (job : InferRequest v.stores.Uuid) (w : ℕ)
      → let c = (Pool.send_to_worker v.jobs v.hash s.job_tx s.queued job).0 in
        (v.jobs.log c w ≡ v.jobs.log s.queued w)
        ⊎ (v.jobs.log c w ≡ logged job (v.jobs.log s.queued w))
  unfolding Pool.send_to_worker
  log-send s job w =
      let at = shard_for v.hash job.session_id (worker_count s.job_tx) in
      let step = v.jobs.log-send s.queued at job w in
      elim (Bool-cases (v.jobs.key_eq at w)) [
        | inl same ↦ inr (
            step
            ∙ rw same
                (ap (λ k. logged job (v.jobs.log s.queued k)) ((v.jobs.key_eq_iff at w).0 same)))
        | inr other ↦ inl (step ∙ rw other refl)
      ]

  Effect-IsIsolated :
      (limits : LimitsConfig) (s : SttState v) (id : v.stores.Uuid) (s1 : SttState v)
      → Effect limits s id s1
      → IsIsolated s id s1
  Effect-IsIsolated limits s id s1 unchanged = ((λ j other. refl), refl, (λ w. inl refl))
  Effect-IsIsolated limits s id s1 (configured st h st1 same hint) =
      (session_of-store_session s id st1, refl, (λ w. inl refl))
  Effect-IsIsolated limits s id s1 (sent st h now samples le) = (
    session_of-store_session s id (touch st now),
    refl,
    λ w. elim (log-send s (request_of id (touch st now) samples) w) [
      | inl same ↦ inl same
      | inr more ↦ inr (request_of id (touch st now) samples, refl, more)
    ],
  )

  -- A frame of one session leaves every other session as it is, sends nothing to any channel, and
  -- sends at most one job to a worker, a job of that session.
  pub handle_inbound-IsIsolated :
      (limits : LimitsConfig) (s : SttState v) (id : v.stores.Uuid) (now : ℕ) (bytes : Bytes)
      → IsIsolated s id (handle_inbound limits s id now bytes).0
  handle_inbound-IsIsolated limits s id now bytes =
      Effect-IsIsolated limits s id _ (handle_inbound-Effect limits s id now bytes)

module _ {Uuid : Type 0} (infer : InferRequest Uuid → Result (InferResponse Uuid) BackendError)
    (job : InferRequest Uuid) where
  -- the engine answers for the session that it was asked for
  abbrev pub Echoes : Type 0
  Echoes = (resp : InferResponse Uuid) → infer job ≡ ok resp → resp.session_id ≡ job.session_id

  response_of-session_id :
      (r : Result (InferResponse Uuid) BackendError) (elapsed_ms : ℕ)
      → ((resp : InferResponse Uuid) → r ≡ ok resp → resp.session_id ≡ job.session_id)
      → (response_of r job.session_id elapsed_ms).session_id ≡ job.session_id
  response_of-session_id (ok resp) elapsed_ms echoes =
      let own = echoes resp refl in
      elim (Bool-cases (resp.duration_ms == 0)) [
        | inl unset ↦ rw unset own
        | inr timed ↦ rw timed own
      ]
  response_of-session_id (err e) elapsed_ms echoes = refl

abbrev pub is_registered : {Uuid : Type 0} → Option (SessionState Uuid) → Bool
is_registered none = false
is_registered (some _) = true

module _ {t : SessionStores} where
  send-log :
      (m : SessionMap t) (tx : t.Uuid) (x : OutboundMessage) (j : t.Uuid)
      → t.outbound.log (send_message m tx x).0.channels j ≡ (
          if t.outbound.key_eq tx j
          then logged x (t.outbound.log m.channels j)
          else t.outbound.log m.channels j)
  send-log m tx x j =
      let step = t.outbound.log-send m.channels tx x j in
      elim (Bool-cases (t.outbound.key_eq tx j)) [
        | inl same ↦
            let at =
              ap (λ k. logged x (t.outbound.log m.channels k))
                ((t.outbound.key_eq_iff tx j).0 same) in
            step ∙ rw same at
        | inr other ↦ step ∙ rw other refl
      ]

  -- a message to the channel of a session, if there is one, seen from the channel of `j`
  log-deliver :
      (m : SessionMap t) (id : t.Uuid) (p : Payload) (o : Option (SessionState t.Uuid))
      → ((st : SessionState t.Uuid) → o ≡ some st → st.outbound_tx ≡ id)
      → (j : t.Uuid)
      → t.outbound.log (deliver m (tx_of o) p).0.channels j ≡ (
          if is_registered o && t.outbound.key_eq id j
          then logged (payload p) (t.outbound.log m.channels j)
          else t.outbound.log m.channels j)
  log-deliver m id p none own j = ground arith
  log-deliver m id p (some st) own j =
      subst
        (λ k. t.outbound.log (deliver m (tx_of (some st)) p).0.channels j ≡ (
          if t.outbound.key_eq k j
          then logged (payload p) (t.outbound.log m.channels j)
          else t.outbound.log m.channels j))
        (own st refl) (send-log m st.outbound_tx (payload p) j)

module _ {v : Server} where
  -- With an engine that answers for the session of its request, the answer to a job goes to the end of
  -- the channel of the session that the job belongs to, if that is still registered, and to no other
  -- channel; no session changes.
  pub log-answer_job :
      (infer : InferRequest v.stores.Uuid → Result (InferResponse v.stores.Uuid) BackendError)
      (s : SttState v) (job : InferRequest v.stores.Uuid) (elapsed_ms : ℕ)
      → AllProper s.sessions
      → Echoes infer job
      → (j : v.stores.Uuid)
      → (v.stores.outbound.log (answer_job infer s job elapsed_ms).sessions.channels j ≡ (
          if is_registered (session_of s job.session_id)
            && v.stores.outbound.key_eq job.session_id j
          then logged
              (payload (transcript_of (handle_one infer job elapsed_ms)))
              (v.stores.outbound.log s.sessions.channels j)
          else v.stores.outbound.log s.sessions.channels j))
        × (session_of (answer_job infer s job elapsed_ms) j ≡ session_of s j)
  unfolding answer_job send_to_session outbound_for
  log-answer_job infer s job elapsed_ms proper echoes j =
      let resp = handle_one infer job elapsed_ms in
      let id = response_of-session_id infer job (infer job) elapsed_ms echoes in
      let o = session_of s resp.session_id in
      (
        subst
            (λ k. v.stores.outbound.log (answer_job infer s job elapsed_ms).sessions.channels j ≡ (
              if is_registered (session_of s k) && v.stores.outbound.key_eq k j
              then logged (payload (transcript_of resp))
                  (v.stores.outbound.log s.sessions.channels j)
              else v.stores.outbound.log s.sessions.channels j))
            (unfold handle_one in id)
            (log-deliver s.sessions resp.session_id (transcript_of resp) o
              (λ st e. (proper resp.session_id st e).0) j),
        ap (λ m. v.stores.sessions.get m j) (deliver_map s.sessions (tx_of o) (transcript_of resp)),
      )
