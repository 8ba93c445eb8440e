-- ===== src/Stt/Inbound.antt =====
-- crates/nagent-server/src/stt/ws_handler.rs: `handle_inbound`, the work on one frame of a client, and
-- what becomes of its job; `SttState` of state.rs. A session's state stands in the map, and the code
-- changes it there through a shared pointer; the clock is an argument. The job that is sent carries
-- what its answer needs, the session that it belongs to.
pub mod Effects
pub mod Safety
pub mod Runs
pub mod Answers
use nagent.Prelude.{ℕ, Bool, Option, none, some, List, [], ◌∷◌, if◌then◌else◌}
use nagent.Prelude.Text.{Text, to_ascii_lowercase}
use nagent.Prelude.Result.{Result, ok, err}
use nagent.Net.{IpAddr}
use nagent.Collections.{DashMap}
use nagent.Support.TokenBucket.{TokenBucket}
use nagent.RateLimit.{RateLimiter}
use nagent.Stt.WsConcurrency.{WsConcurrency}
use nagent.Stt.Channel.{Channels}
use nagent.Stt.Proto.{
  Bytes, Payload, audio, start, stop, config, partial, final, error, backend, Postcard, CodecError,
  decode_frame,
}
use nagent.Stt.Validation.{
  LimitsConfig, FrameError, validate_start, validate_config, validate_audio,
}
use nagent.Stt.Session.{
  SessionStores, SessionState, SessionMap, touch, set_language, set_translate, send_to_session,
  InferResponse, transcript_of,
}
use nagent.Stt.Pool.{InferRequest, PoolDispatch, BackendError, handle_one}
use nagent.Stt.Pool

pub record Server : Type 1 where
  pub stores : SessionStores
  pub jobs : Channels ℕ (InferRequest stores.Uuid)
  pub buckets : DashMap IpAddr TokenBucket
  pub slots : DashMap IpAddr ℕ
  pub CodecFailure : Type 0
  pub wire : Postcard CodecFailure
  pub hash : stores.Uuid → ℕ

-- `queued` is the channels to the workers
pub record SttState (v : Server) : Type 0 where
  pub sessions : SessionMap v.stores
  pub job_tx : PoolDispatch
  pub queued : v.jobs.Chans
  pub rate_limiter : RateLimiter v.buckets
  pub ws_concurrency : WsConcurrency v.slots

pub data InboundError (E : Type 0) : Type 0 where
  codec : CodecError E → InboundError E
  client_stop worker_unavailable : InboundError E
  validation : FrameError → InboundError E

unfoldable pub normalize_lang_hint : Option Text → Option Text
normalize_lang_hint none = none
normalize_lang_hint (some s) = some (to_ascii_lowercase s)

abbrev pub Handled : Server → Type 0
Handled v = SttState v × Result Unit (InboundError v.CodecFailure)

-- the job of an audio frame, with what the session is set to
abbrev pub request_of : {Uuid : Type 0} → Uuid → SessionState Uuid → List ℕ → InferRequest Uuid
request_of id st samples = record {
  session_id = id;
  samples = samples;
  language = st.language;
  translate = st.translate;
}

module _ {v : Server} where
  abbrev pub session_of : SttState v → v.stores.Uuid → Option (SessionState v.stores.Uuid)
  session_of s id = v.stores.sessions.get s.sessions.map id

  -- a session's state is replaced, where it stands
  abbrev pub store_session : SttState v → v.stores.Uuid → SessionState v.stores.Uuid → SttState v
  store_session s id st = record s {
    sessions = record s.sessions { map = v.stores.sessions.insert s.sessions.map id st };
  }

  -- `if let Some(state) = ...`
  abbrev pub updated :
      SttState v
      → v.stores.Uuid
      → (SessionState v.stores.Uuid → SessionState v.stores.Uuid)
      → Option (SessionState v.stores.Uuid)
      → SttState v
  updated s id f none = s
  updated s id f (some st) = store_session s id (f st)

  abbrev pub update_session :
      SttState v
      → v.stores.Uuid
      → (SessionState v.stores.Uuid → SessionState v.stores.Uuid)
      → SttState v
  update_session s id f = updated s id f (session_of s id)

  abbrev pub send_job : SttState v → InferRequest v.stores.Uuid → Handled v
  send_job s job =
      let (queued, taken) = Pool.send_to_worker v.jobs v.hash s.job_tx s.queued job in
      (record s { queued = queued }, if taken then ok tt else err worker_unavailable)

  -- an accepted audio frame of a session
  unfoldable pub transcribe :
      SttState v → v.stores.Uuid → ℕ → List ℕ → Option (SessionState v.stores.Uuid) → Handled v
  unfolding touch Pool.send_to_worker
  transcribe s id now samples none = (s, ok tt)
  transcribe s id now samples (some st) =
      send_job (store_session s id (touch st now)) (request_of id (touch st now) samples)

  -- the work behind a check
  abbrev pub checked : Result Unit FrameError → SttState v → Handled v → Handled v
  checked (ok _) s r = r
  checked (err e) s r = (s, err (validation e))

  unfoldable pub on_payload : LimitsConfig → SttState v → v.stores.Uuid → ℕ → Payload → Handled v
  unfolding validate_start validate_config validate_audio set_language set_translate touch
      normalize_lang_hint transcribe
  on_payload limits s id now (start x) =
      checked (validate_start limits x.sample_rate x.lang_hint) s (
        update_session s id (λ st. set_language (touch st now) (normalize_lang_hint x.lang_hint)),
        ok tt,
      )
  on_payload limits s id now (stop x) = (s, err client_stop)
  on_payload limits s id now (config x) = checked (validate_config limits x.language) s (
    update_session s id (λ st.
        set_translate (set_language (touch st now) (normalize_lang_hint x.language)) x.translate),
    ok tt,
  )
  on_payload limits s id now (audio x) =
      checked (validate_audio limits x.samples) s (transcribe s id now x.samples (session_of s id))
  on_payload limits s id now (partial x) = (s, ok tt)
  on_payload limits s id now (final x) = (s, ok tt)
  on_payload limits s id now (error x) = (s, ok tt)
  on_payload limits s id now (backend x) = (s, ok tt)

  -- what a frame was decoded to
  abbrev pub on_decoded :
      LimitsConfig
      → SttState v
      → v.stores.Uuid
      → ℕ
      → Result Payload (CodecError v.CodecFailure)
      → Handled v
  on_decoded limits s id now (ok payload) = on_payload limits s id now payload
  on_decoded limits s id now (err e) = (s, err (codec e))

  unfoldable pub handle_inbound : LimitsConfig → SttState v → v.stores.Uuid → ℕ → Bytes → Handled v
  unfolding decode_frame
  handle_inbound limits s id now bytes = on_decoded limits s id now (decode_frame v.wire bytes)

  -- a worker does a job, and the task that waits for the answer passes it on
  unfoldable pub answer_job :
      (InferRequest v.stores.Uuid → Result (InferResponse v.stores.Uuid) BackendError)
      → SttState v
      → InferRequest v.stores.Uuid
      → ℕ
      → SttState v
  unfolding handle_one send_to_session
  answer_job infer s job elapsed_ms =
      let resp = handle_one infer job elapsed_ms in
      record s { sessions = (send_to_session s.sessions resp.session_id (transcript_of resp)).0 }
