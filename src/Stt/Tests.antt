-- ===== src/Stt/Tests.antt =====
-- A server with two workers, one session, and frames of the small codec.
mod Codec
use native.Mathlib.Decide.{ℕ_discrete}
use nagent.Prelude.{
  ℕ, ◌+◌, ◌^◌, ◌<◌, ◌≤◌, ◌≡◌, ◌≢◌, ◌⊎◌, refl, ap, inl, inr, sym, ◌∙◌, Bool, true, false, not, ◌&&◌,
  Option, none, some, List, [], ◌∷◌, ◌++◌, arith, if◌then◌else◌,
}
use nagent.Prelude.Text.{Text, codes}
use nagent.Prelude.Result.{Result, ok, err}
use nagent.Net.{IpAddr, v4, IpAddr-discrete, is_loopback}
use nagent.Collections.{DashMap, discrete_map}
use nagent.Support.TokenBucket.{TokenBucket}
use nagent.RateLimit
use nagent.Support.SweepClock
use nagent.Support.TokenBucket
use nagent.Support.TokenBucketMap
use nagent.Support.TokenBucketMap.{should_sweep}
use nagent.Collections.Assoc.{lookup, without}
use nagent.Stt.Channel.{Channels, listed}
use nagent.Stt.WsConcurrency
use nagent.Stt.Proto.{
  Bytes, Payload, config, backend, BackendInfo, payload_bytes, as_u8, tag, encode_frame,
  decode_frame,
}
use nagent.Stt.Proto.RoundTrip.{decode_frame-encode_frame, decode_frame-Decoded, Decoded}
use nagent.Stt.Validation.{default_limits}
use nagent.Stt.Session.{
  SessionStores, SessionState, SessionMap, OutboundMessage, register, new_session_map,
}
use nagent.Stt.Pool.{InferRequest, channels}
use nagent.Stt.Inbound.{Server, SttState, handle_inbound}
use nagent.Collections.Assoc.{kept}
use nagent.Stt.Channel.{logged}
use nagent.Stt.WsConcurrency.{global_in_use, per_ip_in_use}
use nagent.Stt.Session.{InferResponse, payload, transcript_of, sweep, is_idle}
use nagent.Stt.Session.Watchdog.{Watched, get-sweep}
use nagent.Stt.Pool.{BackendError, handle_one}
use nagent.Stt.Inbound.{InboundError, answer_job, session_of}
use nagent.Stt.Inbound.Safety.{IsClean}
use nagent.Stt.Inbound.Runs.{Action, opens, frame, answers, watchdog, run, fresh, run-fresh-IsClean}
use nagent.Stt.Inbound.Answers.{
  IsIsolated, handle_inbound-IsIsolated, is_registered, log-answer_job,
}
use nagent.Stt.Connection.{Event, binary_frame, ping_or_pong, ended, ws_upgrade, upgraded}
use nagent.Stt.Connection.Slots.{served, served-ended, served-failed_greeting}
use Codec.{small}

abbrev ids : SessionStores
ids = record {
  Uuid = ℕ;
  sessions = discrete_map ℕ_discrete (SessionState ℕ);
  outbound = listed (discrete_map ℕ_discrete (List OutboundMessage));
}

abbrev server : Server
server = record {
  stores = ids;
  jobs = listed (discrete_map ℕ_discrete (List (InferRequest ℕ)));
  buckets = discrete_map IpAddr-discrete TokenBucket;
  slots = discrete_map IpAddr-discrete ℕ;
  CodecFailure = ℕ;
  wire = small;
  hash = λ id. id;
}

abbrev idle : SttState server
idle = record {
  sessions = new_session_map;
  job_tx = record { senders = 2 };
  queued = channels server.jobs 2 server.jobs.closed;
  rate_limiter = RateLimit.new server.buckets (record { tokens_per_minute = 60 });
  ws_concurrency = WsConcurrency.new 8 4;
}

-- `Config { language: Some("PT-BR"), translate: true }`
abbrev to_portuguese : Payload
to_portuguese = config (record { language = some (codes "PT-BR"); translate = true })

abbrev frame_bytes : Bytes
frame_bytes = 0x12 ∷ 1 ∷ 1 ∷ codes "PT-BR"

decode_frame-encode_frame_example : decode_frame small frame_bytes ≡ ok to_portuguese
unfolding payload_bytes as_u8 tag
decode_frame-encode_frame_example =
    decode_frame-encode_frame small to_portuguese frame_bytes (unfold encode_frame in refl)

-- a job of a session, with so many samples
abbrev job : ℕ → List ℕ → InferRequest ℕ
job id samples = record { session_id = id; samples = samples; language = none; translate = false }

abbrev jobs : List (InferRequest ℕ)
jobs = job 7 (1 ∷ []) ∷ job 4 (2 ∷ []) ∷ job 7 (3 ∷ []) ∷ job 9 (4 ∷ []) ∷ []

-- the engine answers with a text, for the session that asked
abbrev says_hello : InferRequest ℕ → Result (InferResponse ℕ) BackendError
says_hello r = ok (record {
  session_id = r.session_id;
  text = codes "hello";
  segments = [];
  lang = codes "en";
  duration_ms = 0;
})

abbrev audio_bytes : Bytes
audio_bytes = 0x01 ∷ 5 ∷ 6 ∷ []

-- a session opens, asks for Portuguese and speaks
abbrev spoken : List (Action server)
spoken =
    opens 7 1000
    ∷ frame 7 1001 frame_bytes
    ∷ frame 7 1002 audio_bytes
    ∷ answers (job 7 (5 ∷ 6 ∷ [])) 30
    ∷ watchdog 60_000 (λ _. 1003)
    ∷ []

abbrev speaking : SttState server
speaking = run default_limits says_hello idle spoken

abbrev answered_for : Result (InferResponse ℕ) BackendError → ℕ
answered_for (ok resp) = resp.session_id
answered_for (err _) = 7

run-fresh-IsClean_example :
    IsClean default_limits
      (run default_limits says_hello (fresh default_limits says_hello idle 2) spoken)
run-fresh-IsClean_example = run-fresh-IsClean default_limits says_hello idle 2 spoken

handle_inbound-IsIsolated_example :
    IsIsolated speaking 7 (handle_inbound default_limits speaking 7 1004 audio_bytes).0
handle_inbound-IsIsolated_example =
    handle_inbound-IsIsolated default_limits speaking 7 1004 audio_bytes

log-answer_job_example :
    (ids.outbound.log (answer_job says_hello speaking (job 7 (5 ∷ [])) 30).sessions.channels 7 ≡ (
      if is_registered (session_of speaking 7) && ids.outbound.key_eq 7 7
      then logged
          (payload (transcript_of (handle_one says_hello (job 7 (5 ∷ [])) 30)))
          (ids.outbound.log speaking.sessions.channels 7)
      else ids.outbound.log speaking.sessions.channels 7))
    × (session_of (answer_job says_hello speaking (job 7 (5 ∷ [])) 30) 7 ≡ session_of speaking 7)
log-answer_job_example =
    log-answer_job says_hello speaking (job 7 (5 ∷ [])) 30
      (run-fresh-IsClean default_limits says_hello idle 2 spoken).0
      (λ resp e. ap answered_for (sym e)) 7

get-sweep_example :
    Watched ids 500 2000
      (ids.sessions.get speaking.sessions.map 7)
      (ids.sessions.get (sweep speaking.sessions 500 (λ _. 2000)).map 7)
    × ((sweep speaking.sessions 500 (λ _. 2000)).channels ≡ speaking.sessions.channels)
get-sweep_example = get-sweep ids speaking.sessions 500 (λ _. 2000) 7 (omega arith)

abbrev peer : IpAddr
peer = v4 203 0 113 9

pub idle_fits :
    (global_in_use idle.ws_concurrency < idle.ws_concurrency.global_cap + 1)
    × (idle.ws_concurrency.global_cap < 2 ^ 64)
unfolding WsConcurrency.new
idle_fits = (omega arith, omega arith)

-- the texts of the errors
abbrev describe : InboundError ℕ → Text
describe _ = codes "refused"

abbrev describe_limit : IpAddr → ℕ → Text
describe_limit _ _ = codes "rate limited"

abbrev mock : BackendInfo
mock = record { model_id = codes "mock"; gpu_backend = codes "cpu" }

-- its bucket is full, and the slots are free
admitted_first : (ws_upgrade idle (some peer) 5 5).1 ≡ upgraded
unfolding ws_upgrade WsConcurrency.new WsConcurrency.try_admit WsConcurrency.exchange_global
    WsConcurrency.settle WsConcurrency.settle_ip RateLimit.new RateLimit.check is_loopback
    RateLimit.swept_if_due should_sweep SweepClock.tick TokenBucketMap.new
    TokenBucketMap.with_sweep_every TokenBucketMap.try_consume TokenBucketMap.bucket_or_full
    TokenBucket.try_consume TokenBucket.full lookup without IpAddr-discrete ℕ_discrete
admitted_first = refl

-- the client configures its session, and goes
abbrev session_events : List Event
session_events = binary_frame frame_bytes 5 5 1001 true ∷ ping_or_pong ∷ ended ∷ []

served-ended_example :
    let w =
      (served default_limits describe describe_limit idle peer 7 idle_fits 5 5 1000 mock true
        session_events).ws_concurrency in
    (global_in_use w ≡ global_in_use idle.ws_concurrency)
    × (per_ip_in_use w peer ≡ per_ip_in_use idle.ws_concurrency peer)
served-ended_example =
    served-ended default_limits describe describe_limit idle peer 7 idle_fits 5 5 1000 mock
      (binary_frame frame_bytes 5 5 1001 true ∷ ping_or_pong ∷ []) [] peer admitted_first

served-failed_greeting_example :
    let s1 =
      served default_limits describe describe_limit idle peer 7 idle_fits 5 5 1000 mock false
        session_events in
    (session_of s1 7 ≡ none)
    × (global_in_use s1.ws_concurrency ≡ global_in_use idle.ws_concurrency + 1)
    × (per_ip_in_use s1.ws_concurrency peer ≡ per_ip_in_use idle.ws_concurrency peer + 1)
served-failed_greeting_example =
    served-failed_greeting default_limits describe describe_limit idle peer 7 idle_fits 5 5 1000
      mock session_events (0x31 ∷ 4 ∷ codes "mockcpu")
      (unfold encode_frame payload_bytes as_u8 tag in refl) admitted_first
