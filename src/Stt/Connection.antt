-- ===== src/Stt/Connection.antt =====
-- crates/nagent-server/src/stt/ws_handler.rs: `ws_upgrade`, from the address of the client on, and
-- `ws_connection`. The socket is given as what the loop of the connection waits for, event by event,
-- with the readings of the clock and with whether the send that may follow succeeds. The texts of the
-- errors are the arguments `describe` and `describe_limit`.
pub mod Ends
pub mod Slots
use nagent.Prelude.{ℕ, Bool, true, false, Option, none, some, List, [], ◌∷◌, ◌++◌, if◌then◌else◌}
use nagent.Prelude.Text.{Text}
use nagent.Prelude.Result.{Result, ok, err}
use nagent.Net.{IpAddr}
use nagent.Collections.{DashMap}
use nagent.RateLimit.{CheckResult, limited, retry_secs, check, check_opt}
use nagent.RateLimit
use nagent.Stt.WsConcurrency.{
  WsConcurrency, AdmitDecision, admitted, global_full, per_ip_full, try_admit, release_global,
  release_with_ip,
}
use nagent.Stt.Proto.{
  Bytes, Payload, error, backend, BackendInfo, Postcard, CodecError, encode_frame,
}
use nagent.Stt.Validation.{LimitsConfig}
use nagent.Stt.Session.{OutboundMessage, payload, close, register, unregister}
use nagent.Stt.Inbound.{
  Server, SttState, InboundError, codec, client_stop, worker_unavailable, validation, Handled,
  handle_inbound,
}

-- the answer to the request for an upgrade
pub data Upgrade : Type 0 where
  upgraded : Upgrade
  -- 503, to be tried again in a second
  concurrency_full : Upgrade
  -- 429, to be tried again in so many seconds
  too_many_requests : ℕ → Upgrade

-- what is sent over the socket
pub data Sent : Type 0 where
  binary : Bytes → Sent
  policy_close plain_close : Sent

pub data Event : Type 0 where
  -- a binary frame, the two readings of the limiter's clock, that of the session's, and whether an
  -- error frame can be sent
  binary_frame : Bytes → ℕ → ℕ → ℕ → Bool → Event
  client_close ping_or_pong text_frame broken ended : Event
  -- a message for the client, and whether it can be sent
  outbound : OutboundMessage → Bool → Event
  outbound_ended : Event

-- where the loop is: it goes round, or it has been left
pub data Flow (v : Server) : Type 0 where
  next : SttState v → List Sent → Flow v
  left : SttState v → List Sent → Flow v

module _ {v : Server} where
  abbrev pub settled : SttState v → WsConcurrency v.slots × AdmitDecision → SttState v × Upgrade
  settled s (w, admitted) = (record s { ws_concurrency = w }, upgraded)
  settled s (w, global_full) = (record s { ws_concurrency = w }, concurrency_full)
  settled s (w, per_ip_full) = (record s { ws_concurrency = w }, concurrency_full)

  abbrev pub admit : SttState v → Option IpAddr → SttState v × Upgrade
  admit s client = settled s (try_admit s.ws_concurrency client)

  abbrev pub admit_checked : SttState v → IpAddr → CheckResult → SttState v × Upgrade
  admit_checked s ip RateLimit.ok = admit s (some ip)
  admit_checked s ip (limited _ retry_after_ms) = (s, too_many_requests (retry_secs retry_after_ms))

  unfoldable pub ws_upgrade : SttState v → Option IpAddr → ℕ → ℕ → SttState v × Upgrade
  unfolding try_admit check
  ws_upgrade s none swept_at now = admit s none
  ws_upgrade s (some ip) swept_at now =
      let (l, r) = check s.rate_limiter ip swept_at now in
      admit_checked (record s { rate_limiter = l }) ip r

-- the next turn, unless the loop was left
abbrev pub after : {v : Server} → (SttState v → List Sent → Flow v) → Flow v → Flow v
after k (next s out) = k s out
after k (left s out) = left s out

-- a payload, if it can be encoded
abbrev pub encoded : {E : Type 0} → Result Bytes E → List Sent
encoded (ok bytes) = binary bytes ∷ []
encoded (err _) = []

abbrev pub error_frame : {E : Type 0} → Postcard E → Text → List Sent
error_frame wire message =
    encoded (encode_frame wire (error (record { code = 1; message = message })))

abbrev pub release : {d : DashMap IpAddr ℕ} → WsConcurrency d → Option IpAddr → WsConcurrency d
release w (some ip) = release_with_ip w ip
release w none = release_global w

module _ {v : Server} (limits : LimitsConfig) (describe : InboundError v.CodecFailure → Text)
    (describe_limit : IpAddr → ℕ → Text) (peer : Option IpAddr) (id : v.stores.Uuid) where
  abbrev pub after_inbound : Handled v → Bool → List Sent → Flow v
  after_inbound (s, ok _) can_send out = next s out
  after_inbound (s, err client_stop) can_send out = left s out
  after_inbound (s, err e) can_send out =
      next s (if can_send then out ++ error_frame v.wire (describe e) else out)

  abbrev pub on_frame : SttState v → CheckResult → Bytes → ℕ → Bool → List Sent → Flow v
  on_frame s RateLimit.ok bytes now can_send out =
      after_inbound (handle_inbound limits s id now bytes) can_send out
  on_frame s (limited ip wait) bytes now can_send out = left s (
      if can_send
      then out ++ error_frame v.wire (describe_limit ip wait) ++ policy_close ∷ []
      else out)

  abbrev pub forward_payload :
      {E : Type 0} → SttState v → Result Bytes E → Bool → List Sent → Flow v
  forward_payload s (ok bytes) can_send out =
      if can_send then next s (out ++ binary bytes ∷ []) else left s out
  forward_payload s (err _) can_send out = next s out

  abbrev pub on_outbound : SttState v → OutboundMessage → Bool → List Sent → Flow v
  on_outbound s (payload p) can_send out = forward_payload s (encode_frame v.wire p) can_send out
  on_outbound s close can_send out = left s (if can_send then out ++ plain_close ∷ [] else out)

  -- one turn of `select!`
  unfoldable pub turn : SttState v → List Sent → Event → Flow v
  unfolding handle_inbound check_opt encode_frame
  turn s out (binary_frame bytes swept_at now now_ms can_send) =
      let (l, r) = check_opt s.rate_limiter peer swept_at now in
      on_frame (record s { rate_limiter = l }) r bytes now_ms can_send out
  turn s out client_close = left s out
  turn s out ping_or_pong = next s out
  turn s out text_frame = next s out
  turn s out broken = left s out
  turn s out ended = left s out
  turn s out (outbound m can_send) = on_outbound s m can_send out
  turn s out outbound_ended = left s out

  -- the loop over the events, until it is left or there is no event yet
  unfoldable pub event_loop : SttState v → List Sent → List Event → Flow v
  event_loop s out [] = next s out
  event_loop s out (e ∷ es) = after (λ s1 out1. event_loop s1 out1 es) (turn s out e)

  -- what follows the loop
  unfoldable pub finish : SttState v → SttState v
  unfolding unregister release_with_ip release_global
  finish s = record s {
    sessions = (unregister s.sessions id).0;
    ws_concurrency = release s.ws_concurrency peer;
  }

  abbrev pub finished : Flow v → Flow v
  finished (next s out) = next s out
  finished (left s out) = left (finish s) out

  -- the session runs once the backend has been announced, or cannot be encoded
  abbrev pub greeted :
      SttState v → Result Bytes (CodecError v.CodecFailure) → Bool → List Event → Flow v
  greeted s (ok bytes) can_send es =
      if can_send
      then finished (event_loop s (binary bytes ∷ []) es)
      else left (record s { sessions = (unregister s.sessions id).0 }) []
  greeted s (err _) can_send es = finished (event_loop s [] es)

  unfoldable pub ws_connection : SttState v → ℕ → BackendInfo → Bool → List Event → Flow v
  unfolding register event_loop finish encode_frame
  ws_connection s now info can_send es =
      greeted (record s { sessions = register s.sessions id now })
        (encode_frame v.wire (backend info)) can_send es
