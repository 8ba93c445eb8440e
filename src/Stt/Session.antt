-- ===== src/Stt/Session.antt =====
-- crates/nagent-server/src/stt/session.rs, with result_router.rs and watchdog.rs: the sessions, and
-- the channel of each. Every reading of the clock is an argument, in milliseconds. The identifier of
-- a new session is an argument, and names its channel.
pub mod Watchdog
use nagent.Prelude.{
  ℕ, ◌-◌, ◌/◌, min, max, Bool, true, false, leb, Option, none, some, List, [], ◌∷◌, if◌then◌else◌,
}
use nagent.Prelude.Text.{Text}
use nagent.Prelude.Words.{from_secs}
use nagent.Collections.{DashMap}
use nagent.Stt.Channel.{Channels}
use nagent.Stt.Proto.{Payload, Segment, FinalTranscript, final}

pub data OutboundMessage : Type 0 where
  payload : Payload → OutboundMessage
  close : OutboundMessage

pub record SessionState (Uuid : Type 0) : Type 0 where
  -- the sender of the session's channel, by its name
  pub outbound_tx : Uuid
  pub language : Option Text
  pub translate : Bool
  pub last_activity_ms : ℕ

pub record SessionStores : Type 1 where
  pub Uuid : Type 0
  pub sessions : DashMap Uuid (SessionState Uuid)
  pub outbound : Channels Uuid OutboundMessage

-- the map of the sessions, and their channels
pub record SessionMap (s : SessionStores) : Type 0 where
  pub map : s.sessions.Map
  pub channels : s.outbound.Chans

module _ {Uuid : Type 0} where
  unfoldable pub new : Uuid → ℕ → SessionState Uuid
  new tx now = record {
    outbound_tx = tx;
    language = none;
    translate = false;
    last_activity_ms = now;
  }

  unfoldable pub touch : SessionState Uuid → ℕ → SessionState Uuid
  touch st now = record st { last_activity_ms = now }

  unfoldable pub is_idle : SessionState Uuid → ℕ → ℕ → Bool
  is_idle st timeout_ms now = leb timeout_ms (now - st.last_activity_ms)

  unfoldable pub set_language : SessionState Uuid → Option Text → SessionState Uuid
  set_language st lang = record st { language = lang }

  unfoldable pub set_translate : SessionState Uuid → Bool → SessionState Uuid
  set_translate st v = record st { translate = v }

abbrev pub tx_of : {Uuid : Type 0} → Option (SessionState Uuid) → Option Uuid
tx_of none = none
tx_of (some st) = some st.outbound_tx

module _ {s : SessionStores} where
  unfoldable pub new_session_map : SessionMap s
  new_session_map = record { map = s.sessions.empty; channels = s.outbound.closed }

  unfoldable pub register : SessionMap s → s.Uuid → ℕ → SessionMap s
  unfolding new
  register m id now = record {
    map = s.sessions.insert m.map id (new id now);
    channels = s.outbound.channel m.channels id;
  }

  unfoldable pub unregister : SessionMap s → s.Uuid → SessionMap s × Option (SessionState s.Uuid)
  unregister m id = (record m { map = s.sessions.remove m.map id }, s.sessions.get m.map id)

  unfoldable pub outbound_for : SessionMap s → s.Uuid → Option s.Uuid
  outbound_for m id = tx_of (s.sessions.get m.map id)

  -- `tx.send`
  abbrev pub send_message : SessionMap s → s.Uuid → OutboundMessage → SessionMap s × Bool
  send_message m tx msg =
      let (channels, taken) = s.outbound.send m.channels tx msg in
      (record m { channels = channels }, taken)

  -- a message to the sender that was found, if one was
  abbrev pub deliver : SessionMap s → Option s.Uuid → Payload → SessionMap s × Bool
  deliver m none p = (m, false)
  deliver m (some tx) p = send_message m tx (payload p)

  unfoldable pub send_to_session : SessionMap s → s.Uuid → Payload → SessionMap s × Bool
  unfolding outbound_for
  send_to_session m id p = deliver m (outbound_for m id) p

module _ {Uuid : Type 0} where
  -- the identifiers that a pass collects; `now id` is the clock when `id` is looked at
  unfoldable pub idle_sessions : List (Uuid × SessionState Uuid) → ℕ → (Uuid → ℕ) → List Uuid
  unfolding is_idle
  idle_sessions [] idle_ms now = []
  idle_sessions ((id, st) ∷ es) idle_ms now =
      let rest = idle_sessions es idle_ms now in
      if is_idle st idle_ms (now id) then id ∷ rest else rest

-- what a worker answers
pub record InferResponse (Uuid : Type 0) : Type 0 where
  pub session_id : Uuid
  pub text : Text
  pub segments : List Segment
  pub lang : Text
  pub duration_ms : ℕ

abbrev pub transcript_of : {Uuid : Type 0} → InferResponse Uuid → Payload
transcript_of resp = final (record { text = resp.text; segments = resp.segments; lang = resp.lang })

module _ {s : SessionStores} where
  -- `ResultRouter::route`
  unfoldable pub route : SessionMap s → InferResponse s.Uuid → SessionMap s
  unfolding outbound_for
  route m resp = (deliver m (outbound_for m resp.session_id) (transcript_of resp)).0

  unfoldable pub unregister_all : SessionMap s → List s.Uuid → SessionMap s
  unfolding unregister
  unregister_all m [] = m
  unregister_all m (id ∷ ids) = unregister_all (unregister m id).0 ids

  -- `watchdog::sweep`
  unfoldable pub sweep : SessionMap s → ℕ → (s.Uuid → ℕ) → SessionMap s
  unfolding idle_sessions unregister_all
  sweep m idle_ms now = unregister_all m (idle_sessions (s.sessions.iter m.map) idle_ms now)

-- the time between two passes, in nanoseconds
unfoldable pub watchdog_tick : ℕ → ℕ
watchdog_tick idle_timeout = min (max (idle_timeout / 3) (from_secs 1)) (from_secs 30)
