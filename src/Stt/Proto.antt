-- ===== src/Stt/Proto.antt =====
-- crates/stt-proto/src/lib.rs: the frames of the speech protocol. The bytes of a payload are those of
-- the `postcard` crate, which is the parameter `Postcard`: `to_allocvec` and `from_bytes` at each
-- payload, where a value that was serialized is read back. A sample is the number of its 32 bits,
-- which the codec only moves.
pub mod RoundTrip
use nagent.Prelude.{ℕ, ◌≡◌, Bool, ◌==◌, Option, none, some, List, [], ◌∷◌, if◌then◌else◌}
use nagent.Prelude.Text.{Text}
use nagent.Prelude.Result.{Result, ok, err, map_ok, map_err}

abbrev pub Bytes : Type 0
Bytes = List ℕ

abbrev pub F32 : Type 0
F32 = ℕ

pub data Tag : Type 0 where
  audio_frame start_session stop_session config_update partial_transcript : Tag
  final_transcript error_report backend_info : Tag

-- `tag as u8`
unfoldable pub as_u8 : Tag → ℕ
as_u8 audio_frame = 0x01
as_u8 start_session = 0x10
as_u8 stop_session = 0x11
as_u8 config_update = 0x12
as_u8 partial_transcript = 0x20
as_u8 final_transcript = 0x21
as_u8 error_report = 0x30
as_u8 backend_info = 0x31

unfoldable pub from_u8 : ℕ → Option Tag
from_u8 byte =
    if byte == 0x01
    then some audio_frame
    else if byte == 0x10
    then some start_session
    else if byte == 0x11
    then some stop_session
    else if byte == 0x12
    then some config_update
    else if byte == 0x20
    then some partial_transcript
    else if byte == 0x21
    then some final_transcript
    else if byte == 0x30
    then some error_report
    else if byte == 0x31
    then some backend_info
    else none

pub record AudioFrame : Type 0 where
  pub samples : List F32

pub record StartSession : Type 0 where
  pub lang_hint : Option Text
  pub sample_rate : ℕ

pub record StopSession : Type 0 where

pub record Config : Type 0 where
  pub language : Option Text
  pub translate : Bool

pub record Segment : Type 0 where
  pub text : Text
  pub t0_ms : ℕ
  pub t1_ms : ℕ
  pub no_speech_prob : F32

pub record PartialTranscript : Type 0 where
  pub text : Text
  pub t0_ms : ℕ
  pub t1_ms : ℕ
  pub lang : Text

pub record FinalTranscript : Type 0 where
  pub text : Text
  pub segments : List Segment
  pub lang : Text

pub record ErrorMessage : Type 0 where
  pub code : ℕ
  pub message : Text

pub record BackendInfo : Type 0 where
  pub model_id : Text
  pub gpu_backend : Text

pub data Payload : Type 0 where
  audio : AudioFrame → Payload
  start : StartSession → Payload
  stop : StopSession → Payload
  config : Config → Payload
  partial : PartialTranscript → Payload
  final : FinalTranscript → Payload
  error : ErrorMessage → Payload
  backend : BackendInfo → Payload

unfoldable pub tag : Payload → Tag
tag (audio _) = audio_frame
tag (start _) = start_session
tag (stop _) = stop_session
tag (config _) = config_update
tag (partial _) = partial_transcript
tag (final _) = final_transcript
tag (error _) = error_report
tag (backend _) = backend_info

-- `postcard` at one type
pub record Serde (E A : Type 0) : Type 0 where
  pub to_allocvec : A → Result Bytes E
  pub from_bytes : Bytes → Result A E
  pub from_bytes-to_allocvec : (a : A) (bs : Bytes) → to_allocvec a ≡ ok bs → from_bytes bs ≡ ok a

pub record Postcard (E : Type 0) : Type 0 where
  pub audio_frames : Serde E AudioFrame
  pub start_sessions : Serde E StartSession
  pub stop_sessions : Serde E StopSession
  pub configs : Serde E Config
  pub partial_transcripts : Serde E PartialTranscript
  pub final_transcripts : Serde E FinalTranscript
  pub error_messages : Serde E ErrorMessage
  pub backend_infos : Serde E BackendInfo

pub data CodecError (E : Type 0) : Type 0 where
  empty_frame : CodecError E
  unknown_tag : ℕ → CodecError E
  postcard : E → CodecError E

module _ {E : Type 0} (p : Postcard E) where
  -- a payload's bytes, without the enum around it
  unfoldable pub payload_bytes : Payload → Result Bytes E
  payload_bytes (audio a) = p.audio_frames.to_allocvec a
  payload_bytes (start a) = p.start_sessions.to_allocvec a
  payload_bytes (stop a) = p.stop_sessions.to_allocvec a
  payload_bytes (config a) = p.configs.to_allocvec a
  payload_bytes (partial a) = p.partial_transcripts.to_allocvec a
  payload_bytes (final a) = p.final_transcripts.to_allocvec a
  payload_bytes (error a) = p.error_messages.to_allocvec a
  payload_bytes (backend a) = p.backend_infos.to_allocvec a

  unfoldable pub encode_frame : Payload → Result Bytes (CodecError E)
  encode_frame payload =
      map_ok (λ buf. as_u8 (tag payload) ∷ buf) (map_err postcard (payload_bytes payload))

  -- a payload that was read, or `?`
  abbrev pub lift : {A : Type 0} → (A → Payload) → Result A E → Result Payload (CodecError E)
  lift f r = map_ok f (map_err postcard r)

  unfoldable pub from_tagged : Tag → Bytes → Result Payload (CodecError E)
  from_tagged audio_frame tail = lift audio (p.audio_frames.from_bytes tail)
  from_tagged start_session tail = lift start (p.start_sessions.from_bytes tail)
  from_tagged stop_session tail = lift stop (p.stop_sessions.from_bytes tail)
  from_tagged config_update tail = lift config (p.configs.from_bytes tail)
  from_tagged partial_transcript tail = lift partial (p.partial_transcripts.from_bytes tail)
  from_tagged final_transcript tail = lift final (p.final_transcripts.from_bytes tail)
  from_tagged error_report tail = lift error (p.error_messages.from_bytes tail)
  from_tagged backend_info tail = lift backend (p.backend_infos.from_bytes tail)

  -- what follows a tag byte, from the tag
  abbrev pub decode_tagged : ℕ → Bytes → Option Tag → Result Payload (CodecError E)
  decode_tagged head tail none = err (unknown_tag head)
  decode_tagged head tail (some t) = from_tagged t tail

  unfoldable pub decode_frame : Bytes → Result Payload (CodecError E)
  decode_frame [] = err empty_frame
  decode_frame (head ∷ tail) = decode_tagged head tail (from_u8 head)
