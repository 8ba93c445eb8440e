-- ===== src/Stt/Proto/RoundTrip.antt =====
-- A frame that was encoded is decoded to its payload; what a frame starts with.
use nagent.Prelude.{
  ℕ, ◌≡◌, ◌≢◌, ◌⊎◌, inl, inr, refl, sym, ap, subst, ◌∙◌, some, ◌∷◌, arith, Option-cases,
}
use nagent.Prelude.Result.{Result, ok, err, map_ok, map_err}
use nagent.Stt.Proto.{
  Bytes, Tag, audio_frame, start_session, stop_session, config_update, partial_transcript,
  final_transcript, error_report, backend_info, as_u8, from_u8, Payload, audio, start, stop, config,
  partial, final, error, backend, tag, Serde, Postcard, CodecError, unknown_tag, postcard,
  payload_bytes, encode_frame, decode_tagged, lift, from_tagged, decode_frame,
}

pub from_u8-as_u8 : (t : Tag) → from_u8 (as_u8 t) ≡ some t
unfolding from_u8 as_u8
from_u8-as_u8 audio_frame = refl
from_u8-as_u8 start_session = refl
from_u8-as_u8 stop_session = refl
from_u8-as_u8 config_update = refl
from_u8-as_u8 partial_transcript = refl
from_u8-as_u8 final_transcript = refl
from_u8-as_u8 error_report = refl
from_u8-as_u8 backend_info = refl

pub from_u8_sound : (b : ℕ) (t : Tag) → from_u8 b ≡ some t → as_u8 t ≡ b
unfolding from_u8 as_u8
from_u8_sound b t h = ground (arith, h)

module _ {E : Type 0} (p : Postcard E) where
  abbrev framed : Payload → Result Bytes E → Result Bytes (CodecError E)
  framed x r = map_ok (λ buf. as_u8 (tag x) ∷ buf) (map_err postcard r)

  lift-payload :
      {A : Type 0} (s : Serde E A) (f : A → Payload) (a : A) (buf : Bytes)
      → s.to_allocvec a ≡ ok buf
      → lift p f (s.from_bytes buf) ≡ ok (f a)
  lift-payload s f a buf h = ap (lift p f) (s.from_bytes-to_allocvec a buf h)

  from_tagged-payload_bytes :
      (x : Payload) (buf : Bytes) → payload_bytes p x ≡ ok buf → from_tagged p (tag x) buf ≡ ok x
  unfolding payload_bytes from_tagged tag
  from_tagged-payload_bytes (audio a) buf h = lift-payload p.audio_frames audio a buf h
  from_tagged-payload_bytes (start a) buf h = lift-payload p.start_sessions start a buf h
  from_tagged-payload_bytes (stop a) buf h = lift-payload p.stop_sessions stop a buf h
  from_tagged-payload_bytes (config a) buf h = lift-payload p.configs config a buf h
  from_tagged-payload_bytes (partial a) buf h = lift-payload p.partial_transcripts partial a buf h
  from_tagged-payload_bytes (final a) buf h = lift-payload p.final_transcripts final a buf h
  from_tagged-payload_bytes (error a) buf h = lift-payload p.error_messages error a buf h
  from_tagged-payload_bytes (backend a) buf h = lift-payload p.backend_infos backend a buf h

  decode_frame-framed :
      (x : Payload) (r : Result Bytes E) (frame : Bytes)
      → payload_bytes p x ≡ r
      → framed x r ≡ ok frame
      → decode_frame p frame ≡ ok x
  unfolding decode_frame
  decode_frame-framed x (ok buf) frame e h =
      let decoded : decode_frame p (as_u8 (tag x) ∷ buf) ≡ ok x =
        ap (decode_tagged p (as_u8 (tag x)) buf) (from_u8-as_u8 (tag x))
        ∙ from_tagged-payload_bytes x buf e in
      subst (λ f. decode_frame p f ≡ ok x) {x = as_u8 (tag x) ∷ buf} (cc h) decoded
  decode_frame-framed x (err e) frame _ h = absurd (cc h)

  -- A payload that is encoded to a frame is decoded from that frame, whatever its kind.
  pub decode_frame-encode_frame :
      (x : Payload) (frame : Bytes) → encode_frame p x ≡ ok frame → decode_frame p frame ≡ ok x
  unfolding encode_frame
  decode_frame-encode_frame x frame h = decode_frame-framed x (payload_bytes p x) frame refl h

  -- what a tail is read as, under a tag
  abbrev Reading : Tag → Result Payload (CodecError E) → Type 0
  Reading t r = ((x : Payload) × (tag x ≡ t) × (r ≡ ok x)) ⊎ ((e : E) × (r ≡ err (postcard e)))

  lift-Reading :
      {A : Type 0} (t : Tag) (f : A → Payload)
      → ((a : A) → tag (f a) ≡ t)
      → (r : Result A E) → Reading t (lift p f r)
  lift-Reading t f same (ok a) = inl (f a, same a, refl)
  lift-Reading t f same (err e) = inr (e, refl)

  from_tagged-Reading : (t : Tag) (tail : Bytes) → Reading t (from_tagged p t tail)
  unfolding from_tagged tag
  from_tagged-Reading audio_frame tail = lift-Reading _ audio (λ _. refl) _
  from_tagged-Reading start_session tail = lift-Reading _ start (λ _. refl) _
  from_tagged-Reading stop_session tail = lift-Reading _ stop (λ _. refl) _
  from_tagged-Reading config_update tail = lift-Reading _ config (λ _. refl) _
  from_tagged-Reading partial_transcript tail = lift-Reading _ partial (λ _. refl) _
  from_tagged-Reading final_transcript tail = lift-Reading _ final (λ _. refl) _
  from_tagged-Reading error_report tail = lift-Reading _ error (λ _. refl) _
  from_tagged-Reading backend_info tail = lift-Reading _ backend (λ _. refl) _

  -- what a frame is decoded to, from its first byte
  abbrev pub Decoded : ℕ → Result Payload (CodecError E) → Type 0
  Decoded b r =
      (((t : Tag) → as_u8 t ≢ b) × (r ≡ err (unknown_tag b)))
      ⊎ ((t : Tag) × (as_u8 t ≡ b) × Reading t r)

  -- A frame whose first byte is no tag's is refused with that byte, whatever follows it. Any other
  -- frame is decoded to a payload of the kind that the byte names, or refused by `postcard`.
  pub decode_frame-Decoded : (b : ℕ) (tail : Bytes) → Decoded b (decode_frame p (b ∷ tail))
  unfolding decode_frame
  decode_frame-Decoded b tail = elim (Option-cases (from_u8 b)) [
    | inl missing ↦
        inl (
          (λ t e. cc (missing, ap from_u8 e, from_u8-as_u8 t)),
          ap (decode_tagged p b tail) missing,
        )
    | inr (t, e) ↦ inr (
      t,
      from_u8_sound b t e,
      subst (Reading t) (sym (ap (decode_tagged p b tail) e)) (from_tagged-Reading t tail),
    )
  ]
