-- ===== src/Stt/Inbound/Effects.antt =====
-- What one frame can do to the server.
use nagent.Prelude.{
  ℕ, ◌≤◌, ◌≡◌, inl, inr, refl, true, ◌==◌, Option, none, some, List, [], ◌∷◌, length, any, In,
  arith, Bool-cases,
}
use nagent.Prelude.Text.{Text, text_eq, text_eq_sound, to_ascii_lowercase}
use nagent.Prelude.Result.{Result, ok, err}
use nagent.Stt.Proto.{
  Bytes, Payload, audio, start, stop, config, partial, final, error, backend, decode_frame,
}
use nagent.Stt.Validation.{
  LimitsConfig, FrameError, language_hint_too_long, unknown_language_hint,
  config_language_hint_too_long, config_unknown_language_hint, allowed_lang_hints, is_allowed_lang,
  check_hint, validate_start, validate_config, validate_audio,
}
use nagent.Stt.Session.{SessionState, touch, set_language, set_translate}
use nagent.Stt.Inbound.{
  Server, SttState, Handled, normalize_lang_hint, session_of, store_session, updated, request_of,
  send_job, transcribe, checked, on_payload, on_decoded, handle_inbound,
}

-- no override, or a language of the allow list
abbrev pub IsHint : Option Text → Type 0
IsHint none = Unit
IsHint (some lang) = In lang allowed_lang_hints

any-text_eq : (s : Text) (xs : List Text) → any (λ allowed. text_eq allowed s) xs ≡ true → In s xs
any-text_eq s [] h = ground (arith, h)
any-text_eq s (x ∷ xs) h = elim (Bool-cases (text_eq x s)) [
  | inl same ↦ inl (text_eq_sound x s same)
  | inr other ↦ inr (any-text_eq s xs (ground (arith, other, h)))
]

module _ (limits : LimitsConfig) where
  check_hint-IsHint :
      (too_long : ℕ → ℕ → FrameError) (unknown : Text → FrameError) (hint : Option Text)
      → check_hint limits too_long unknown hint ≡ ok tt
      → IsHint (normalize_lang_hint hint)
  unfolding normalize_lang_hint
  check_hint-IsHint too_long unknown none h = tt
  check_hint-IsHint too_long unknown (some lang) h = elim (Bool-cases (is_allowed_lang lang)) [
    | inl allowed ↦
        any-text_eq (to_ascii_lowercase lang) allowed_lang_hints (unfold is_allowed_lang in allowed)
    | inr unlisted ↦ ground (arith, h, unlisted)
  ]

  validate_start-IsHint :
      (rate : ℕ) (hint : Option Text)
      → validate_start limits rate hint ≡ ok tt
      → IsHint (normalize_lang_hint hint)
  unfolding validate_start
  validate_start-IsHint rate hint h = elim (Bool-cases (rate == limits.required_sample_rate)) [
    | inl same ↦
        check_hint-IsHint language_hint_too_long unknown_language_hint hint
          (ground (arith, h, same))
    | inr other ↦ ground (arith, h, other)
  ]

  validate_audio_le :
      (samples : List ℕ)
      → validate_audio limits samples ≡ ok tt
      → length samples ≤ limits.max_audio_frame_samples
  unfolding validate_audio
  validate_audio_le samples h = ground (arith, h)

-- What a frame of the session `id` can do: nothing, give that session a new state with a hint that
-- is allowed, or send one job of that session, with its settings and no more samples than the limit.
pub data Effect {v : Server} (limits : LimitsConfig) (s : SttState v) (id : v.stores.Uuid)
    : SttState v → Type 0 where
  unchanged : Effect limits s id s
  configured :
      (st : SessionState v.stores.Uuid)
      → session_of s id ≡ some st
      → (st1 : SessionState v.stores.Uuid) → st1.outbound_tx ≡ st.outbound_tx
      → IsHint st1.language
      → Effect limits s id (store_session s id st1)
  sent :
      (st : SessionState v.stores.Uuid)
      → session_of s id ≡ some st
      → (now : ℕ) (samples : List ℕ) → length samples ≤ limits.max_audio_frame_samples
      → Effect limits s id
          (send_job (store_session s id (touch st now)) (request_of id (touch st now) samples)).0

module _ {v : Server} (limits : LimitsConfig) (s : SttState v) (id : v.stores.Uuid) (now : ℕ) where
  checked-Effect :
      (r : Result Unit FrameError) (h : Handled v)
      → (r ≡ ok tt → Effect limits s id h.0)
      → Effect limits s id (checked r s h).0
  checked-Effect (ok tt) h k = k refl
  checked-Effect (err e) h k = unchanged

  updated-Effect :
      (f : SessionState v.stores.Uuid → SessionState v.stores.Uuid)
      → ((st : SessionState v.stores.Uuid)
          → ((f st).outbound_tx ≡ st.outbound_tx) × IsHint (f st).language)
      → (o : Option (SessionState v.stores.Uuid)) → session_of s id ≡ o
      → Effect limits s id (updated s id f o)
  updated-Effect f k none h = unchanged
  updated-Effect f k (some st) h = configured st h (f st) (k st).0 (k st).1

  transcribe-Effect :
      (samples : List ℕ)
      → length samples ≤ limits.max_audio_frame_samples
      → (o : Option (SessionState v.stores.Uuid)) → session_of s id ≡ o
      → Effect limits s id (transcribe s id now samples o).0
  unfolding transcribe
  transcribe-Effect samples le none h = unchanged
  transcribe-Effect samples le (some st) h = sent st h now samples le

  on_payload-Effect : (p : Payload) → Effect limits s id (on_payload limits s id now p).0
  unfolding on_payload set_language set_translate touch
  on_payload-Effect (start x) = checked-Effect _ _ λ h.
      updated-Effect _ (λ st. (refl, validate_start-IsHint limits x.sample_rate x.lang_hint h))
        (session_of s id) refl
  on_payload-Effect (stop x) = unchanged
  on_payload-Effect (config x) = checked-Effect _ _ λ h.
      updated-Effect _
        (λ st. (
          refl,
          check_hint-IsHint limits config_language_hint_too_long config_unknown_language_hint
              x.language (unfold validate_config in h),
        ))
        (session_of s id) refl
  on_payload-Effect (audio x) =
      checked-Effect _ _ λ h.
        transcribe-Effect x.samples (validate_audio_le limits x.samples h) (session_of s id) refl
  on_payload-Effect (partial x) = unchanged
  on_payload-Effect (final x) = unchanged
  on_payload-Effect (error x) = unchanged
  on_payload-Effect (backend x) = unchanged

  on_decoded-Effect : (r : Result Payload _) → Effect limits s id (on_decoded limits s id now r).0
  on_decoded-Effect (ok p) = on_payload-Effect p
  on_decoded-Effect (err e) = unchanged

  pub handle_inbound-Effect :
      (bytes : Bytes) → Effect limits s id (handle_inbound limits s id now bytes).0
  unfolding handle_inbound
  handle_inbound-Effect bytes = on_decoded-Effect (decode_frame v.wire bytes)
