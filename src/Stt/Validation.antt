-- ===== src/Stt/Validation.antt =====
-- crates/nagent-server/src/stt/validation.rs, and `LimitsConfig` of config/limits.rs.
use nagent.Prelude.{
  ℕ, ◌*◌, Bool, not, ltb, ◌==◌, Option, none, some, List, [], ◌∷◌, any, if◌then◌else◌, length,
}
use nagent.Prelude.Text.{Text, codes, text_eq, to_ascii_lowercase, utf8_len}
use nagent.Prelude.Result.{Result, ok, err}
use nagent.Stt.Proto.{F32}

pub record LimitsConfig : Type 0 where
  pub max_audio_frame_samples : ℕ
  pub required_sample_rate : ℕ
  pub max_language_hint_bytes : ℕ
  pub request_timeout_ms : ℕ
  pub body_limit_bytes : ℕ
  pub ws_max_concurrent : ℕ
  pub ws_max_per_ip : ℕ

-- `LimitsConfig::default`
abbrev pub default_limits : LimitsConfig
default_limits = record {
  max_audio_frame_samples = 30 * 16_000;
  required_sample_rate = 16_000;
  max_language_hint_bytes = 16;
  request_timeout_ms = 30_000;
  body_limit_bytes = 2 * 1024 * 1024;
  ws_max_concurrent = 1024;
  ws_max_per_ip = 16;
}

abbrev pub allowed_lang_hints : List Text
allowed_lang_hints =
    codes "en"
    ∷ codes "fr"
    ∷ codes "es"
    ∷ codes "de"
    ∷ codes "it"
    ∷ codes "pt"
    ∷ codes "ja"
    ∷ codes "zh"
    ∷ codes "zh-cn"
    ∷ codes "zh-tw"
    ∷ codes "pt-br"
    ∷ []

pub data FrameError : Type 0 where
  invalid_sample_rate : (expected got : ℕ) → FrameError
  language_hint_too_long : (limit got : ℕ) → FrameError
  unknown_language_hint : Text → FrameError
  audio_frame_too_large : (limit got : ℕ) → FrameError
  config_language_hint_too_long : (limit got : ℕ) → FrameError
  config_unknown_language_hint : Text → FrameError

-- `error_code::INVALID_FRAME`
abbrev pub invalid_frame : ℕ
invalid_frame = 1

unfoldable pub code : FrameError → ℕ
code _ = invalid_frame

unfoldable pub is_allowed_lang : Text → Bool
is_allowed_lang lang = any (λ allowed. text_eq allowed (to_ascii_lowercase lang)) allowed_lang_hints

-- the checks of one hint, with the errors that the caller reports
abbrev pub check_hint :
    LimitsConfig → (ℕ → ℕ → FrameError) → (Text → FrameError) → Option Text → Result Unit FrameError
check_hint limits too_long unknown none = ok tt
check_hint limits too_long unknown (some lang) =
    if ltb limits.max_language_hint_bytes (utf8_len lang)
    then err (too_long limits.max_language_hint_bytes (utf8_len lang))
    else if not (is_allowed_lang lang)
    then err (unknown lang)
    else ok tt

unfoldable pub validate_start : LimitsConfig → ℕ → Option Text → Result Unit FrameError
validate_start limits sample_rate lang_hint =
    if not (sample_rate == limits.required_sample_rate)
    then err (invalid_sample_rate limits.required_sample_rate sample_rate)
    else check_hint limits language_hint_too_long unknown_language_hint lang_hint

unfoldable pub validate_config : LimitsConfig → Option Text → Result Unit FrameError
validate_config limits language =
    check_hint limits config_language_hint_too_long config_unknown_language_hint language

unfoldable pub validate_audio : LimitsConfig → List F32 → Result Unit FrameError
validate_audio limits samples =
    if ltb limits.max_audio_frame_samples (length samples)
    then err (audio_frame_too_large limits.max_audio_frame_samples (length samples))
    else ok tt
