-- ===== src/Stt/Tests/Codec.antt =====
-- A small codec of the payloads that the tests send, in the place of `postcard`: a text is its length
-- and its characters. The other payloads are refused.
use nagent.Prelude.{
  ℕ, zero, suc, ◌≡◌, refl, sym, ◌∙◌, ap, Bool, true, false, ◌==◌, Option, none, some, [], ◌∷◌, ◌++◌,
  length,
}
use nagent.Prelude.Text.{Text}
use nagent.Prelude.Result.{Result, ok, err}
use nagent.Stt.Proto.{
  Bytes, AudioFrame, StartSession, StopSession, Config, PartialTranscript, FinalTranscript,
  ErrorMessage, BackendInfo, Serde, Postcard,
}

-- the first `n` numbers, and the others
abbrev split_n : ℕ → Bytes → Option (Bytes × Bytes)
split_n zero bs = some ([], bs)
split_n (suc n) [] = none
split_n (suc n) (b ∷ bs) = elim (split_n n bs) [ none ↦ none | some (s, r) ↦ some (b ∷ s, r) ]

split_n-append : (s r : Bytes) → split_n (length s) (s ++ r) ≡ some (s, r)
split_n-append [] r = refl
split_n-append (c ∷ s) r = rw (split_n-append s r) refl

abbrev byte : Bool → ℕ
byte true = 1
byte false = 0

pub unwrapped : {A : Type 0} {a b : A} {E : Type 0} → Path (Result A E) (ok a) (ok b) → a ≡ b
unwrapped h = cc h

pub refused : {A : Type 0} {P : Type 0} {e : ℕ} {a : A} → Path (Result A ℕ) (err e) (ok a) → P
refused h = absurd (cc h)

-- what was written is read, for a coding that refuses nothing
abbrev coded :
    {A : Type 0} (to : A → Bytes) (from : Bytes → Result A ℕ)
    → ((a : A) → from (to a) ≡ ok a)
    → Serde ℕ A
coded to from law = record {
  to_allocvec = λ a. ok (to a);
  from_bytes = from;
  from_bytes-to_allocvec = λ a bs h. ap from (sym (unwrapped h)) ∙ law a;
}

abbrev unsupported : (A : Type 0) → Serde ℕ A
unsupported A = record {
  to_allocvec = λ _. err 1;
  from_bytes = λ _. err 1;
  from_bytes-to_allocvec = λ a bs h. refused h;
}

abbrev info_of : Bytes → Option (Bytes × Bytes) → Result BackendInfo ℕ
info_of bs none = err 0
info_of bs (some (m, r)) = ok (record { model_id = m; gpu_backend = r })

abbrev info_from : Bytes → Result BackendInfo ℕ
info_from [] = err 0
info_from (n ∷ bs) = info_of bs (split_n n bs)

abbrev info_to : BackendInfo → Bytes
info_to i = length i.model_id ∷ i.model_id ++ i.gpu_backend

pub info_from-info_to : (i : BackendInfo) → info_from (info_to i) ≡ ok i
info_from-info_to i =
    ap (info_of (i.model_id ++ i.gpu_backend)) (split_n-append i.model_id i.gpu_backend)

abbrev flag_of : ℕ → Bool
flag_of b = b == 1

abbrev config_from : Bytes → Result Config ℕ
config_from (zero ∷ b ∷ []) = ok (record { language = none; translate = flag_of b })
config_from (suc _ ∷ b ∷ bs) = ok (record { language = some bs; translate = flag_of b })
config_from _ = err 0

abbrev config_to_of : Option Text → Bool → Bytes
config_to_of none t = 0 ∷ byte t ∷ []
config_to_of (some l) t = 1 ∷ byte t ∷ l

abbrev config_to : Config → Bytes
config_to c = config_to_of c.language c.translate

pub config_from-config_to_of :
    (l : Option Text) (t : Bool)
    → config_from (config_to_of l t) ≡ ok (record { language = l; translate = t })
config_from-config_to_of none true = refl
config_from-config_to_of none false = refl
config_from-config_to_of (some l) true = refl
config_from-config_to_of (some l) false = refl

abbrev audio_from : Bytes → Result AudioFrame ℕ
audio_from bs = ok (record { samples = bs })

abbrev pub small : Postcard ℕ
small = record {
  audio_frames = coded (λ a. a.samples) audio_from (λ a. refl);
  start_sessions = unsupported StartSession;
  stop_sessions = unsupported StopSession;
  configs = coded config_to config_from (λ c. config_from-config_to_of c.language c.translate);
  partial_transcripts = unsupported PartialTranscript;
  final_transcripts = unsupported FinalTranscript;
  error_messages = unsupported ErrorMessage;
  backend_infos = coded info_to info_from info_from-info_to;
}
