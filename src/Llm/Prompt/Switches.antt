-- ===== src/Llm/Prompt/Switches.antt =====
-- What the switches leave of a conversation.
use nagent.Prelude.{
  ◌≡◌, refl, sym, ap, ◌∙◌, Bool, true, false, not, ◌&&◌, ◌||◌, Option, none, some, List, [], ◌∷◌,
  keep_if, All, arith, inl, inr, Bool-cases,
}
use nagent.Prelude.Text.{Text}
use nagent.Llm.ToolLoop.Types.{Message, Body}
use nagent.Llm.Prompt.{
  user_location_marker, user_timezone_marker, user_reply_language_marker, user_memories_marker,
  system_message, carries, mapped, on_messages, insert_block, strip,
  strip_user_location_if_disabled, strip_user_timezone_if_disabled,
  strip_user_reply_language_if_disabled, strip_user_memories_if_disabled,
  inject_default_system_prompt, PromptConfig, Preferences, personalize, prepare,
}

-- a message passes a switch
abbrev passes : Text → Bool → Message → Bool
passes marker allow m = allow || not (carries marker m)

-- a message passes all four
abbrev pub retained : PromptConfig → Message → Bool
retained cfg m =
    ((passes user_location_marker cfg.allow_user_location m
        && passes user_timezone_marker cfg.allow_user_timezone m)
      && passes user_reply_language_marker cfg.allow_user_reply_language m)
    && passes user_memories_marker cfg.allow_user_memory m

keep_if-keep_if :
    {A : Type 0} (p q : A → Bool) (xs : List A)
    → keep_if q (keep_if p xs) ≡ keep_if (λ x. p x && q x) xs
keep_if-keep_if p q [] = refl
keep_if-keep_if p q (x ∷ xs) = ground (arith, keep_if-keep_if p q xs)

keep_if-const : {A : Type 0} (xs : List A) → keep_if (λ _. true) xs ≡ xs
keep_if-const [] = refl
keep_if-const (x ∷ xs) = ap (λ r. x ∷ r) (keep_if-const xs)

keep_if_same :
    {A : Type 0} (p q : A → Bool) (xs : List A)
    → ((x : A) → p x ≡ q x)
    → keep_if p xs ≡ keep_if q xs
keep_if_same p q [] h = refl
keep_if_same p q (x ∷ xs) h = ground (arith, h x, keep_if_same p q xs h)

mapped_when :
    (f g : List Message → List Message) (o : Option (List Message))
    → ((ms : List Message) → f ms ≡ g ms)
    → mapped f o ≡ mapped g o
mapped_when f g none h = refl
mapped_when f g (some ms) h = ap some (h ms)

mapped-id :
    (f : List Message → List Message) (o : Option (List Message))
    → ((ms : List Message) → f ms ≡ ms)
    → mapped f o ≡ o
mapped-id f none h = refl
mapped-id f (some ms) h = ap some (h ms)

mapped-mapped :
    (f g : List Message → List Message) (o : Option (List Message))
    → mapped f (mapped g o) ≡ mapped (λ ms. f (g ms)) o
mapped-mapped f g none = refl
mapped-mapped f g (some ms) = refl

keep_if-insert_block :
    (p : Message → Bool) (block : Text) (ms : List Message)
    → p (system_message block) ≡ false
    → keep_if p (insert_block block ms) ≡ keep_if p ms
keep_if-insert_block p block [] h = rw h refl
keep_if-insert_block p block (m ∷ ms) h = rw h refl

pub keep_if-All :
    (p : Message → Bool) (P : Message → Type 0) (ms : List Message)
    → ((m : Message) → p m ≡ true → P m)
    → All P (keep_if p ms)
keep_if-All p P [] h = tt
keep_if-All p P (m ∷ ms) h = elim (Bool-cases (p m)) [
  | inl passed ↦ rw passed (h m passed, keep_if-All p P ms h)
  | inr stopped ↦ rw stopped (keep_if-All p P ms h)
]

module _ {Json : Type 0} where
  abbrev pub filtered : (Message → Bool) → Body Json → Body Json
  filtered p b = on_messages (keep_if p) b

  -- one more switch
  strip-filtered :
      (p : Message → Bool) (marker : Text) (b : Body Json) (allow : Bool)
      → strip marker (filtered p b) allow ≡ filtered (λ m. p m && passes marker allow m) b
  strip-filtered p marker b true =
      ap (λ o. record b { messages = o })
        (mapped_when (keep_if p) _ b.messages λ ms. keep_if_same p _ ms λ m. ground arith)
  strip-filtered p marker b false =
      ap (λ o. record b { messages = o })
        (mapped-mapped (keep_if (λ m. not (carries marker m))) (keep_if p) b.messages
          ∙ mapped_when _ _ b.messages (keep_if-keep_if p (λ m. not (carries marker m))))

  strip_first :
      (marker : Text) (b : Body Json) (allow : Bool)
      → strip marker b allow ≡ filtered (passes marker allow) b
  strip_first marker b true =
      ap (λ o. record b { messages = o }) (sym (mapped-id _ b.messages keep_if-const))
  strip_first marker b false = refl

  -- the conversation before the switches
  abbrev pub injected : PromptConfig → Option Preferences → Body Json → Body Json
  injected cfg prefs b = personalize (inject_default_system_prompt b cfg.system_prompt) prefs

  pub prepare-retained :
      (cfg : PromptConfig) (prefs : Option Preferences) (b : Body Json)
      → prepare cfg prefs b ≡ filtered (retained cfg) (injected cfg prefs b)
  unfolding prepare strip_user_location_if_disabled strip_user_timezone_if_disabled
      strip_user_reply_language_if_disabled strip_user_memories_if_disabled
  prepare-retained cfg prefs b =
      let b0 = injected cfg prefs b in
      let one = strip_first user_location_marker b0 cfg.allow_user_location in
      let two =
        ap (λ x. strip user_timezone_marker x cfg.allow_user_timezone) one
        ∙ strip-filtered _ user_timezone_marker b0 cfg.allow_user_timezone in
      let three =
        ap (λ x. strip user_reply_language_marker x cfg.allow_user_reply_language) two
        ∙ strip-filtered _ user_reply_language_marker b0 cfg.allow_user_reply_language in
      ap (λ x. strip user_memories_marker x cfg.allow_user_memory) three
      ∙ strip-filtered _ user_memories_marker b0 cfg.allow_user_memory

  -- a block that a switch takes out makes no difference
  pub insert-filtered :
      (p : Message → Bool) (block : Text) (b : Body Json)
      → p (system_message block) ≡ false
      → filtered p (on_messages (insert_block block) b) ≡ filtered p b
  insert-filtered p block b h =
      ap (λ o. record b { messages = o })
        (mapped-mapped (keep_if p) (insert_block block) b.messages
          ∙ mapped_when _ _ b.messages (λ ms. keep_if-insert_block p block ms h))
