-- ===== src/Llm/Prompt/Forwarded.antt =====
-- What the proxy forwards of a conversation, and of what it knows of the user.
use nagent.Prelude.{
  ◌≡◌, refl, sym, ap, subst, ◌∙◌, Bool, true, false, Option, none, some, List, [], ◌∷◌, ◌++◌,
  keep_if, All, arith, if◌then◌else◌,
}
use nagent.Prelude.Text.{Text, text_eq, trim, is_empty, is_some, starts_with}
use nagent.Prelude.Text.Cuts.{strip_prefix-append}
use nagent.Llm.ToolLoop.Types.{Message, Body}
use nagent.Llm.Prompt.{
  user_location_marker, user_timezone_marker, user_reply_language_marker, user_memories_marker,
  system_message, carries, mapped, insert_block, inject_default_system_prompt,
  inject_reply_language_block, inject_memories_block, build_reply_language_block, DecryptedMemory,
  build_memories_block, PromptConfig, Preferences, with_block, memories_when, memories_of,
  personalize, prepare,
}
use nagent.Llm.Prompt.Switches.{
  retained, filtered, injected, insert-filtered, keep_if-All, prepare-retained,
}

some_if : {A : Type 0} (b : Bool) (x y : A) → (if b then none else some x) ≡ some y → x ≡ y
some_if true x y h = absurd (cc h)
some_if false x y h = cc h

some_same : {A : Type 0} (x y : A) → some x ≡ some y → x ≡ y
some_same x y h = cc h

-- the blocks that are built carry their markers

starts_with-append : (p s : Text) → starts_with (p ++ s) p ≡ true
unfolding starts_with
starts_with-append p s = ap is_some (strip_prefix-append p s)

system_message-carries : (marker s : Text) → carries marker (system_message (marker ++ s)) ≡ true
unfolding carries text_eq
system_message-carries marker s = starts_with-append marker s

build_reply_language_block-carries :
    (lang : Option Text) (block : Text)
    → build_reply_language_block lang ≡ some block
    → carries user_reply_language_marker (system_message block) ≡ true
unfolding build_reply_language_block
build_reply_language_block-carries none block h = absurd (cc h)
build_reply_language_block-carries (some lang) block h =
    subst (λ t. carries user_reply_language_marker (system_message t) ≡ true)
      (some_if (is_empty (trim lang)) _ block h)
      (system_message-carries user_reply_language_marker _)

build_memories_block-carries :
    (rows : List DecryptedMemory) (block : Text)
    → build_memories_block rows ≡ some block
    → carries user_memories_marker (system_message block) ≡ true
unfolding build_memories_block
build_memories_block-carries [] block h = absurd (cc h)
build_memories_block-carries (row ∷ rows) block h =
    subst (λ t. carries user_memories_marker (system_message t) ≡ true) (some_same _ block h)
      (system_message-carries user_memories_marker _)

memories_when-carries :
    (enabled : Bool) (recalled : Option (List DecryptedMemory)) (block : Text)
    → memories_when enabled recalled ≡ some block
    → carries user_memories_marker (system_message block) ≡ true
memories_when-carries false recalled block h = absurd (cc h)
memories_when-carries true none block h = absurd (cc h)
memories_when-carries true (some rows) block h = build_memories_block-carries rows block h

-- no block of a switch that is off
abbrev pub IsCleared : PromptConfig → Message → Type 0
IsCleared cfg m =
    (cfg.allow_user_location ≡ false → carries user_location_marker m ≡ false)
    × (cfg.allow_user_timezone ≡ false → carries user_timezone_marker m ≡ false)
    × (cfg.allow_user_reply_language ≡ false → carries user_reply_language_marker m ≡ false)
    × (cfg.allow_user_memory ≡ false → carries user_memories_marker m ≡ false)

retained-IsCleared : (cfg : PromptConfig) (m : Message) → retained cfg m ≡ true → IsCleared cfg m
retained-IsCleared cfg m h = ground (arith, h)

mapped-All :
    (p : Message → Bool) (P : Message → Type 0) (o : Option (List Message)) (ms : List Message)
    → ((m : Message) → p m ≡ true → P m)
    → mapped (keep_if p) o ≡ some ms
    → All P ms
mapped-All p P none ms h e = absurd (cc e)
mapped-All p P (some xs) ms h e = subst (All P) (some_same _ ms e) (keep_if-All p P xs h)

-- the system message of a block, if there is one
abbrev pub block_messages : Option Text → List Message
block_messages none = []
block_messages (some block) = system_message block ∷ []

module _ {Json : Type 0} where
  with_reply_language :
      (p : Message → Bool) (b : Body Json) (o : Option Text)
      → ((block : Text) → o ≡ some block → p (system_message block) ≡ false)
      → filtered p (with_block inject_reply_language_block b o) ≡ filtered p b
  unfolding inject_reply_language_block
  with_reply_language p b none h = refl
  with_reply_language p b (some block) h = insert-filtered p block b (h block refl)

  with_memories :
      (p : Message → Bool) (b : Body Json) (o : Option Text)
      → ((block : Text) → o ≡ some block → p (system_message block) ≡ false)
      → filtered p (with_block inject_memories_block b o) ≡ filtered p b
  unfolding inject_memories_block
  with_memories p b none h = refl
  with_memories p b (some block) h = insert-filtered p block b (h block refl)

  personalize-filtered :
      (cfg : PromptConfig) (b : Body Json) (prefs : Option Preferences)
      → cfg.allow_user_reply_language ≡ false
      → cfg.allow_user_memory ≡ false
      → filtered (retained cfg) (personalize b prefs) ≡ filtered (retained cfg) b
  unfolding personalize
  personalize-filtered cfg b none no_language no_memory = refl
  personalize-filtered cfg b (some p) no_language no_memory =
      with_memories (retained cfg) _ (memories_of p) (λ block h.
        ground (arith, no_memory, memories_when-carries p.memory_enabled p.recalled block h))
      ∙ with_reply_language (retained cfg) b (build_reply_language_block p.reply_language)
          (λ block h.
            ground
              (arith, no_language, build_reply_language_block-carries p.reply_language block h))

  -- With the switches of the reply language and of the memories off, what is forwarded is what would
  -- be forwarded for an anonymous user: neither a preference nor a memory reaches the model.
  pub prepare-anonymous :
      (cfg : PromptConfig) (prefs : Option Preferences) (b : Body Json)
      → cfg.allow_user_reply_language ≡ false
      → cfg.allow_user_memory ≡ false
      → prepare cfg prefs b ≡ prepare cfg none b
  prepare-anonymous cfg prefs b no_language no_memory =
      prepare-retained cfg prefs b
      ∙ personalize-filtered cfg _ prefs no_language no_memory
      ∙ sym (personalize-filtered cfg _ none no_language no_memory)
      ∙ sym (prepare-retained cfg none b)

  -- No message that is forwarded is a system message with the marker of a switch that is off, whoever
  -- wrote it.
  pub prepare-IsCleared :
      (cfg : PromptConfig) (prefs : Option Preferences) (b : Body Json) (ms : List Message)
      → (prepare cfg prefs b).messages ≡ some ms
      → All (IsCleared cfg) ms
  prepare-IsCleared cfg prefs b ms h =
      mapped-All (retained cfg) (IsCleared cfg) (injected cfg prefs b).messages ms
        (retained-IsCleared cfg) (ap (λ x. x.messages) (sym (prepare-retained cfg prefs b)) ∙ h)

  reply_language-inserted :
      (o : Option Text) (b : Body Json) (m : Message) (ms : List Message)
      → b.messages ≡ some (m ∷ ms)
      → (with_block inject_reply_language_block b o).messages ≡ some (m ∷ block_messages o ++ ms)
  unfolding inject_reply_language_block
  reply_language-inserted none b m ms h = h
  reply_language-inserted (some block) b m ms h = ap (mapped (insert_block block)) h

  memories-inserted :
      (o : Option Text) (b : Body Json) (m : Message) (ms : List Message)
      → b.messages ≡ some (m ∷ ms)
      → (with_block inject_memories_block b o).messages ≡ some (m ∷ block_messages o ++ ms)
  unfolding inject_memories_block
  memories-inserted none b m ms h = h
  memories-inserted (some block) b m ms h = ap (mapped (insert_block block)) h

  prompt-inserted :
      (prompt : Text) (b : Body Json) (ms : List Message)
      → is_empty (trim prompt) ≡ false
      → b.messages ≡ some ms
      → (inject_default_system_prompt b (some prompt)).messages
        ≡ some (system_message (trim prompt) ∷ ms)
  unfolding inject_default_system_prompt
  prompt-inserted prompt b ms given h = rw given (ap (mapped _) h)

  -- Where the operator has set a prompt, what is forwarded for a user is that prompt, the block of the
  -- memories, the block of the reply language and the conversation, in this order, less the system
  -- messages that start with the marker of a switch that is off.
  pub prepare_order :
      (cfg : PromptConfig) (p : Preferences) (b : Body Json) (prompt : Text) (ms : List Message)
      → cfg.system_prompt ≡ some prompt
      → is_empty (trim prompt) ≡ false
      → b.messages ≡ some ms
      → (prepare cfg (some p) b).messages
        ≡ some (
            keep_if (retained cfg) (
              system_message (trim prompt)
              ∷ (block_messages (memories_of p)
                  ++ (block_messages (build_reply_language_block p.reply_language) ++ ms))))
  unfolding personalize
  prepare_order cfg p b prompt ms set given h =
      let prompted =
        ap (λ o. (inject_default_system_prompt b o).messages) set
        ∙ prompt-inserted prompt b ms given h in
      let spoken =
        reply_language-inserted (build_reply_language_block p.reply_language) _ _ ms prompted in
      let recalled = memories-inserted (memories_of p) _ _ _ spoken in
      ap (λ x. x.messages) (prepare-retained cfg (some p) b)
      ∙ ap (mapped (keep_if (retained cfg))) recalled
