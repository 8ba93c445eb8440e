-- ===== src/Llm/Prompt.antt =====
-- crates/nagent-server/src/llm/prompt.rs and privacy.rs, and the part of `chat_completions` of proxy.rs
-- that calls them: the system messages that the proxy adds to a conversation, and the switches that
-- take them out. A message is what the program reads and writes of its JSON object.
pub mod Switches
pub mod Forwarded
mod Tests
use nagent.Prelude.{
  Bool, true, false, not, ◌&&◌, Option, none, some, List, [], ◌∷◌, ◌++◌, keep_if, if◌then◌else◌,
}
use nagent.Prelude.Text.{Text, codes, text_eq, trim, is_empty, starts_with}
use nagent.Llm.ToolLoop.Types.{Message, Content, text, Body}

abbrev pub user_location_marker : Text
user_location_marker = codes "User's approximate location:"

abbrev pub user_timezone_marker : Text
user_timezone_marker = codes "The user's local timezone is"

abbrev pub user_reply_language_marker : Text
user_reply_language_marker = codes "The user's preferred reply language is"

abbrev pub user_memories_marker : Text
user_memories_marker = codes "The user's long-term memories include:"

-- `json!({ "role": "system", "content": content })`
abbrev pub system_message : Text → Message
system_message content = record {
  role = some (codes "system");
  content = text content;
  tool_calls = none;
  tool_call_id = none;
}

abbrev pub is_system : Option Text → Bool
is_system none = false
is_system (some role) = text_eq role (codes "system")

abbrev pub starts_content : Text → Content → Bool
starts_content marker (text t) = starts_with t marker
starts_content marker _ = false

-- a system message whose text starts with the marker
unfoldable pub carries : Text → Message → Bool
carries marker m = is_system m.role && starts_content marker m.content

-- where there is an array of messages
abbrev pub mapped : (List Message → List Message) → Option (List Message) → Option (List Message)
mapped f none = none
mapped f (some ms) = some (f ms)

abbrev pub on_messages : {Json : Type 0} → (List Message → List Message) → Body Json → Body Json
on_messages f b = record b { messages = mapped f b.messages }

-- at index 1, or 0 in an empty conversation
abbrev pub insert_block : Text → List Message → List Message
insert_block block [] = system_message block ∷ []
insert_block block (m ∷ ms) = m ∷ system_message block ∷ ms

-- the switches of privacy.rs, which differ in the marker
abbrev pub strip : {Json : Type 0} → Text → Body Json → Bool → Body Json
strip marker b allow = if allow then b else on_messages (keep_if (λ m. not (carries marker m))) b

module _ {Json : Type 0} where
  unfoldable pub strip_user_location_if_disabled : Body Json → Bool → Body Json
  strip_user_location_if_disabled b allow = strip user_location_marker b allow

  unfoldable pub strip_user_timezone_if_disabled : Body Json → Bool → Body Json
  strip_user_timezone_if_disabled b allow = strip user_timezone_marker b allow

  unfoldable pub strip_user_reply_language_if_disabled : Body Json → Bool → Body Json
  strip_user_reply_language_if_disabled b allow = strip user_reply_language_marker b allow

  unfoldable pub strip_user_memories_if_disabled : Body Json → Bool → Body Json
  strip_user_memories_if_disabled b allow = strip user_memories_marker b allow

  unfoldable pub inject_default_system_prompt : Body Json → Option Text → Body Json
  inject_default_system_prompt b none = b
  inject_default_system_prompt b (some prompt) =
      if is_empty (trim prompt) then b else on_messages (λ ms. system_message (trim prompt) ∷ ms) b

  unfoldable pub inject_reply_language_block : Body Json → Text → Body Json
  inject_reply_language_block b block = on_messages (insert_block block) b

  unfoldable pub inject_memories_block : Body Json → Text → Body Json
  inject_memories_block b block = on_messages (insert_block block) b

unfoldable pub build_reply_language_block : Option Text → Option Text
build_reply_language_block none = none
build_reply_language_block (some lang) =
    if is_empty (trim lang)
    then none
    else some (
        user_reply_language_marker
        ++ codes " "
        ++ trim lang
        ++ codes
            ". Always reply in this language unless the user explicitly asks for another language in the same turn.")

-- what the block shows of a memory
pub record DecryptedMemory : Type 0 where
  pub subject : Text
  pub predicate : Text
  pub value : Text
  pub notes : Option Text

unfoldable pub memory_line : DecryptedMemory → Text
memory_line row =
    let start =
      codes "- " ++ row.subject ++ codes " " ++ row.predicate ++ codes ": " ++ trim row.value in
    elim row.notes [
      | none ↦ start ++ codes "\n"
      | some notes ↦ start ++ codes " (notes: " ++ trim notes ++ codes ")\n"
    ]

unfoldable pub memory_lines : List DecryptedMemory → Text
memory_lines [] = []
memory_lines (row ∷ rows) = memory_line row ++ memory_lines rows

abbrev memories_advice : Text
memories_advice =
    codes
      "\nUse these facts to answer the user's questions accurately. If the user shares a new durable fact, you may call `memory_store` (subject, predicate, value) to persist it for future turns; never store facts about third parties without consent, and never store information that's only relevant to the current turn."

unfoldable pub build_memories_block : List DecryptedMemory → Option Text
build_memories_block [] = none
build_memories_block (row ∷ rows) =
    some (user_memories_marker ++ codes "\n" ++ memory_lines (row ∷ rows) ++ memories_advice)

-- the settings of the operator
pub record PromptConfig : Type 0 where
  pub system_prompt : Option Text
  pub allow_user_location : Bool
  pub allow_user_timezone : Bool
  pub allow_user_reply_language : Bool
  pub allow_user_memory : Bool

-- the preferences of the user, and the memories that were recalled: `none` without a source, or when
-- the recall failed
pub record Preferences : Type 0 where
  pub reply_language : Option Text
  pub memory_enabled : Bool
  pub recalled : Option (List DecryptedMemory)

-- the block of the recalled memories, if they are switched on
abbrev pub memories_when : Bool → Option (List DecryptedMemory) → Option Text
memories_when false recalled = none
memories_when true none = none
memories_when true (some rows) = build_memories_block rows

abbrev pub memories_of : Preferences → Option Text
memories_of p = memories_when p.memory_enabled p.recalled

module _ {Json : Type 0} where
  abbrev pub with_block : (Body Json → Text → Body Json) → Body Json → Option Text → Body Json
  with_block inject b none = b
  with_block inject b (some block) = inject b block

  -- the blocks of an authenticated user whose preferences were read
  unfoldable pub personalize : Body Json → Option Preferences → Body Json
  unfolding build_reply_language_block build_memories_block inject_reply_language_block
      inject_memories_block
  personalize b none = b
  personalize b (some p) =
      with_block inject_memories_block
        (with_block inject_reply_language_block b (build_reply_language_block p.reply_language))
        (memories_of p)

  -- the messages that the proxy forwards
  unfoldable pub prepare : PromptConfig → Option Preferences → Body Json → Body Json
  unfolding inject_default_system_prompt personalize strip_user_location_if_disabled
      strip_user_timezone_if_disabled strip_user_reply_language_if_disabled
      strip_user_memories_if_disabled
  prepare cfg prefs b =
      let injected = personalize (inject_default_system_prompt b cfg.system_prompt) prefs in
      let located = strip_user_location_if_disabled injected cfg.allow_user_location in
      let timed = strip_user_timezone_if_disabled located cfg.allow_user_timezone in
      let spoken = strip_user_reply_language_if_disabled timed cfg.allow_user_reply_language in
      strip_user_memories_if_disabled spoken cfg.allow_user_memory
