-- ===== src/Llm/Prompt/Tests.antt =====
-- A conversation with a location block, a prompt of the operator, and a user who writes French.
use nagent.Prelude.{◌≡◌, refl, Bool, true, false, none, some, [], ◌∷◌, ◌++◌, keep_if, All}
use nagent.Prelude.Text.{codes, trim, text_eq, starts_with}
use nagent.Llm.ToolLoop.Types.{Message, text, Body}
use nagent.Llm.Prompt.{
  user_location_marker, system_message, PromptConfig, Preferences, DecryptedMemory, memories_of,
  build_reply_language_block, carries, prepare,
}
use nagent.Llm.Prompt.Switches.{retained}
use nagent.Llm.Prompt.Forwarded.{
  IsCleared, block_messages, prepare-anonymous, prepare-IsCleared, prepare_order,
}

abbrev located : Message
located = system_message (user_location_marker ++ codes " lat=48.85, lon=2.35")

abbrev question : Message
question = record {
  role = some (codes "user");
  content = text (codes "weather?");
  tool_calls = none;
  tool_call_id = none;
}

abbrev conversation : Body Bool
conversation = record { messages = some (located ∷ question ∷ []); tools = [] }

-- the operator forbids every block but that of the timezone
abbrev strict : PromptConfig
strict = record {
  system_prompt = some (codes " Be brief. ");
  allow_user_location = false;
  allow_user_timezone = true;
  allow_user_reply_language = false;
  allow_user_memory = false;
}

abbrev doctor : DecryptedMemory
doctor = record {
  subject = codes "doctor";
  predicate = codes "name";
  value = codes "Martin";
  notes = none;
}

abbrev french : Preferences
french = record {
  reply_language = some (codes "fr");
  memory_enabled = true;
  recalled = some (doctor ∷ []);
}

prepare-anonymous_example :
    prepare strict (some french) conversation ≡ prepare strict none conversation
prepare-anonymous_example = prepare-anonymous strict (some french) conversation refl refl

forwarded_messages :
    (prepare strict (some french) conversation).messages
    ≡ some (system_message (codes "Be brief.") ∷ question ∷ [])
unfolding prepare trim carries text_eq starts_with
forwarded_messages = refl

prepare-IsCleared_example :
    All (IsCleared strict) (system_message (codes "Be brief.") ∷ question ∷ [])
prepare-IsCleared_example = prepare-IsCleared strict (some french) conversation _ forwarded_messages

prepare_order_example :
    (prepare strict (some french) conversation).messages
    ≡ some (
        keep_if (retained strict) (
          system_message (trim (codes " Be brief. "))
          ∷ (block_messages (memories_of french)
              ++ (block_messages (build_reply_language_block french.reply_language)
                  ++ located ∷ question ∷ []))))
prepare_order_example =
    prepare_order strict french conversation (codes " Be brief. ") (located ∷ question ∷ []) refl
      (unfold trim in refl) refl
