-- ===== src/Llm/Permission/Tests.antt =====
-- An approval with some text after it.
use nagent.Prelude.{◌≡◌, refl, true, some, ◌++◌, all}
use nagent.Prelude.Text.{Text, codes, is_whitespace, utf8_len}
use nagent.Llm.Permission.{DecisionPrefix, approve, is_safe_id, parse_decision_prefix}
use nagent.Llm.Permission.Prefix.{
  written, is_safe, parse_decision_prefix-written, parse_decision_prefix_sound,
}

abbrev decision : DecisionPrefix
decision = approve (codes "call_7")

abbrev spaced : Text
spaced = codes "  [APPROVE:call_7] merci"

decision-is_safe : is_safe decision ≡ true
unfolding is_safe_id utf8_len
decision-is_safe = refl

spaced_read : parse_decision_prefix spaced ≡ some (decision, codes " merci")
spaced_read =
    parse_decision_prefix-written (codes "  ") decision (codes " merci") refl decision-is_safe

parse_decision_prefix_sound_example :
    (ws : Text) × (all is_whitespace ws ≡ true)
    × (is_safe decision ≡ true)
    × (spaced ≡ ws ++ written decision (codes " merci"))
parse_decision_prefix_sound_example =
    parse_decision_prefix_sound spaced decision (codes " merci") spaced_read
