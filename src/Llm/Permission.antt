-- ===== src/Llm/Permission.antt =====
-- crates/nagent-server/src/llm/permission.rs: the decisions of a user on the tool calls that need
-- one. `Store` has the permission store.
pub mod Prefix
pub mod Store
mod Tests
use nagent.Prelude.{
  Bool, Option, none, some, not, leb, ◌==◌, ◌&&◌, ◌||◌, if◌then◌else◌, List, [], ◌∷◌, all,
}
use nagent.Prelude.Text.{
  Text, codes, trim_start, strip_prefix, split_at, utf8_len, is_ascii_alphanumeric, is_empty,
}

pub data DecisionPrefix : Type 0 where
  approve : Text → DecisionPrefix
  approve_always : Text → DecisionPrefix
  deny : Text → DecisionPrefix

unfoldable pub is_safe_id : Text → Bool
is_safe_id s =
    not (is_empty s)
    && leb (utf8_len s) 128
    && all (λ c. is_ascii_alphanumeric c || c == b'_' || c == b'-') s

unfoldable pub is_safe_tool_name : Text → Bool
is_safe_tool_name s =
    not (is_empty s) && leb (utf8_len s) 64 && all (λ c. is_ascii_alphanumeric c || c == b'_') s

-- the branch of one sentinel: the text up to the first `]`, if it is safe, and the remainder
unfoldable pub sentinel :
    (Text → Bool) → (Text → DecisionPrefix) → Text → Option (DecisionPrefix × Text)
sentinel is_safe decision rest = elim (split_at b']' rest) [
  | none ↦ none
  | some (id, remainder) ↦ if is_safe id then some (decision id, remainder) else none
]

abbrev pub approve_prefix : Text
approve_prefix = codes "[APPROVE:"

abbrev pub approve_always_prefix : Text
approve_always_prefix = codes "[APPROVE_ALWAYS:"

abbrev pub deny_prefix : Text
deny_prefix = codes "[DENY:"

-- `parse_decision_prefix` after `trim_start`
unfoldable pub decision_at_start : Text → Option (DecisionPrefix × Text)
decision_at_start trimmed = elim (strip_prefix approve_prefix trimmed) [
  | some rest ↦ sentinel is_safe_id approve rest
  | none ↦ elim (strip_prefix approve_always_prefix trimmed) [
    | some rest ↦ sentinel is_safe_tool_name approve_always rest
    | none ↦ elim (strip_prefix deny_prefix trimmed) [
      | some rest ↦ sentinel is_safe_id deny rest
      | none ↦ none
    ]
  ]
]

unfoldable pub parse_decision_prefix : Text → Option (DecisionPrefix × Text)
parse_decision_prefix text = decision_at_start (trim_start text)
