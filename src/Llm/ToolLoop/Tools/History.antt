-- ===== src/Llm/ToolLoop/Tools/History.antt =====
-- The names that the next round reads from the conversation.
use nagent.Prelude.{
  ℕ, ◌+◌, ◌≡◌, refl, Bool, false, ◌||◌, Option, none, some, List, [], ◌∷◌, ◌++◌, any, any-append,
  count, count-append, if◌then◌else◌, arith, Bool-cases, Option-cases, inl, inr, ◌∙◌, ap,
}
use nagent.Prelude.Text.{Text, text_eq, text_eq_sound}
use nagent.Llm.Sse.ToolCalls.{PendingToolCall}
use nagent.Llm.ToolLoop.Types.{Message}
use nagent.Llm.ToolLoop.Tools.{
  is_text, mentions, add_call_names, add_message_names, history_tool_call_names,
}

-- the calls of a message, and of a conversation, by one name
abbrev names_it : Text → PendingToolCall → Bool
names_it name tc = is_text tc.name name

abbrev calls_it : Text → Message → Bool
calls_it name msg = elim msg.tool_calls [ none ↦ false | some tcs ↦ any (names_it name) tcs ]

abbrev pub called : Text → Option (List Message) → Bool
called name none = false
called name (some msgs) = any (calls_it name) msgs

abbrev pub times : Text → List Text → ℕ
times name = count (λ existing. text_eq existing name)

abbrev pub once_if : Bool → ℕ
once_if b = if b then 1 else 0

-- a name is there at most once
abbrev Once : Text → List Text → Type 0
Once name out = times name out ≡ once_if (mentions out name)

-- a name is added, unless it is there
abbrev add_name : List Text → Text → List Text
add_name out n = if mentions out n then out else out ++ n ∷ []

module _ (name : Text) where
  add_name-lem :
      (out : List Text) (n : Text)
      → Once name out
      → Once name (add_name out n)
        × (mentions (add_name out n) name ≡ (mentions out name || text_eq n name))
  unfolding mentions
  add_name-lem out n h = elim (Bool-cases (text_eq n name)) [
    | inl same ↦ elim (Bool-cases (mentions out n)) [
      | inl there ↦
          let e = ap (mentions out) (text_eq_sound n name same) in
          rw there (h, grind (arith, there, e, same))
      | inr new ↦
          let e = ap (mentions out) (text_eq_sound n name same) in
          rw new
            (grind (arith, h, new, e, same, added n, found n), grind (arith, new, e, same, found n))
    ]
    | inr other ↦ elim (Bool-cases (mentions out n)) [
      | inl there ↦ rw there (h, grind (arith, other))
      | inr new ↦ rw new (grind (arith, h, other, added n, found n), grind (arith, other, found n))
    ]
  ]
    where
      added : (n : Text) → times name (out ++ n ∷ []) ≡ times name out + times name (n ∷ [])
      added n = count-append _ out (n ∷ [])

      found :
          (n : Text) → mentions (out ++ n ∷ []) name ≡ (mentions out name || mentions (n ∷ []) name)
      found n = any-append _ out (n ∷ [])

  add_call_names-lem :
      (tcs : List PendingToolCall) (out : List Text)
      → Once name out
      → Once name (add_call_names out tcs)
        × (mentions (add_call_names out tcs) name ≡ (mentions out name || any (names_it name) tcs))
  unfolding add_call_names mentions
  add_call_names-lem [] out h = (h, grind arith)
  add_call_names-lem (tc ∷ tcs) out h = elim (Option-cases tc.name) [
    | inl nameless ↦ rw nameless (add_call_names-lem tcs out h)
    | inr (n, called) ↦
        let (once, adds) = add_name-lem out n h in
        let (once_all, adds_all) = add_call_names-lem tcs (add_name out n) once in
        rw called (once_all, adds_all ∙ grind (arith, adds))
  ]

  add_message_names-lem :
      (msgs : List Message) (out : List Text)
      → Once name out
      → Once name (add_message_names out msgs)
        × (mentions (add_message_names out msgs) name
            ≡ (mentions out name || any (calls_it name) msgs))
  unfolding add_message_names
  add_message_names-lem [] out h = (h, grind arith)
  add_message_names-lem (msg ∷ msgs) out h = elim (Option-cases msg.tool_calls) [
    | inl silent ↦ rw silent (add_message_names-lem msgs out h)
    | inr (tcs, calls) ↦
        let (once, adds) = add_call_names-lem tcs out h in
        let (once_all, adds_all) = add_message_names-lem msgs (add_call_names out tcs) once in
        rw calls (once_all, adds_all ∙ grind (arith, adds))
  ]

-- The names that are read from a conversation are those that some message of it calls, each once.
pub times-history_tool_call_names :
    (name : Text) (messages : Option (List Message))
    → times name (history_tool_call_names messages) ≡ once_if (called name messages)
unfolding history_tool_call_names mentions
times-history_tool_call_names name none = refl
times-history_tool_call_names name (some msgs) =
    let (once, adds) = add_message_names-lem name msgs [] refl in once ∙ ap once_if adds
