-- ===== src/Llm/ToolLoop/Tools.antt =====
-- crates/nagent-server/src/llm/tool_loop.rs: `rebuild_tools_for_next_round` and the functions that
-- read the conversation for it, and `build_tools_for_round` of crates/nagent-server/src/llm/proxy.rs.
pub mod Growth
pub mod History
use nagent.Prelude.{
  ℕ, Bool, true, false, Option, none, some, List, [], ◌∷◌, ◌++◌, any, map, if◌then◌else◌,
}
use nagent.Prelude.Text.{Text, codes, text_eq, is_empty}
use nagent.Collections.{DashMap, Present}
use nagent.Llm.DiscoveredTools.{DiscoveredTools, snapshot}
use nagent.Llm.DiscoveredTools
use nagent.Llm.Sse.ToolCalls.{PendingToolCall}
use nagent.Llm.ToolLoop.Types.{
  Part, Content, text, parts, other, Message, Tool, Body, Agent, Setup, Context, Registry,
  get_agent,
}
use mathlib.Core.List.{reverse}

abbrev pub search_tools_name : Text
search_tools_name = codes "search_tools"

-- `Some(x) == …` on an optional text
abbrev pub is_text : Option Text → Text → Bool
is_text none t = false
is_text (some u) t = text_eq u t

-- the loop over the parts: the first text part that is a string
unfoldable pub first_text : List Part → Text
first_text [] = []
first_text (p ∷ ps) =
    let rest = first_text ps in
    if is_text p.kind (codes "text") then elim p.text [ some t ↦ t | none ↦ rest ] else rest

-- the loop over the messages, from the last one
unfoldable pub latest_user_text : List Message → Text
latest_user_text [] = []
latest_user_text (msg ∷ msgs) =
    let rest = latest_user_text msgs in
    if is_text msg.role (codes "user")
    then elim msg.content [
      | text t ↦ t
      | parts ps ↦ if is_empty (first_text ps) then rest else first_text ps
      | other ↦ rest
    ]
    else rest

unfoldable pub latest_user_message_text : Option (List Message) → Text
latest_user_message_text none = []
latest_user_message_text (some msgs) = latest_user_text (reverse msgs)

unfoldable pub mentions : List Text → Text → Bool
mentions names name = any (λ existing. text_eq existing name) names

-- the names of one message's calls, added to those so far
unfoldable pub add_call_names : List Text → List PendingToolCall → List Text
add_call_names out [] = out
add_call_names out (tc ∷ tcs) =
    add_call_names
      (elim tc.name [
        | none ↦ out
        | some name ↦ if mentions out name then out else out ++ name ∷ []
      ])
      tcs

unfoldable pub add_message_names : List Text → List Message → List Text
add_message_names out [] = out
add_message_names out (msg ∷ msgs) =
    add_message_names (elim msg.tool_calls [ none ↦ out | some tcs ↦ add_call_names out tcs ]) msgs

unfoldable pub history_tool_call_names : Option (List Message) → List Text
history_tool_call_names none = []
history_tool_call_names (some msgs) = add_message_names [] msgs

abbrev pub offers : {J : Type 0} → List (Tool J) → Text → Bool
offers {J} tools name = any (λ (t : Tool J). is_text t.name name) tools

module _ {W J C : Type 0} where
  -- the JSON of an agent in the array of tools
  abbrev pub tool_of : Agent W J C → Tool J
  tool_of a = record { name = some a.name; definition = a.definition }

  -- the loops of `build_tools_for_round` over names, with the set `seen` and the array `out`
  unfoldable pub add_unseen :
      List (Agent W J C) → List Text × List (Tool J) → List Text → List Text × List (Tool J)
  add_unseen agents acc [] = acc
  add_unseen agents (seen, out) (name ∷ names) =
      add_unseen agents
        (if mentions seen name then (seen, out) else (
          name ∷ seen,
          elim (get_agent agents name) [ none ↦ out | some a ↦ out ++ tool_of a ∷ [] ],
        ))
        names

  -- `search_tools` comes first
  unfoldable pub start_tools : List (Agent W J C) → List Text × List (Tool J)
  start_tools agents = elim (get_agent agents search_tools_name) [
    | none ↦ ([], [])
    | some a ↦ (a.name ∷ [], tool_of a ∷ [])
  ]

  -- the loop over the names of the conversation
  unfoldable pub fold_history :
      Option (List (Agent W J C)) → List (Tool J) → List Text → List (Tool J)
  fold_history agents rebuilt [] = rebuilt
  fold_history none rebuilt (name ∷ names) = fold_history none rebuilt names
  fold_history (some agents) rebuilt (name ∷ names) =
      fold_history (some agents)
        (if offers rebuilt name
          then rebuilt
          else elim (get_agent agents name) [ none ↦ rebuilt | some a ↦ rebuilt ++ tool_of a ∷ [] ])
        names

-- the names of the router, and those of the session
abbrev pub selected_names : Option (Text → ℕ → List Text) → Text → List Text
selected_names none latest_user_msg = []
selected_names (some pre_select) latest_user_msg = pre_select latest_user_msg 5

module _ {Uuid : Type 0} {names : DashMap Text Present} {d : DashMap Uuid names.Map} where
  abbrev pub session_names : DiscoveredTools names d → Option Uuid → List Text
  session_names discovered none = []
  session_names discovered (some sid) = snapshot discovered sid

module _ {W J C Uuid : Type 0} {names : DashMap Text Present} {d : DashMap Uuid names.Map} where
  unfoldable pub build_tools_for_round :
      Option (List (Agent W J C))
      → Option (Text → ℕ → List Text)
      → DiscoveredTools names d
      → Option Uuid
      → Text
      → List (Tool J)
  build_tools_for_round none router discovered chat_session_id latest_user_msg = []
  build_tools_for_round (some agents) router discovered chat_session_id latest_user_msg =
      let selected =
        add_unseen agents (start_tools agents) (selected_names router latest_user_msg) in
      (add_unseen agents selected (session_names discovered chat_session_id)).1

  -- the body, a JSON object, with its tools rebuilt
  unfoldable pub rebuild_tools_for_next_round :
      Body J
      → Option (List (Agent W J C))
      → Option (Text → ℕ → List Text)
      → Option (DiscoveredTools names d)
      → Option Uuid
      → Body J
  rebuild_tools_for_next_round body agents none none chat_session_id = body
  rebuild_tools_for_next_round body agents (some router) none chat_session_id = record body {
    tools =
        fold_history agents
          (build_tools_for_round agents (some router) DiscoveredTools.new chat_session_id
            (latest_user_message_text body.messages))
          (history_tool_call_names body.messages)
        ++ body.tools;
  }
  rebuild_tools_for_next_round body agents router (some discovered) chat_session_id = record body {
    tools =
        fold_history agents
          (build_tools_for_round agents router discovered chat_session_id
            (latest_user_message_text body.messages))
          (history_tool_call_names body.messages)
        ++ body.tools;
  }
