-- ===== src/Llm/Intercept.antt =====
-- crates/nagent-server/src/llm/permission.rs: `run_permission_intercept`, which answers a user's
-- decision on a tool call before the chat turn. `to_string` is the JSON printer, `now` the reading of
-- the clock that the permission store takes.
pub mod Approved
pub mod Refused
mod Tests
use nagent.Prelude.{ℕ, Bool, true, false, Option, none, some, List, [], ◌∷◌, ◌++◌, if◌then◌else◌}
use nagent.Prelude.Words.{unwrap_or}
use nagent.Prelude.Text.{Text, codes, trim_start, is_empty}
use nagent.Agents.Context.{for_tests, for_chat_session, record_invocation}
use nagent.Llm.Permission.{DecisionPrefix, approve, approve_always, deny, parse_decision_prefix}
use nagent.Llm.Permission.Store.{PendingApproval, PermissionStore, take_pending, add_override}
use nagent.Llm.ToolLoop.Types.{
  Content, text, parts, other, Message, Agent, Setup, Context, Registry, Frame, tool_call,
  tool_result, get_agent,
}
use nagent.Llm.ToolLoop.Tools.{is_text}
use nagent.Llm.ToolLoop.Dispatch.{tool_message, is_ok, payload_of}

-- the last message of the user, with those before and after it
unfoldable pub last_user : List Message → Option (List Message × Message × List Message)
last_user [] = none
last_user (msg ∷ msgs) = elim (last_user msgs) [
  | some (before, user, after) ↦ some (msg ∷ before, user, after)
  | none ↦ if is_text msg.role (codes "user") then some ([], msg, msgs) else none
]

abbrev pub as_str : Content → Option Text
as_str (text t) = some t
as_str (parts ps) = none
as_str other = none

abbrev pub user_message : Text → Message
user_message t = record {
  role = some (codes "user");
  content = text t;
  tool_calls = none;
  tool_call_id = none;
}

-- the messages without the sentinel
unfoldable pub without_sentinel : List Message → List Message → Text → List Message
without_sentinel before after remainder =
    if is_empty (trim_start remainder)
    then before ++ after
    else before ++ user_message (trim_start remainder) ∷ after

module _ (s : Setup) where
  -- what the function changes, and the frames that it returns
  pub record Reply : Type 0 where
    pub world : s.World
    pub permission_store : PermissionStore s.sessions
    pub messages : List Message
    pub frames : List (Frame s.Json)

  -- the arguments that stay
  pub record Caller : Type 0 where
    pub to_string : s.Json → Option Text
    pub agents : Option (Registry s)
    pub session_id : Option s.Uuid
    pub user_id : s.Uuid
    pub resolver : Option s.Resolver
    pub now : ℕ

abbrev pub expired_text : Text
expired_text = codes "[error] approval expired or unknown; please ask the user again"

abbrev pub deny_msg : Text
deny_msg = codes "Utilisateur a refusé l'opération."

-- the assistant's turn that is made up for the approved call
abbrev pub call_message : Text → Text → Text → Message
call_message id name arguments = record {
  role = some (codes "assistant");
  content = text [];
  tool_calls = some (record { id = id; name = some name; arguments = arguments } ∷ []);
  tool_call_id = none;
}

module _ {s : Setup} where
  abbrev pub answer : Reply s → Text → Text → Reply s
  answer r id content = record r { messages = r.messages ++ tool_message id content ∷ [] }

module _ {s : Setup} (c : Caller s) where
  unfoldable pub approved_context : Text → Context s
  approved_context name =
      record_invocation
        (elim c.session_id [
          | none ↦ for_tests c.user_id
          | some sid ↦ for_chat_session c.user_id c.resolver sid
        ])
        name

  unfoldable pub run_approved :
      Reply s → Text → PendingApproval s.Json → Agent s.World s.Json (Context s) → Reply s
  run_approved r id p agent =
      let args_str = unwrap_or (c.to_string p.args) (codes "{}") in
      let (world, result) = agent.invoke r.world (approved_context p.tool_name) p.args in
      record r {
        world = world;
        frames =
            r.frames
            ++ (tool_call (record { id = id; name = some p.tool_name; arguments = args_str })
                  p.tool_name 1
                ∷ tool_result id p.tool_name (is_ok result) (payload_of result)
                ∷ []);
        messages =
            r.messages
            ++ (call_message id p.tool_name args_str ∷ tool_message id (payload_of result) ∷ []);
      }

  unfoldable pub run_known :
      Reply s → Text → PendingApproval s.Json → Option (Agent s.World s.Json (Context s)) → Reply s
  run_known r id p none =
      answer r id (codes "[error] unknown agent: `" ++ (p.tool_name ++ codes "`"))
  run_known r id p (some agent) = run_approved r id p agent

  unfoldable pub run_pending :
      Reply s → Text → PendingApproval s.Json → Option (Registry s) → Reply s
  run_pending r id p none =
      answer r id
        (codes "[error] agents not registered; cannot run `" ++ (p.tool_name ++ codes "`"))
  run_pending r id p (some registry) = run_known r id p (get_agent registry p.tool_name)

  unfoldable pub take_if :
      PermissionStore s.sessions
      → Text
      → Option s.Uuid
      → PermissionStore s.sessions × Option (PendingApproval s.Json)
  take_if store id none = (store, none)
  take_if store id (some sid) = take_pending store sid id c.now

  -- what has been taken from the store for an approval
  unfoldable pub answer_taken :
      Reply s → Text → PermissionStore s.sessions → Option (PendingApproval s.Json) → Reply s
  answer_taken r id store none = answer (record r { permission_store = store }) id expired_text
  answer_taken r id store (some p) =
      run_pending (record r { permission_store = store }) id p c.agents

  unfoldable pub override_if :
      PermissionStore s.sessions → Text → Option s.Uuid → PermissionStore s.sessions
  override_if store name none = store
  override_if store name (some sid) = add_override store sid name c.now

  -- the branches of the decision
  unfoldable pub decided : Reply s → DecisionPrefix → Reply s
  decided r (approve id) =
      let (store, pending) = take_if r.permission_store id c.session_id in
      answer_taken r id store pending
  decided r (approve_always name) = record r {
    permission_store = override_if r.permission_store name c.session_id;
  }
  decided r (deny id) =
      let r1 : Reply s = record r {
        permission_store = (take_if r.permission_store id c.session_id).0;
        frames = r.frames ++ tool_result id (codes "<denied>") false deny_msg ∷ [];
      } in
      answer r1 id deny_msg

  unfoldable pub with_decision :
      s.World
      → PermissionStore s.sessions
      → List Message
      → List Message
      → Option (DecisionPrefix × Text)
      → Option (Reply s)
  with_decision world store before after none = none
  with_decision world store before after (some (decision, remainder)) = some (
      decided
        (record {
          world = world;
          permission_store = store;
          messages = without_sentinel before after remainder;
          frames = [];
        })
        decision)

  unfoldable pub with_text :
      s.World
      → PermissionStore s.sessions
      → List Message
      → List Message
      → Option Text
      → Option (Reply s)
  with_text world store before after none = none
  with_text world store before after (some t) =
      with_decision world store before after (parse_decision_prefix t)

  unfoldable pub with_user :
      s.World
      → PermissionStore s.sessions
      → Option (List Message × Message × List Message)
      → Option (Reply s)
  with_user world store none = none
  with_user world store (some (before, user, after)) =
      with_text world store before after (as_str user.content)

  unfoldable pub run_permission_intercept :
      Option (List Message) → s.World → PermissionStore s.sessions → Option (Reply s)
  run_permission_intercept none world store = none
  run_permission_intercept (some msgs) world store = with_user world store (last_user msgs)
