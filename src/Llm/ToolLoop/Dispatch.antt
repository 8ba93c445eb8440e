-- ===== src/Llm/ToolLoop/Dispatch.antt =====
-- crates/nagent-server/src/llm/tool_loop.rs: one tool call of a round.
use nagent.Prelude.{Bool, true, false, Option, none, some, List, [], ◌∷◌, ◌++◌, ◌&&◌, if◌then◌else◌}
use nagent.Prelude.Words.{unwrap_or}
use nagent.Prelude.Text.{Text, codes}
use nagent.Agents.Context.{for_tests, for_chat_session, for_chat_session_with_memories}
use nagent.Llm.DiscoveredTools.{DiscoveredTools, add}
use nagent.Llm.Permission.Store.{PermissionStore, has_override, set_pending}
use nagent.Llm.Sse.ToolCalls.{PendingToolCall}
use nagent.Llm.ToolLoop.Types.{
  text, Message, Agent, ConfirmationDecision, allow, needs_confirmation, Invocation, ok, err, Setup,
  Context, tool_call, tool_result, needs_approval, round_paused, done, Outside, Settings, LoopState,
  Turn, continues, returned, get_agent, send, push,
}

unfoldable pub refusal_message_for_llm : Text → Text → Text
refusal_message_for_llm name reason =
    codes "Tool \""
    ++ (name
        ++ (codes
              "\" did not run: the user has not approved it yet. The current turn is paused. Do NOT re-call this tool and do NOT call any other tool — wait for the user's next message; the tool will run only if the user approves it then. Reason: "
            ++ reason))

-- the `role: "tool"` message that answers a call
abbrev pub tool_message : Text → Text → Message
tool_message id payload = record {
  role = some (codes "tool");
  content = text payload;
  tool_calls = none;
  tool_call_id = some id;
}

abbrev pub is_ok : Invocation → Bool
is_ok (ok _) = true
is_ok (err _) = false

abbrev pub payload_of : Invocation → Text
payload_of (ok t) = t
payload_of (err e) = codes "[error] " ++ e

module _ {s : Setup} (o : Outside s) (p : Settings s) where
  -- the `UserContext` that is built for each call
  unfoldable pub call_context : Context s
  call_context = elim p.chat_session_id [
    | none ↦ for_tests p.user_id
    | some sid ↦ elim p.memory_source [
      | none ↦ for_chat_session p.user_id p.resolver sid
      | some mem ↦ for_chat_session_with_memories p.user_id p.resolver mem sid
    ]
  ]

  unfoldable pub session_override : PermissionStore s.sessions → Text → Bool
  session_override store name = elim p.chat_session_id [
    | none ↦ false
    | some sid ↦ has_override store sid name
  ]

  -- an agent that is not registered counts as one that honours the override
  unfoldable pub force_allow : PermissionStore s.sessions → Text → Bool
  force_allow store name =
      session_override store name
      && elim (get_agent o.agents name) [ none ↦ true | some a ↦ a.allow_session_override ]

  -- the turn looks at the shared permissions again
  abbrev pub others : LoopState s → LoopState s
  others l = record l { permission_store = o.meanwhile l.sent l.world l.permission_store }

  unfoldable pub args_value : PendingToolCall → s.Json
  args_value tc = unwrap_or (o.from_str tc.arguments) o.null

  -- the call has no name
  unfoldable pub answer_nameless : LoopState s → PendingToolCall → LoopState s
  answer_nameless l tc =
      let payload = codes "[error] tool call arrived without a function name" in
      push (send l (tool_result tc.id (codes "<unknown>") false payload))
        (tool_message tc.id payload)

  -- no agent has the name
  unfoldable pub answer_unknown : LoopState s → PendingToolCall → Text → LoopState s
  answer_unknown l tc name =
      let payload = codes "unknown agent: `" ++ (name ++ codes "`") in
      push (send l (tool_result tc.id name false payload)) (tool_message tc.id payload)

  abbrev pub set_pending_if : LoopState s → PendingToolCall → Text → PermissionStore s.sessions
  set_pending_if l tc name = elim p.chat_session_id [
    | none ↦ l.permission_store
    | some sid ↦
        set_pending l.permission_store sid tc.id name (args_value tc) (o.clock l.world).0
          (o.clock l.world).1
  ]

  -- the call needs the user's confirmation: the turn ends
  unfoldable pub refuse : LoopState s → PendingToolCall → Text → Text → LoopState s
  refuse l tc name reason =
      let wait_message = refusal_message_for_llm name reason in
      let l1 : LoopState s = record l { permission_store = set_pending_if l tc name } in
      let l2 = send l1 (needs_approval tc.id name wait_message (args_value tc)) in
      let l3 = send l2 (round_paused tc.id name reason) in
      send (push l3 (tool_message tc.id wait_message)) done

  abbrev pub add_if :
      Option (DiscoveredTools s.names s.discoveries)
      → Text
      → Option (DiscoveredTools s.names s.discoveries)
  add_if none name = none
  add_if (some store) name = elim p.chat_session_id [
    | none ↦ some store
    | some sid ↦ some (add store sid name)
  ]

  -- the agent runs; its context is dropped with the invocation recorded in it
  unfoldable pub invoke_agent :
      LoopState s → PendingToolCall → Text → Agent s.World s.Json (Context s) → LoopState s
  invoke_agent l tc name agent =
      let (world, result) = agent.invoke l.world call_context (args_value tc) in
      let l1 =
        send (record l { world = world })
          (tool_result tc.id name (is_ok result) (payload_of result)) in
      let l2 = push l1 (tool_message tc.id (payload_of result)) in
      record l2 { discovered_tools = add_if l2.discovered_tools name }

  abbrev pub decide : Bool → Agent s.World s.Json (Context s) → s.Json → ConfirmationDecision
  decide forced agent args = if forced then allow else agent.requires_confirmation call_context args

  -- the call of a registered agent
  unfoldable pub dispatch_agent :
      LoopState s → PendingToolCall → Text → Agent s.World s.Json (Context s) → Turn s
  dispatch_agent l tc name agent =
      elim (decide (force_allow l.permission_store name) agent (args_value tc)) [
        | allow ↦ continues (invoke_agent l tc name agent)
        | needs_confirmation reason ↦ returned (refuse (others l) tc name reason)
      ]

  unfoldable pub dispatch_named : LoopState s → PendingToolCall → Text → Turn s
  dispatch_named l tc name = elim (get_agent o.agents name) [
    | none ↦ continues (answer_unknown l tc name)
    | some agent ↦ dispatch_agent l tc name agent
  ]

  unfoldable pub dispatch : LoopState s → PendingToolCall → Turn s
  dispatch l tc = elim tc.name [
    | none ↦ continues (answer_nameless l tc)
    | some name ↦ dispatch_named (others (send l (tool_call tc name l.tool_round))) tc name
  ]

  -- the loop over the calls of a round
  unfoldable pub dispatch_all : LoopState s → List PendingToolCall → Turn s
  dispatch_all l [] = continues l
  dispatch_all l (tc ∷ tcs) = elim (dispatch l tc) [
    | continues l' ↦ dispatch_all l' tcs
    | returned l' ↦ returned l'
  ]
