-- ===== src/Llm/ToolLoop/Rounds.antt =====
-- crates/nagent-server/src/llm/tool_loop.rs: `run_tool_loop`, on fuel; `Termination` shows how much is
-- enough. The client stays connected.
pub mod Termination
pub mod Endings
pub mod Consent
use nagent.Prelude.{
  ℕ, zero, suc, ◌+◌, Bool, true, false, Option, none, some, List, [], ◌∷◌, ◌++◌, ◌&&◌, ltb, leb,
  map, if◌then◌else◌,
}
use nagent.Prelude.Text.{Text, codes, is_empty}
use nagent.Llm.Sse.{SseStream}
use nagent.Llm.Sse.Progress.{size_of}
use nagent.Llm.Sse.Round.{Round, closed, failed, out_of_fuel, RoundOutcome, nothing_yet, drain}
use nagent.Llm.Sse.ToolCalls.{PendingToolCall}
use nagent.Llm.ToolLoop.Types.{
  Content, text, Message, Body, Response, unreachable, rejected, opened, Setup, Frame, upstream,
  error_event, done, broken, upstream_error, thinking_truncated, agent_loop_exceeded,
  connect_failed, read_failed, no_messages, Outside, Settings, LoopState, Turn, continues, returned,
  send, push,
}
use nagent.Llm.ToolLoop.Tools.{is_text, rebuild_tools_for_next_round}
use nagent.Llm.ToolLoop.Dispatch.{dispatch_all}

-- the two messages of an auto-continue
abbrev pub assistant_partial : Message
assistant_partial = record {
  role = some (codes "assistant");
  content = text [];
  tool_calls = none;
  tool_call_id = none;
}

abbrev pub continue_user : Message
continue_user = record {
  role = some (codes "user");
  content = text (
      codes
        "Your previous response was cut off while you were still reasoning (no answer reached the user). Please continue from where you left off and produce the visible answer now. Do not repeat the reasoning you already did; just finish the response.");
  tool_calls = none;
  tool_call_id = none;
}

-- the assistant's turn with its calls
abbrev pub assistant_entry : RoundOutcome → Message
assistant_entry outcome = record {
  role = some (codes "assistant");
  content = text outcome.assistant_text;
  tool_calls = some outcome.tool_calls;
  tool_call_id = none;
}

abbrev pub is_reasoning_truncation : RoundOutcome → Bool
is_reasoning_truncation outcome =
    is_text outcome.finish_reason (codes "length") && is_empty outcome.assistant_text

module _ {s : Setup} (o : Outside s) (p : Settings s) where
  abbrev pub fail : LoopState s → Frame s.Json → Turn s
  fail l f = returned (send (send l f) done)

  -- a round without tool calls
  unfoldable pub no_calls : LoopState s → RoundOutcome → Turn s
  no_calls l outcome =
      if is_reasoning_truncation outcome && ltb 0 p.max_auto_continues
      then if leb p.max_auto_continues l.auto_continue_count
        then fail l (error_event (thinking_truncated p.max_auto_continues))
        else continues (
            push
              (push (record l { auto_continue_count = l.auto_continue_count + 1 })
                assistant_partial)
              continue_user)
      else returned (send l done)

  -- a round with tool calls
  unfoldable pub with_calls : LoopState s → RoundOutcome → Turn s
  with_calls l outcome =
      let l1 : LoopState s = record l { tool_round = l.tool_round + 1 } in
      if ltb p.max_rounds l1.tool_round
      then fail l1 (error_event (agent_loop_exceeded p.max_rounds))
      else elim l1.body.messages [
        | none ↦ returned (send l1 (broken no_messages))
        | some _ ↦ dispatch_all o p (push l1 (assistant_entry outcome)) outcome.tool_calls
      ]

  unfoldable pub after_round : LoopState s → RoundOutcome → Turn s
  after_round l outcome =
      if is_empty outcome.tool_calls then no_calls l outcome else with_calls l outcome

  abbrev pub forward : LoopState s → List Text → LoopState s
  forward l frames =
      let fs : List (Frame s.Json) = map upstream frames in record l { sent = l.sent ++ fs }

  -- the frames of the round, and what follows it
  unfoldable pub after_drain : LoopState s → Round → Turn s
  after_drain l (closed frames outcome) = after_round (forward l frames) outcome
  after_drain l (failed frames) = returned (send (forward l frames) (broken read_failed))
  after_drain l out_of_fuel = continues l

  -- a round on its stream
  unfoldable pub read_round : LoopState s → SseStream → Turn s
  read_round l stream = after_drain l (drain o.parse (suc (size_of stream)) stream nothing_yet)

  -- the request of a round after the first
  unfoldable pub after_post : LoopState s → Response → Turn s
  after_post l (unreachable e) = returned (send l (broken (connect_failed e)))
  after_post l (rejected status body) = fail l (error_event (upstream_error status body))
  after_post l (opened stream) = read_round l stream

  unfoldable pub next_round : LoopState s → Turn s
  next_round l =
      let body =
        rebuild_tools_for_next_round l.body (some o.agents) o.router l.discovered_tools
          p.chat_session_id in
      let (world, response) = o.post l.world body in
      after_post (record l { body = body; world = world }) response

  -- the rounds after the first; `none` is fuel that has run out
  unfoldable pub rounds : ℕ → Turn s → Option (LoopState s)
  rounds fuel (returned l) = some l
  rounds zero (continues l) = none
  rounds (suc fuel) (continues l) = rounds fuel (next_round l)

  unfoldable pub run_tool_loop : ℕ → LoopState s → SseStream → Option (LoopState s)
  run_tool_loop fuel l first_stream = rounds fuel (read_round l first_stream)
