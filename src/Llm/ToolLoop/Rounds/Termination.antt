-- ===== src/Llm/ToolLoop/Rounds/Termination.antt =====
-- Each round that goes on spends a tool round or an auto-continue, and both are bounded.
use nagent.Prelude.{ℕ, zero, suc, ◌+◌, ◌-◌, ◌<◌, ◌≤◌, ◌≡◌, refl, some, List, arith}
use nagent.Llm.Sse.{SseStream}
use nagent.Llm.Sse.Round.{RoundOutcome}
use nagent.Llm.Sse.ToolCalls.{PendingToolCall}
use nagent.Llm.ToolLoop.Types.{
  Response, Setup, Outside, Settings, LoopState, Turn, continues, returned, send, push,
}
use nagent.Llm.ToolLoop.Dispatch.{
  answer_nameless, answer_unknown, invoke_agent, dispatch, dispatch_all,
}
use nagent.Llm.ToolLoop.Rounds.{
  after_round, forward, read_round, after_post, next_round, rounds, run_tool_loop,
}
use nagent.Llm.ToolLoop.Turns.{
  OnTurn, OnTurn-mono, on_dispatch, on_dispatch_all, on_after_round, on_read_round, on_after_post,
}

module _ {s : Setup} (o : Outside s) (p : Settings s) where
  -- the tool rounds and the auto-continues that are left
  abbrev pub left : LoopState s → ℕ
  left l = (p.max_rounds - l.tool_round) + (p.max_auto_continues - l.auto_continue_count)

  Anything : LoopState s → Type 0
  Anything _ = Unit

  abbrev Spends : LoopState s → Turn s → Type 0
  Spends l = OnTurn (λ l'. left l' < left l) Anything

  keeps_left :
      (l : LoopState s) (tc : PendingToolCall)
      → OnTurn (λ l'. left l' ≡ left l) Anything (dispatch o p l tc)
  unfolding Anything send push answer_nameless answer_unknown invoke_agent
  keeps_left l tc =
      on_dispatch o p (λ l'. left l' ≡ left l) Anything l tc (λ name a found decided. refl)
        (λ name reason. tt) (λ name. refl) refl

  left-dispatch_all :
      (n : ℕ) (tcs : List PendingToolCall) (l : LoopState s)
      → left l < n
      → OnTurn (λ l'. left l' < n) Anything (dispatch_all o p l tcs)
  left-dispatch_all n tcs l h =
      on_dispatch_all o p (λ l'. left l' < n) Anything
        (λ l tc h.
          OnTurn-mono (dispatch o p l tc) (λ l' e. omega (arith, h, e)) (λ l' e. e)
            (keeps_left l tc))
        tcs l h

  after_round-Spends :
      (l : LoopState s) (outcome : RoundOutcome) → Spends l (after_round o p l outcome)
  unfolding Anything push
  after_round-Spends l outcome =
      on_after_round o p (λ l'. left l' < left l) Anything l outcome tt tt
        (λ more. grind (arith, more)) tt tt
        (λ within. left-dispatch_all (left l) outcome.tool_calls _ (grind (arith, within)))

  read_round-Spends : (l : LoopState s) (stream : SseStream) → Spends l (read_round o p l stream)
  unfolding Anything
  read_round-Spends l stream =
      on_read_round o p (λ l'. left l' < left l) Anything l stream
        (λ frames outcome. after_round-Spends (forward o p l frames) outcome) (λ frames. tt)

  after_post-Spends : (l : LoopState s) (r : Response) → Spends l (after_post o p l r)
  unfolding Anything
  after_post-Spends l r =
      on_after_post o p (λ l'. left l' < left l) Anything l r (λ e. tt) (λ status body. tt)
        (λ stream. read_round-Spends l stream)

  next_round-Spends : (l : LoopState s) → Spends l (next_round o p l)
  unfolding next_round
  next_round-Spends l = after_post-Spends _ _

  rounds_end :
      (fuel : ℕ) (t : Turn s)
      → OnTurn (λ l. left l < fuel) Anything t
      → (l : LoopState s) × (rounds o p fuel t ≡ some l)
  unfolding rounds
  rounds_end fuel (returned l) h = (l, refl)
  rounds_end zero (continues l) h = absurd (omega (arith, h))
  rounds_end (suc fuel) (continues l) h = rounds_end fuel (next_round o p l) (
      OnTurn-mono (next_round o p l) (λ l' e. omega (arith, h, e)) (λ l' e. e)
        (next_round-Spends l))

  -- The loop returns, whatever the model server, the agents and the parser give, when its fuel is at
  -- least the tool rounds and the auto-continues that are left together.
  pub run_tool_loop_ends :
      (fuel : ℕ) (l : LoopState s) (first_stream : SseStream)
      → left l ≤ fuel
      → (l' : LoopState s) × (run_tool_loop o p fuel l first_stream ≡ some l')
  unfolding run_tool_loop
  run_tool_loop_ends fuel l first_stream h = rounds_end fuel (read_round o p l first_stream) (
      OnTurn-mono (read_round o p l first_stream) (λ l' e. omega (arith, h, e)) (λ l' e. e)
        (read_round-Spends l first_stream))
