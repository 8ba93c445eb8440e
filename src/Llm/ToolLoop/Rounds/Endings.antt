-- ===== src/Llm/ToolLoop/Rounds/Endings.antt =====
-- What the frames of a turn look like to a client.
use nagent.Prelude.{ℕ, ◌+◌, ◌≡◌, refl, ap, ◌∙◌, Bool, some, List, [], ◌∷◌, ◌++◌, map}
use nagent.Prelude.Text.{Text, text_eq_refl}
use nagent.Llm.Sse.{SseStream}
use nagent.Llm.Sse.Round.{RoundOutcome}
use nagent.Llm.Sse.ToolCalls.{PendingToolCall}
use nagent.Llm.ToolLoop.Types.{
  Response, Setup, Frame, upstream, tool_call, tool_result, needs_approval, round_paused,
  ErrorEvent, error_event, done, broken, no_messages, read_failed, Outside, Settings, LoopState,
  Turn, send, push,
}
use nagent.Llm.ToolLoop.Dispatch.{answer_nameless, answer_unknown, refuse, invoke_agent, dispatch}
use nagent.Llm.ToolLoop.Rounds.{
  after_round, forward, read_round, after_post, next_round, run_tool_loop,
}
use nagent.Llm.ToolLoop.Phases.{
  Phase, running, approving, paused, finished, expect, advance, phase, phase-append, phase-upstream,
}
use nagent.Llm.ToolLoop.Turns.{
  OnTurn, on_dispatch, on_dispatch_all, on_after_round, on_read_round, on_after_post, on_rounds,
}

module _ {s : Setup} (o : Outside s) (p : Settings s) where
  abbrev At : Phase → LoopState s → Type 0
  At ph l = phase running l.sent ≡ ph

  abbrev Sent : Type 0
  Sent = List (Frame s.Json)

  -- a frame that is sent in a known phase
  sends :
      {ph : Phase} (fs : Sent) (f : Frame s.Json)
      → phase running fs ≡ ph
      → phase running (fs ++ f ∷ []) ≡ advance ph f
  unfolding phase
  sends fs f h = phase-append running fs (f ∷ []) ∙ ap (λ x. advance x f) h

  expect-same : (id : Text) (ph : Phase) → expect id id ph ≡ ph
  expect-same id ph = rw (text_eq_refl id) refl

  forwards : (l : LoopState s) (fs : List Text) → At running l → At running (forward o p l fs)
  forwards l fs h =
      let gs : Sent = map upstream fs in
      phase-append running l.sent gs ∙ ap (λ x. phase x gs) h ∙ phase-upstream s.Json fs

  -- an announced call and its result
  calls :
      (fs : Sent) (tc : PendingToolCall) (name payload : Text) (round : ℕ) (ok : Bool)
      → phase running fs ≡ running
      → phase running
          ((fs ++ tool_call tc name round ∷ []) ++ tool_result tc.id name ok payload ∷ [])
        ≡ running
  unfolding advance
  calls fs tc name payload round ok h = sends _ _ (sends fs _ h) ∙ expect-same tc.id running

  -- an announced call that is refused
  refuses :
      (fs : Sent) (tc : PendingToolCall) (name message reason : Text) (round : ℕ) (args : s.Json)
      → phase running fs ≡ running
      → phase running (
          (((fs ++ tool_call tc name round ∷ []) ++ needs_approval tc.id name message args ∷ [])
            ++ round_paused tc.id name reason ∷ [])
          ++ done ∷ [])
        ≡ finished
  unfolding advance
  refuses fs tc name message reason round args h = sends _ _ (
      sends _ _ (sends _ _ (sends fs _ h) ∙ expect-same tc.id (approving tc.id))
      ∙ expect-same tc.id paused)

  answered :
      (l : LoopState s) (tc : PendingToolCall)
      → At running l
      → OnTurn (At running) (At finished) (dispatch o p l tc)
  unfolding answer_nameless answer_unknown refuse invoke_agent push advance send
  answered l tc h =
      on_dispatch o p (At running) (At finished) l tc
        (λ name a found decided. calls l.sent tc name _ l.tool_round _ h)
        (λ name reason. refuses l.sent tc name _ reason l.tool_round _ h)
        (λ name. calls l.sent tc name _ l.tool_round _ h) (sends l.sent _ h)

  ends_failed :
      (l : LoopState s) (e : ErrorEvent)
      → At running l
      → At finished (send (send l (error_event e)) done)
  unfolding send advance
  ends_failed l e h = sends _ _ (sends l.sent (error_event e) h)

  abbrev Follows : Turn s → Type 0
  Follows = OnTurn (At running) (At finished)

  ends-after_round :
      (l : LoopState s) (outcome : RoundOutcome)
      → At running l
      → Follows (after_round o p l outcome)
  unfolding send push advance
  ends-after_round l outcome h =
      on_after_round o p (At running) (At finished) l outcome (sends l.sent done h)
        (ends_failed l _ h) (λ more. h)
        (ends_failed (record l { tool_round = l.tool_round + 1 }) _ h)
        (sends l.sent (broken no_messages) h)
        (λ within. on_dispatch_all o p (At running) (At finished) answered outcome.tool_calls _ h)

  ends-read_round :
      (l : LoopState s) (stream : SseStream) → At running l → Follows (read_round o p l stream)
  unfolding send advance
  ends-read_round l stream h =
      on_read_round o p (At running) (At finished) l stream
        (λ frames outcome. ends-after_round (forward o p l frames) outcome (forwards l frames h))
        (λ frames. sends _ (broken read_failed) (forwards l frames h))

  ends-after_post : (l : LoopState s) (r : Response) → At running l → Follows (after_post o p l r)
  unfolding send advance
  ends-after_post l r h =
      on_after_post o p (At running) (At finished) l r (λ e. sends l.sent _ h)
        (λ status body. ends_failed l _ h) (λ stream. ends-read_round l stream h)

  ends-next_round : (l : LoopState s) → At running l → Follows (next_round o p l)
  unfolding next_round
  ends-next_round l h = ends-after_post _ _ h

  -- Where the client has seen no ending before, the frames of a turn that returns make a finished
  -- turn: each call that was announced is answered, with its own id, before any other frame, by a
  -- result or by a request for approval; a request for approval is followed by the pause and the
  -- end; an error event is followed by the end; and nothing follows the end or a cut stream.
  pub phase-run_tool_loop :
      (fuel : ℕ) (l l' : LoopState s) (first_stream : SseStream)
      → phase running l.sent ≡ running
      → run_tool_loop o p fuel l first_stream ≡ some l'
      → phase running l'.sent ≡ finished
  unfolding run_tool_loop
  phase-run_tool_loop fuel l l' first_stream h e =
      on_rounds o p (At running) (At finished) ends-next_round fuel (read_round o p l first_stream)
        l' (ends-read_round l first_stream h) e
