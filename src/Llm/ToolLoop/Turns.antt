-- ===== src/Llm/ToolLoop/Turns.antt =====
-- How a property of the loop's state passes through one turn of it: each lemma asks for the cases of
-- the code and gives the property of what the code leaves.
use nagent.Prelude.{
  ℕ, zero, suc, ◌+◌, ◌≡◌, refl, subst, true, false, Option, none, some, List, [], ◌∷◌, ◌&&◌, ltb,
  leb, inl, inr, Bool-cases, Option-cases, arith,
}
use mathlib.Core.Option.{some-injective}
use nagent.Prelude.Text.{Text, is_empty}
use nagent.Llm.Sse.{SseStream}
use nagent.Llm.Sse.Progress.{size_of, has_ended, drain_ends}
use nagent.Llm.Sse.Round.{Round, closed, failed, out_of_fuel, RoundOutcome, nothing_yet, drain}
use nagent.Llm.Sse.ToolCalls.{PendingToolCall}
use nagent.Llm.ToolLoop.Types.{
  Agent, ConfirmationDecision, allow, needs_confirmation, Response, unreachable, rejected, opened,
  Setup, Context, tool_call, error_event, done, broken, upstream_error, thinking_truncated,
  agent_loop_exceeded, connect_failed, read_failed, no_messages, Outside, Settings, LoopState, Turn,
  continues, returned, get_agent, send, push,
}
use nagent.Llm.ToolLoop.Dispatch.{
  args_value, answer_nameless, answer_unknown, refuse, invoke_agent, decide, force_allow, others,
  dispatch_agent, dispatch_named, dispatch, dispatch_all,
}
use nagent.Llm.ToolLoop.Rounds.{
  assistant_partial, continue_user, assistant_entry, is_reasoning_truncation, no_calls, with_calls,
  after_round, forward, after_drain, read_round, after_post, next_round, rounds,
}

module _ {s : Setup} (P Q : LoopState s → Type 0) where
  -- `P` where the function goes on, `Q` where it has returned
  abbrev pub OnTurn : Turn s → Type 0
  OnTurn (continues l) = P l
  OnTurn (returned l) = Q l

pub OnTurn-mono :
    {s : Setup} {P P' Q Q' : LoopState s → Type 0} (t : Turn s)
    → ((l : LoopState s) → P l → P' l)
    → ((l : LoopState s) → Q l → Q' l)
    → OnTurn P Q t
    → OnTurn P' Q' t
OnTurn-mono (continues l) f g h = f l h
OnTurn-mono (returned l) f g h = g l h

module _ {s : Setup} (o : Outside s) (p : Settings s) where
  abbrev pub announced : LoopState s → PendingToolCall → Text → LoopState s
  announced l tc name = others o p (send l (tool_call tc name l.tool_round))

  module _ (P Q : LoopState s → Type 0) where
    on_decision :
        (d : ConfirmationDecision) (l : LoopState s) (refused : Text → LoopState s)
        → (d ≡ allow → P l)
        → ((reason : Text) → Q (refused reason))
        → OnTurn P Q
            (elim d [ allow ↦ continues l | needs_confirmation reason ↦ returned (refused reason) ])
    on_decision allow l refused runs refuses = runs refl
    on_decision (needs_confirmation reason) l refused runs refuses = refuses reason

    module _ (l : LoopState s) (tc : PendingToolCall)
        (runs : (name : Text) (a : Agent s.World s.Json (Context s))
          → get_agent o.agents name ≡ some a
          → decide o p
              (force_allow o p (announced l tc name).permission_store name)
              a
              (args_value o p tc)
            ≡ allow
          → P (invoke_agent o p (announced l tc name) tc name a))
        (refuses : (name reason : Text)
          → Q (refuse o p (others o p (announced l tc name)) tc name reason))
        (unknown : (name : Text) → P (answer_unknown o p (announced l tc name) tc name))
        (nameless : P (answer_nameless o p l tc)) where
      on_agent :
          (name : Text) (a : Option (Agent s.World s.Json (Context s)))
          → get_agent o.agents name ≡ a
          → OnTurn P Q (elim a [
            | none ↦ continues (answer_unknown o p (announced l tc name) tc name)
            | some agent ↦ dispatch_agent o p (announced l tc name) tc name agent
          ])
      unfolding dispatch_agent send
      on_agent name none found = unknown name
      on_agent name (some a) found =
          on_decision
            (decide o p (force_allow o p (announced l tc name).permission_store name) a
              (args_value o p tc))
            (invoke_agent o p (announced l tc name) tc name a)
            (refuse o p (others o p (announced l tc name)) tc name) (runs name a found)
            (refuses name)

      on_name :
          (name : Option Text)
          → OnTurn P Q (elim name [
            | none ↦ continues (answer_nameless o p l tc)
            | some n ↦ dispatch_named o p (announced l tc n) tc n
          ])
      unfolding dispatch_named
      on_name none = nameless
      on_name (some name) = on_agent name (get_agent o.agents name) refl

      -- the branches of a call
      pub on_dispatch : OnTurn P Q (dispatch o p l tc)
      unfolding dispatch
      on_dispatch = on_name tc.name

    on_rest :
        (t : Turn s) (tcs : List PendingToolCall)
        → OnTurn P Q t
        → ((l : LoopState s) → P l → OnTurn P Q (dispatch_all o p l tcs))
        → OnTurn P Q (elim t [ continues l ↦ dispatch_all o p l tcs | returned l ↦ returned l ])
    on_rest (continues l) tcs h rest = rest l h
    on_rest (returned l) tcs h rest = h

    pub on_dispatch_all :
        ((l : LoopState s) (tc : PendingToolCall) → P l → OnTurn P Q (dispatch o p l tc))
        → (tcs : List PendingToolCall) (l : LoopState s) → P l
        → OnTurn P Q (dispatch_all o p l tcs)
    unfolding dispatch_all
    on_dispatch_all step [] l h = h
    on_dispatch_all step (tc ∷ tcs) l h =
        on_rest (dispatch o p l tc) tcs (step l tc h) (on_dispatch_all step tcs)

    module _ (l : LoopState s) (outcome : RoundOutcome) (answers : Q (send l done))
        (gives_up : Q (send (send l (error_event (thinking_truncated p.max_auto_continues))) done))
        (resumes : leb p.max_auto_continues l.auto_continue_count ≡ false
          → P (
              push
                (push
                  (record l { auto_continue_count = l.auto_continue_count + 1 })
                  assistant_partial)
                continue_user)) where
      on_no_calls : OnTurn P Q (no_calls o p l outcome)
      unfolding no_calls
      on_no_calls =
          elim (Bool-cases (is_reasoning_truncation outcome && ltb 0 p.max_auto_continues)) [
            | inl cut ↦ elim (Bool-cases (leb p.max_auto_continues l.auto_continue_count)) [
              | inl spent ↦ rw (cut, spent) gives_up
              | inr more ↦ rw (cut, more) (resumes more)
            ]
            | inr whole ↦ rw whole answers
          ]

      module _
          (exceeds : Q (
            send
              (send
                (record l { tool_round = l.tool_round + 1 })
                (error_event (agent_loop_exceeded p.max_rounds)))
              done))
          (breaks : Q (send (record l { tool_round = l.tool_round + 1 }) (broken no_messages)))
          (calls : ltb p.max_rounds (l.tool_round + 1) ≡ false
            → OnTurn P Q (
                dispatch_all o p
                  (push (record l { tool_round = l.tool_round + 1 }) (assistant_entry outcome))
                  outcome.tool_calls)) where
        on_with_calls : OnTurn P Q (with_calls o p l outcome)
        unfolding with_calls
        on_with_calls = elim (Bool-cases (ltb p.max_rounds (l.tool_round + 1))) [
          | inl over ↦ rw over exceeds
          | inr within ↦ elim (Option-cases l.body.messages) [
            | inl missing ↦ rw (within, missing) breaks
            | inr (msgs, found) ↦ rw (within, found) (calls within)
          ]
        ]

        -- the branches that follow a round
        pub on_after_round : OnTurn P Q (after_round o p l outcome)
        unfolding after_round
        on_after_round = elim (Bool-cases (is_empty outcome.tool_calls)) [
          | inl none_called ↦ rw none_called on_no_calls
          | inr called ↦ rw called on_with_calls
        ]

    -- a round on its stream comes to an end
    pub on_read_round :
        (l : LoopState s) (stream : SseStream)
        → ((frames : List Text) (outcome : RoundOutcome)
            → OnTurn P Q (after_round o p (forward o p l frames) outcome))
        → ((frames : List Text) → Q (send (forward o p l frames) (broken read_failed)))
        → OnTurn P Q (read_round o p l stream)
    unfolding read_round after_drain has_ended
    on_read_round l stream ends fails =
        on_drain (drain o.parse (suc (size_of stream)) stream nothing_yet)
          (drain_ends o.parse (suc (size_of stream)) stream nothing_yet (omega arith))
      where
        on_drain : (r : Round) → has_ended r ≡ true → OnTurn P Q (after_drain o p l r)
        on_drain (closed frames outcome) h = ends frames outcome
        on_drain (failed frames) h = fails frames
        on_drain out_of_fuel h = ground (arith, h)

    -- the answers of the model server
    pub on_after_post :
        (l : LoopState s) (r : Response)
        → ((e : Text) → Q (send l (broken (connect_failed e))))
        → ((status : ℕ) (body : Text)
            → Q (send (send l (error_event (upstream_error status body))) done))
        → ((stream : SseStream) → OnTurn P Q (read_round o p l stream))
        → OnTurn P Q (after_post o p l r)
    unfolding after_post
    on_after_post l (unreachable e) cut refused opens = cut e
    on_after_post l (rejected status body) cut refused opens = refused status body
    on_after_post l (opened stream) cut refused opens = opens stream

    -- a loop that has returned
    pub on_rounds :
        ((l : LoopState s) → P l → OnTurn P Q (next_round o p l))
        → (fuel : ℕ) (t : Turn s) (l : LoopState s) → OnTurn P Q t
        → rounds o p fuel t ≡ some l
        → Q l
    unfolding rounds
    on_rounds step fuel (returned l') l h e = subst Q (some-injective l' l e) h
    on_rounds step zero (continues l') l h e = ground (arith, e)
    on_rounds step (suc fuel) (continues l') l h e =
        on_rounds step fuel (next_round o p l') l (step l' h) e
