-- ===== src/Llm/ToolLoop/Rounds/Consent.antt =====
-- Which agents a turn runs.
use nagent.Prelude.{ℕ, ◌≡◌, ◌⊎◌, inl, inr, true, Option, none, some, List, Bool-cases, and_true}
use nagent.Prelude.Text.{Text}
use nagent.Llm.Permission.Store.{PermissionStore, set_pending}
use nagent.Llm.Sse.{SseStream}
use nagent.Llm.Sse.Round.{RoundOutcome}
use nagent.Llm.Sse.ToolCalls.{PendingToolCall}
use nagent.Llm.ToolLoop.Types.{
  Agent, allow, Body, Frame, Response, Setup, Context, Outside, Settings, LoopState, Turn,
  get_agent, send, push,
}
use nagent.Llm.ToolLoop.Dispatch.{
  args_value, call_context, session_override, force_allow, decide, answer_nameless, answer_unknown,
  refuse, others, set_pending_if, invoke_agent, dispatch,
}
use nagent.Llm.ToolLoop.Rounds.{
  after_round, forward, read_round, after_post, next_round, run_tool_loop,
}
use nagent.Llm.ToolLoop.Turns.{
  OnTurn, announced, on_dispatch, on_dispatch_all, on_after_round, on_read_round, on_after_post,
  on_rounds,
}

module _ {s : Setup} (o : Outside s) (p : Settings s) where
  -- an agent that asks for no confirmation, or an override of the session that it honours
  unfoldable pub Permitted :
      PermissionStore s.sessions → Text → Agent s.World s.Json (Context s) → s.Json → Type 0
  Permitted store name a args =
      (a.requires_confirmation (call_context o p) args ≡ allow)
      ⊎ ((session_override o p store name ≡ true) × (a.allow_session_override ≡ true))

  forced :
      (store : PermissionStore s.sessions) (name : Text) (a : Agent s.World s.Json (Context s))
      → get_agent o.agents name ≡ some a
      → force_allow o p store name ≡ true
      → (session_override o p store name ≡ true) × (a.allow_session_override ≡ true)
  unfolding force_allow
  forced store name a found h = and_true _ _ (rw (found, force_allow) at h)

  decides :
      (store : PermissionStore s.sessions) (name : Text) (a : Agent s.World s.Json (Context s))
      (args : s.Json)
      → get_agent o.agents name ≡ some a
      → decide o p (force_allow o p store name) a args ≡ allow
      → Permitted store name a args
  unfolding Permitted
  decides store name a args found h = elim (Bool-cases (force_allow o p store name)) [
    | inl overridden ↦ inr (forced store name a found overridden)
    | inr asked ↦ inl (rw (asked, decide) at h)
  ]

  -- a property of the world and of the shared permissions, which the model server, the other requests
  -- and the waiting calls that a turn stores keep
  module _ (P : s.World → PermissionStore s.sessions → Type 0)
      (posts : (w : s.World) (st : PermissionStore s.sessions) (b : Body s.Json)
        → P w st
        → P (o.post w b).0 st)
      (interferes : (sent : List (Frame s.Json)) (w : s.World) (st : PermissionStore s.sessions)
        → P w st
        → P w (o.meanwhile sent w st))
      (waits : (w : s.World) (st : PermissionStore s.sessions) (sid : s.Uuid) (id name : Text)
          (args : s.Json) (evicted_at now : ℕ)
        → P w st
        → P w (set_pending st sid id name args evicted_at now))
      (runs : (name : Text) (a : Agent s.World s.Json (Context s)) (args : s.Json) (w : s.World)
          (st : PermissionStore s.sessions)
        → get_agent o.agents name ≡ some a
        → Permitted st name a args
        → P w st
        → P (a.invoke w (call_context o p) args).0 st) where
    Holds : LoopState s → Type 0
    Holds l = P l.world l.permission_store

    abbrev Follows : Turn s → Type 0
    Follows = OnTurn Holds Holds

    set_pending_if-Holds :
        (l : LoopState s) (tc : PendingToolCall) (name : Text)
        → P l.world l.permission_store
        → P l.world (set_pending_if o p l tc name)
    set_pending_if-Holds l tc name h = waiting p.chat_session_id
      where
        waiting :
            (session : Option s.Uuid)
            → P l.world (elim session [
              | none ↦ l.permission_store
              | some sid ↦
                  set_pending l.permission_store sid tc.id name
                    (args_value o p tc)
                    (o.clock l.world).0
                    (o.clock l.world).1
            ])
        waiting none = h
        waiting (some sid) = waits l.world l.permission_store sid tc.id name _ _ _ h

    consents : (l : LoopState s) (tc : PendingToolCall) → Holds l → Follows (dispatch o p l tc)
    unfolding Holds answer_nameless answer_unknown refuse invoke_agent push send
    consents l tc h =
        let seen : (name : Text) → Holds (announced o p l tc name) =
          λ name. interferes _ l.world l.permission_store h in
        on_dispatch o p Holds Holds l tc
          (λ name a found decided.
            let st = (announced o p l tc name).permission_store in
            runs name a (args_value o p tc) l.world st found
              (decides st name a (args_value o p tc) found decided) (seen name))
          (λ name reason.
            set_pending_if-Holds (others o p (announced o p l tc name)) tc name
              (interferes _ l.world _ (seen name)))
          seen h

    consents-after_round :
        (l : LoopState s) (outcome : RoundOutcome) → Holds l → Follows (after_round o p l outcome)
    unfolding Holds send push
    consents-after_round l outcome h =
        on_after_round o p Holds Holds l outcome h h (λ more. h) h h
          (λ within. on_dispatch_all o p Holds Holds consents outcome.tool_calls _ h)

    consents-read_round :
        (l : LoopState s) (stream : SseStream) → Holds l → Follows (read_round o p l stream)
    unfolding Holds send
    consents-read_round l stream h =
        on_read_round o p Holds Holds l stream
          (λ frames outcome. consents-after_round (forward o p l frames) outcome h) (λ frames. h)

    consents-after_post : (l : LoopState s) (r : Response) → Holds l → Follows (after_post o p l r)
    unfolding Holds send
    consents-after_post l r h =
        on_after_post o p Holds Holds l r (λ e. h) (λ status body. h)
          (λ stream. consents-read_round l stream h)

    consents-next_round : (l : LoopState s) → Holds l → Follows (next_round o p l)
    unfolding Holds next_round
    consents-next_round l h = consents-after_post _ _ (posts l.world l.permission_store _ h)

    -- A turn runs agents only with consent, whatever other requests do to the permissions of its
    -- session in the meantime: what holds of the world and the permissions when the turn starts holds
    -- when it returns, if the requests to the model server, the other requests and the storing of a
    -- call that waits keep it, and so does each registered agent wherever it asks for no confirmation
    -- or honours an override that the session has when the call is made. (Whether an agent asks is
    -- decided in a context that holds no earlier call of the turn.)
    pub consent-run_tool_loop :
        (fuel : ℕ) (l l' : LoopState s) (first_stream : SseStream)
        → P l.world l.permission_store
        → run_tool_loop o p fuel l first_stream ≡ some l'
        → P l'.world l'.permission_store
    unfolding run_tool_loop Holds
    consent-run_tool_loop fuel l l' first_stream h e =
        on_rounds o p Holds Holds consents-next_round fuel (read_round o p l first_stream) l'
          (consents-read_round l first_stream h) e
