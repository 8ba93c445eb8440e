-- ===== src/Stt/Connection/Ends.antt =====
-- How a connection ends, and what it leaves behind.
use nagent.Prelude.{
  ℕ, ◌≡◌, refl, ap, ◌∙◌, Bool, true, false, Option, none, List, [], ◌∷◌, ◌++◌, arith,
}
use nagent.Prelude.Text.{Text}
use nagent.Prelude.Result.{Result, ok, err}
use nagent.Net.{IpAddr}
use nagent.RateLimit.{CheckResult, limited, check_opt}
use nagent.RateLimit
use nagent.Stt.Proto.{Bytes, BackendInfo, backend, encode_frame}
use nagent.Stt.Validation.{LimitsConfig}
use nagent.Stt.Session.{payload, close, unregister, register}
use nagent.Stt.Inbound.{
  Server, SttState, InboundError, codec, client_stop, worker_unavailable, validation, session_of,
  Handled, handle_inbound,
}
use nagent.Stt.Inbound.Effects.{Effect, unchanged, configured, sent, handle_inbound-Effect}
use nagent.Stt.Connection.{
  Sent, Event, binary_frame, client_close, ping_or_pong, text_frame, broken, ended, outbound,
  outbound_ended, Flow, next, left, after_inbound, on_frame, forward_payload, after, turn,
  event_loop, release, finish, finished, greeted, ws_connection,
}

module _ {v : Server} where
  abbrev pub state_of : Flow v → SttState v
  state_of (next s out) = s
  state_of (left s out) = s

  abbrev pub IsLeft : Flow v → Type 0
  IsLeft (next s out) = ⊥
  IsLeft (left s out) = Unit

  -- the slots are as in `s`
  abbrev KeepsSlots : SttState v → SttState v → Type 0
  KeepsSlots s s1 = s1.ws_concurrency ≡ s.ws_concurrency

  Effect-KeepsSlots :
      (limits : LimitsConfig) (s : SttState v) (id : v.stores.Uuid) (s1 : SttState v)
      → Effect limits s id s1
      → KeepsSlots s s1
  Effect-KeepsSlots limits s id s1 unchanged = refl
  Effect-KeepsSlots limits s id s1 (configured _ _ _ _ _) = refl
  Effect-KeepsSlots limits s id s1 (sent _ _ _ _ _) = refl

module _ {v : Server} (limits : LimitsConfig) (describe : InboundError v.CodecFailure → Text)
    (describe_limit : IpAddr → ℕ → Text) (peer : Option IpAddr) (id : v.stores.Uuid) where
  after_inbound-state :
      (h : Handled v) (can_send : Bool) (out : List Sent)
      → state_of (after_inbound limits describe describe_limit peer id h can_send out) ≡ h.0
  after_inbound-state (s, ok _) can_send out = refl
  after_inbound-state (s, err client_stop) can_send out = refl
  after_inbound-state (s, err (codec e)) can_send out = refl
  after_inbound-state (s, err worker_unavailable) can_send out = refl
  after_inbound-state (s, err (validation e)) can_send out = refl

  on_frame-KeepsSlots :
      (s : SttState v) (r : CheckResult) (bytes : Bytes) (now : ℕ) (can_send : Bool)
      (out : List Sent)
      → KeepsSlots s
          (state_of (on_frame limits describe describe_limit peer id s r bytes now can_send out))
  on_frame-KeepsSlots s RateLimit.ok bytes now can_send out =
      ap (λ x. x.ws_concurrency)
        (after_inbound-state (handle_inbound limits s id now bytes) can_send out)
      ∙ Effect-KeepsSlots limits s id _ (handle_inbound-Effect limits s id now bytes)
  on_frame-KeepsSlots s (limited ip wait) bytes now can_send out = refl

  forward_payload-KeepsSlots :
      {E : Type 0} (s : SttState v) (r : Result Bytes E) (can_send : Bool) (out : List Sent)
      → KeepsSlots s
          (state_of (forward_payload limits describe describe_limit peer id s r can_send out))
  forward_payload-KeepsSlots s (ok bytes) true out = refl
  forward_payload-KeepsSlots s (ok bytes) false out = refl
  forward_payload-KeepsSlots s (err e) can_send out = refl

  turn-KeepsSlots :
      (s : SttState v) (out : List Sent) (e : Event)
      → KeepsSlots s (state_of (turn limits describe describe_limit peer id s out e))
  unfolding turn
  turn-KeepsSlots s out (binary_frame bytes swept_at now now_ms can_send) =
      let (l, r) = check_opt s.rate_limiter peer swept_at now in
      on_frame-KeepsSlots (record s { rate_limiter = l }) r bytes now_ms can_send out
  turn-KeepsSlots s out (outbound (payload p) can_send) =
      forward_payload-KeepsSlots s (encode_frame v.wire p) can_send out
  turn-KeepsSlots s out (outbound close can_send) = refl
  turn-KeepsSlots s out client_close = refl
  turn-KeepsSlots s out ping_or_pong = refl
  turn-KeepsSlots s out text_frame = refl
  turn-KeepsSlots s out broken = refl
  turn-KeepsSlots s out ended = refl
  turn-KeepsSlots s out outbound_ended = refl

  abbrev looped : SttState v → List Sent → List Event → Flow v
  looped s out es = event_loop limits describe describe_limit peer id s out es

  after-KeepsSlots :
      (s : SttState v) (f : Flow v) (k : SttState v → List Sent → Flow v)
      → KeepsSlots s (state_of f)
      → ((s1 : SttState v) (out : List Sent) → KeepsSlots s1 (state_of (k s1 out)))
      → KeepsSlots s (state_of (after k f))
  after-KeepsSlots s (next s1 out) k h h1 = h1 s1 out ∙ h
  after-KeepsSlots s (left s1 out) k h h1 = h

  looped-KeepsSlots :
      (es : List Event) (s : SttState v) (out : List Sent)
      → KeepsSlots s (state_of (looped s out es))
  unfolding event_loop
  looped-KeepsSlots [] s out = refl
  looped-KeepsSlots (e ∷ es) s out =
      after-KeepsSlots s (turn limits describe describe_limit peer id s out e)
        (λ s1 out1. looped s1 out1 es) (turn-KeepsSlots s out e) (looped-KeepsSlots es)

  after-IsLeft :
      (f : Flow v) (k : SttState v → List Sent → Flow v)
      → ((s1 : SttState v) (out : List Sent) → IsLeft (k s1 out))
      → IsLeft (after k f)
  after-IsLeft (next s out) k h = h s out
  after-IsLeft (left s out) k h = tt

  -- the socket ends, whatever came before
  looped-IsLeft :
      (es rest : List Event) (s : SttState v) (out : List Sent)
      → IsLeft (looped s out (es ++ ended ∷ rest))
  unfolding event_loop turn
  looped-IsLeft [] rest s out = tt
  looped-IsLeft (e ∷ es) rest s out =
      after-IsLeft (turn limits describe describe_limit peer id s out e) _ (looped-IsLeft es rest)

  gone-unregister :
      (s : SttState v) → session_of (record s { sessions = (unregister s.sessions id).0 }) id ≡ none
  unfolding unregister
  gone-unregister s =
      v.stores.sessions.get-remove s.sessions.map id id
      ∙ ground (arith, v.stores.sessions.key_eq_iff id id)

  -- a flow that was left, with the session and its slot given back
  abbrev pub IsReleased : SttState v → Flow v → Type 0
  IsReleased s f =
      IsLeft f
      × (session_of (state_of f) id ≡ none)
      × ((state_of f).ws_concurrency ≡ release s.ws_concurrency peer)

  finished-IsReleased :
      (s : SttState v) (f : Flow v)
      → IsLeft f
      → KeepsSlots s (state_of f)
      → IsReleased s (finished limits describe describe_limit peer id f)
  unfolding finish unregister
  finished-IsReleased s (next s1 out) l h = elim l [ ]
  finished-IsReleased s (left s1 out) l h = (tt, gone-unregister s1, ap (λ w. release w peer) h)

  greeted-IsReleased :
      (s : SttState v) (r : Result Bytes _) (es rest : List Event)
      → IsReleased s (greeted limits describe describe_limit peer id s r true (es ++ ended ∷ rest))
  greeted-IsReleased s (ok bytes) es rest =
      finished-IsReleased s _ (looped-IsLeft es rest s _) (looped-KeepsSlots _ s _)
  greeted-IsReleased s (err e) es rest =
      finished-IsReleased s _ (looped-IsLeft es rest s _) (looped-KeepsSlots _ s _)

  -- A connection whose greeting was sent and whose socket ends, whatever happened before, ends with
  -- its session out of the map and with one slot given back.
  pub ws_connection-IsReleased :
      (s : SttState v) (now : ℕ) (info : BackendInfo) (es rest : List Event)
      → IsReleased s (
          ws_connection limits describe describe_limit peer id s now info true (es ++ ended ∷ rest))
  unfolding ws_connection
  ws_connection-IsReleased s now info es rest =
      greeted-IsReleased (record s { sessions = register s.sessions id now })
        (encode_frame v.wire (backend info)) es rest

  greeted_failed :
      (s : SttState v) (r : Result Bytes _) (bytes : Bytes) (es : List Event)
      → r ≡ ok bytes
      → (session_of (state_of (greeted limits describe describe_limit peer id s r false es)) id
          ≡ none)
        × KeepsSlots s (state_of (greeted limits describe describe_limit peer id s r false es))
  greeted_failed s (ok bytes1) bytes es e = (gone-unregister s, refl)
  greeted_failed s (err why) bytes es e = absurd (cc e)

  -- A connection whose greeting was encoded and could not be sent gives back no slot.
  pub ws_connection_failed :
      (s : SttState v) (now : ℕ) (info : BackendInfo) (es : List Event) (bytes : Bytes)
      → encode_frame v.wire (backend info) ≡ ok bytes
      → let s1 =
          state_of (ws_connection limits describe describe_limit peer id s now info false es) in
        (session_of s1 id ≡ none) × (s1.ws_concurrency ≡ s.ws_concurrency)
  unfolding ws_connection
  ws_connection_failed s now info es bytes e =
      greeted_failed (record s { sessions = register s.sessions id now })
        (encode_frame v.wire (backend info)) bytes es e
