-- ===== src/Stt/Inbound/Runs.antt =====
-- The tasks of the server in any order: what the sessions hold and the workers are sent, and whose
-- state an action touches.
use nagent.Prelude.{ℕ, refl, sym, subst, List, [], ◌∷◌}
use nagent.Prelude.Result.{Result}
use nagent.Collections.Bindings.{AllBound, empty-AllBound, insert-AllBound, remove-AllBound}
use nagent.Stt.Proto.{Bytes}
use nagent.Stt.Validation.{LimitsConfig}
use nagent.Stt.Session.{
  idle_sessions, transcript_of, InferResponse, new, new_session_map, register, unregister, sweep,
  send_to_session, outbound_for,
}
use nagent.Stt.Pool.{InferRequest, handle_one, BackendError, channels}
use nagent.Stt.Inbound.{Server, SttState, handle_inbound, answer_job}
use nagent.Stt.Inbound.Effects.{handle_inbound-Effect}
use nagent.Stt.Inbound.Safety.{
  IsClean, IsProper, channels-AllAllowed, deliver_map, unregister_all-AllProper, Effect-IsClean,
}

-- what the tasks of the server do to the sessions
pub data Action (v : Server) : Type 0 where
  -- a connection registers its session
  opens : v.stores.Uuid → ℕ → Action v
  frame : v.stores.Uuid → ℕ → Bytes → Action v
  -- a worker does a job, in so many milliseconds
  answers : InferRequest v.stores.Uuid → ℕ → Action v
  ends : v.stores.Uuid → Action v
  watchdog : ℕ → (v.stores.Uuid → ℕ) → Action v

module _ {v : Server} (limits : LimitsConfig)
    (infer : InferRequest v.stores.Uuid → Result (InferResponse v.stores.Uuid) BackendError) where
  unfoldable pub step : SttState v → Action v → SttState v
  unfolding register unregister sweep handle_inbound answer_job
  step s (opens id now) = record s { sessions = register s.sessions id now }
  step s (frame id now bytes) = (handle_inbound limits s id now bytes).0
  step s (answers job elapsed_ms) = answer_job infer s job elapsed_ms
  step s (ends id) = record s { sessions = (unregister s.sessions id).0 }
  step s (watchdog idle_ms now) = record s { sessions = sweep s.sessions idle_ms now }

  unfoldable pub run : SttState v → List (Action v) → SttState v
  unfolding step
  run s [] = s
  run s (a ∷ as1) = run (step s a) as1

  step-IsClean : (s : SttState v) (a : Action v) → IsClean limits s → IsClean limits (step s a)
  unfolding step
  step-IsClean s (opens id now) (p, a) = (
    unfold register new in
        insert-AllBound v.stores.sessions IsProper s.sessions.map id (new id now) p (refl, tt),
    a,
  )
  step-IsClean s (frame id now bytes) c =
      Effect-IsClean limits s id _ (handle_inbound-Effect limits s id now bytes) c
  step-IsClean s (answers job elapsed_ms) (p, a) =
      let resp = handle_one infer job elapsed_ms in
      let found = outbound_for s.sessions resp.session_id in
      (
        unfold answer_job send_to_session in
            subst (AllBound v.stores.sessions IsProper)
              (sym (deliver_map s.sessions found (transcript_of resp))) p,
        a,
      )
  step-IsClean s (ends id) (p, a) =
      (unfold unregister in remove-AllBound v.stores.sessions IsProper s.sessions.map id p, a)
  step-IsClean s (watchdog idle_ms now) (p, a) = (
    unfold sweep in
        unregister_all-AllProper (idle_sessions (v.stores.sessions.iter s.sessions.map) idle_ms now)
          s.sessions p,
    a,
  )

  run-IsClean :
      (as1 : List (Action v)) (s : SttState v) → IsClean limits s → IsClean limits (run s as1)
  unfolding run
  run-IsClean [] s c = c
  run-IsClean (a ∷ as1) s c = run-IsClean as1 (step s a) (step-IsClean s a c)

  -- a server that has started, with `workers` workers
  abbrev pub fresh : SttState v → ℕ → SttState v
  fresh s workers = record s {
    sessions = new_session_map;
    queued = channels v.jobs workers v.jobs.closed;
  }

  -- Whatever clients send, and in whatever order the tasks of a fresh server run: every job that
  -- a worker is sent has a language of the allow list, or none, and no more samples than the limit, and
  -- every session has such a language and its own channel.
  pub run-fresh-IsClean :
      (s : SttState v) (workers : ℕ) (as1 : List (Action v))
      → IsClean limits (run (fresh s workers) as1)
  unfolding new_session_map
  run-fresh-IsClean s workers as1 =
      run-IsClean as1 (fresh s workers)
        (empty-AllBound v.stores.sessions IsProper, channels-AllAllowed v.jobs limits workers)
