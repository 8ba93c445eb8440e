-- ===== src/Stt/Pool.antt =====
-- crates/stt-core/src/worker.rs, with job.rs and `BackendError` of backend.rs: the pool of inference
-- workers. Each worker has a channel, named by the worker's index. `hash` is the
-- `DefaultHasher` of `std` on an identifier, and `infer` the speech engine.
pub mod Fifo
use nagent.Prelude.{
  ℕ, zero, suc, ◌%◌, min, max, Bool, ltb, leb, ◌==◌, Option, none, some, List, [], ◌∷◌,
  if◌then◌else◌,
}
use nagent.Prelude.Text.{Text}
use nagent.Prelude.Result.{Result, ok, err}
use nagent.Stt.Channel.{Channels}
use nagent.Stt.Proto.{F32}
use nagent.Stt.Session.{InferResponse}

pub record InferRequest (Uuid : Type 0) : Type 0 where
  pub session_id : Uuid
  pub samples : List F32
  pub language : Option Text
  pub translate : Bool

pub data BackendError : Type 0 where
  not_ready inference : Text → BackendError
  overloaded : BackendError

-- the senders are those of the channels below `senders`; a pool has one at least
pub record PoolDispatch : Type 0 where
  pub senders : ℕ

unfoldable pub worker_count : PoolDispatch → ℕ
worker_count p = p.senders

unfoldable pub default_worker_count : ℕ → ℕ → ℕ
default_worker_count recommended_workers cpus =
    if leb 1 recommended_workers then min recommended_workers 8 else min (max cpus 1) 8

module _ {Uuid : Type 0} (hash : Uuid → ℕ) where
  unfoldable pub shard_for : Uuid → ℕ → ℕ
  shard_for session_id worker_count = hash session_id % worker_count

module _ {Uuid : Type 0} (jobs : Channels ℕ (InferRequest Uuid)) where
  -- the channels of `count` workers, each with room for one job that waits; the log of a channel does
  -- not depend on that
  unfoldable pub channels : ℕ → jobs.Chans → jobs.Chans
  channels zero c = c
  channels (suc n) c = jobs.channel (channels n c) n

  -- `WorkerPool::spawn`; `none` is the failed assertion
  unfoldable pub spawn : ℕ → jobs.Chans → Option (PoolDispatch × jobs.Chans)
  unfolding channels
  spawn count c = if leb 1 count then some (record { senders = count }, channels count c) else none

  -- `PoolDispatch::send`: whether the job was taken; it waits while the worker's channel is full
  unfoldable pub send_to_worker :
      (Uuid → ℕ) → PoolDispatch → jobs.Chans → InferRequest Uuid → jobs.Chans × Bool
  unfolding shard_for worker_count
  send_to_worker hash pool c job =
      jobs.send c (shard_for hash job.session_id (worker_count pool)) job

-- the answer to a failure, so that nobody waits
abbrev pub empty_response : {Uuid : Type 0} → Uuid → ℕ → InferResponse Uuid
empty_response session_id elapsed_ms = record {
  session_id = session_id;
  text = [];
  segments = [];
  lang = [];
  duration_ms = elapsed_ms;
}

-- what is sent for an outcome of the engine
abbrev pub response_of :
    {Uuid : Type 0} → Result (InferResponse Uuid) BackendError → Uuid → ℕ → InferResponse Uuid
response_of (ok resp) session_id elapsed_ms =
    if resp.duration_ms == 0 then record resp { duration_ms = elapsed_ms } else resp
response_of (err e) session_id elapsed_ms = empty_response session_id elapsed_ms

-- `InferenceWorker::handle_one`
unfoldable pub handle_one :
    {Uuid : Type 0}
    → (InferRequest Uuid → Result (InferResponse Uuid) BackendError)
    → InferRequest Uuid
    → ℕ
    → InferResponse Uuid
handle_one infer job elapsed_ms = response_of (infer job) job.session_id elapsed_ms
