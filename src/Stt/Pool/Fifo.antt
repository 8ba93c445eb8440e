-- ===== src/Stt/Pool/Fifo.antt =====
-- What is sent to the workers.
use nagent.Prelude.{ℕ, ◌≤◌, ◌≡◌, ◌↔◌, Bool, true, ◌==◌, List, [], ◌∷◌, keep_if, arith}
use nagent.Stt.Channel.{Channels}
use nagent.Stt.Pool.{
  InferRequest, PoolDispatch, worker_count, default_worker_count, shard_for, send_to_worker,
}

-- The pool starts between one worker and eight, whatever the engine recommends and the machine has.
pub default_worker_count-bounds :
    (recommended cpus : ℕ)
    → (1 ≤ default_worker_count recommended cpus) × (default_worker_count recommended cpus ≤ 8)
unfolding default_worker_count
default_worker_count-bounds recommended cpus = ground arith

module _ {Uuid : Type 0} (jobs : Channels ℕ (InferRequest Uuid)) (hash : Uuid → ℕ) where
  -- jobs sent one after another
  pub send_all : PoolDispatch → jobs.Chans → List (InferRequest Uuid) → jobs.Chans
  send_all pool c [] = c
  send_all pool c (r ∷ rs) = send_all pool (send_to_worker jobs hash pool c r).0 rs

  abbrev pub routed : PoolDispatch → ℕ → List (InferRequest Uuid) → List (InferRequest Uuid)
  routed pool w rs = keep_if (λ r. shard_for hash r.session_id (worker_count pool) == w) rs

  module _ (same : Uuid → Uuid → Bool) (same_iff : (a b : Uuid) → (same a b ≡ true) ↔ (a ≡ b)) where
    abbrev pub of_session : Uuid → List (InferRequest Uuid) → List (InferRequest Uuid)
    of_session id rs = keep_if (λ r. same id r.session_id) rs
