-- ===== src/Workers.antt =====
-- The goroutines that Handler.Run and Synchronizer.Run start: each runs wait.Until(worker, 0, stopCh),
-- which calls the worker again whenever it returns, until the stop channel is closed.
pub mod Tasks
use nginx_k8s_loadbalancer.Base.{ℕ, zero, suc, Option, none, some, List, [], ◌∷◌}

-- A goroutine waits in Get, or before it, or it handles the item that it got.
pub data Worker (A : Type 0) : Type 0 where
  idle : Worker A
  busy : A → Worker A

module _ {A : Type 0} where
  -- for i := 0; i < threads; i++ { go … }
  unfoldable pub spawn : ℕ → List (Worker A)
  spawn zero = []
  spawn (suc threads) = idle ∷ spawn threads

  unfoldable pub worker_at : ℕ → List (Worker A) → Option (Worker A)
  worker_at n [] = none
  worker_at zero (w ∷ workers) = some w
  worker_at (suc n) (w ∷ workers) = worker_at n workers

  unfoldable pub set_worker : ℕ → Worker A → List (Worker A) → List (Worker A)
  set_worker n v [] = []
  set_worker zero v (w ∷ workers) = v ∷ workers
  set_worker (suc n) v (w ∷ workers) = w ∷ set_worker n v workers
