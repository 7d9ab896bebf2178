-- ===== src/Workers/Tasks.antt =====
-- The items that the workers handle.
use nginx_k8s_loadbalancer.Base.{
  ℕ, zero, suc, ◌≤◌, ◌≡◌, refl, ap, subst, some, List, [], ◌∷◌, arith, length,
}
use nginx_k8s_loadbalancer.Base.Insertion.{Inserted, first, later}
use nginx_k8s_loadbalancer.Workers.{Worker, idle, busy, spawn, worker_at, set_worker}

module _ {A : Type 0} where
  abbrev pub tasks : List (Worker A) → List A
  tasks [] = []
  tasks (idle ∷ workers) = tasks workers
  tasks (busy x ∷ workers) = x ∷ tasks workers

  -- No worker handles two items.
  pub length-tasks : (workers : List (Worker A)) → length (tasks workers) ≤ length workers
  length-tasks [] = omega arith
  length-tasks (idle ∷ workers) = omega (arith, length-tasks workers)
  length-tasks (busy x ∷ workers) = omega (arith, length-tasks workers)

  pub length-set_worker :
      (n : ℕ) (v : Worker A) (workers : List (Worker A))
      → length (set_worker n v workers) ≡ length workers
  unfolding set_worker
  length-set_worker n v [] = refl
  length-set_worker zero v (w ∷ workers) = refl
  length-set_worker (suc n) v (w ∷ workers) = ap suc (length-set_worker n v workers)

  -- An idle worker that gets an item has one more task for all, a busy one that finishes one less.
  pub tasks-set_busy :
      (n : ℕ) (x : A) (workers : List (Worker A))
      → worker_at n workers ≡ some idle
      → Inserted x (tasks workers) (tasks (set_worker n (busy x) workers))
  unfolding worker_at set_worker
  tasks-set_busy n x [] found = absurd (ground arith)
  tasks-set_busy zero x (idle ∷ workers) found = first (tasks workers)
  tasks-set_busy zero x (busy y ∷ workers) found = absurd (ground arith)
  tasks-set_busy (suc n) x (idle ∷ workers) found = tasks-set_busy n x workers found
  tasks-set_busy (suc n) x (busy y ∷ workers) found = later y (tasks-set_busy n x workers found)

  pub tasks-set_idle :
      (n : ℕ) (x : A) (workers : List (Worker A))
      → worker_at n workers ≡ some (busy x)
      → Inserted x (tasks (set_worker n idle workers)) (tasks workers)
  unfolding worker_at set_worker
  tasks-set_idle n x [] found = absurd (ground arith)
  tasks-set_idle zero x (idle ∷ workers) found = absurd (ground arith)
  tasks-set_idle zero x (busy y ∷ workers) found =
      let same : y ≡ x = ground arith in
      subst (λ z. Inserted z (tasks workers) (y ∷ tasks workers)) same (first (tasks workers))
  tasks-set_idle (suc n) x (idle ∷ workers) found = tasks-set_idle n x workers found
  tasks-set_idle (suc n) x (busy y ∷ workers) found = later y (tasks-set_idle n x workers found)

-- At the start all workers are idle.
pub length-spawn : (A : Type 0) (n : ℕ) → length (spawn {A = A} n) ≡ n
unfolding spawn
length-spawn A zero = refl
length-spawn A (suc n) = ap suc (length-spawn A n)

pub tasks-spawn : (A : Type 0) (n : ℕ) → tasks (spawn {A = A} n) ≡ []
unfolding spawn
tasks-spawn A zero = refl
tasks-spawn A (suc n) = tasks-spawn A n
