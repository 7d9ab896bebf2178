-- ===== src/Synchronization/Retries.antt =====
-- How often a failing event is tried, from what the queue promises of its count of requeues.
use nginx_k8s_loadbalancer.Base.{
  ℕ, suc, ◌≤◌, ◌<◌, ◌≡◌, ◌≢◌, ap, ◌∙◌, Option, some, arith, ltb, if◌then◌else◌,
}
use nginx_k8s_loadbalancer.Result.{Error}
use nginx_k8s_loadbalancer.Core.{ServerUpdateEvent}
use nginx_k8s_loadbalancer.Configuration.Settings.{Settings}
use nginx_k8s_loadbalancer.WorkQueue.{WorkQueue, CountsRequeues, item, Ref}
use nginx_k8s_loadbalancer.Synchronization.Worker.{with_retry}

-- The queue after n failures of the event x in a row, since a moment when it had none; between them
-- the workers take, finish, add and handle anything else, in any order.
pub data Failing (wq : WorkQueue (Ref ServerUpdateEvent)) (settings : Settings)
    (x : Ref ServerUpdateEvent) : ℕ → wq.Queue → Type 0 where
  fresh : (q : wq.Queue) → wq.num_requeues x q ≡ 0 → Failing wq settings x 0 q
  took :
      {n : ℕ} {q : wq.Queue} (y : Ref ServerUpdateEvent) (q' : wq.Queue)
      → wq.get q ≡ item y q'
      → Failing wq settings x n q
      → Failing wq settings x n q'
  did :
      {n : ℕ} {q : wq.Queue} (y : Ref ServerUpdateEvent)
      → Failing wq settings x n q
      → Failing wq settings x n (wq.done y q)
  delayed :
      {n : ℕ} {q : wq.Queue} (y : Ref ServerUpdateEvent) (ms : ℕ)
      → Failing wq settings x n q
      → Failing wq settings x n (wq.add_after y ms q)
  handled :
      {n : ℕ} {q : wq.Queue} (y : Ref ServerUpdateEvent) (e : Option Error)
      → y.address ≢ x.address
      → Failing wq settings x n q
      → Failing wq settings x n (with_retry wq settings e y q)
  failed :
      {n : ℕ} {q : wq.Queue} (e : Error)
      → Failing wq settings x n q
      → Failing wq settings x (suc n) (with_retry wq settings (some e) x q)

module _ (wq : WorkQueue (Ref ServerUpdateEvent)) (laws : CountsRequeues wq) (settings : Settings)
    (x : Ref ServerUpdateEvent) where
  num_requeues-with_retry_ne :
      (y : Ref ServerUpdateEvent) (e : Option Error) (q : wq.Queue)
      → y.address ≢ x.address
      → wq.num_requeues x (with_retry wq settings e y q) ≡ wq.num_requeues x q
  unfolding with_retry
  num_requeues-with_retry_ne y e q ne =
      ground (arith, laws.counted_ne y x q ne, laws.forgotten_ne y x q ne)

  num_requeues-with_retry :
      (e : Error) (q : wq.Queue)
      → wq.num_requeues x q < settings.synchronizer.retry_count
      → wq.num_requeues x (with_retry wq settings (some e) x q) ≡ suc (wq.num_requeues x q)
  unfolding with_retry
  num_requeues-with_retry e q h = ground (arith, laws.counted x q)

  num_requeues_Failing :
      {n : ℕ} {q : wq.Queue}
      → Failing wq settings x n q
      → n ≤ settings.synchronizer.retry_count
      → wq.num_requeues x q ≡ n
  num_requeues_Failing (fresh q h) k = h
  num_requeues_Failing (took {q} y q' h r) k = laws.taken y x q q' h ∙ num_requeues_Failing r k
  num_requeues_Failing (did {q} y r) k = laws.finished y x q ∙ num_requeues_Failing r k
  num_requeues_Failing (delayed {q} y ms r) k = laws.delayed y x ms q ∙ num_requeues_Failing r k
  num_requeues_Failing (handled {q} y e ne r) k =
      num_requeues-with_retry_ne y e q ne ∙ num_requeues_Failing r k
  num_requeues_Failing (failed {n} {q} e r) k =
      let before = num_requeues_Failing r (omega arith) in
      num_requeues-with_retry e q (omega arith) ∙ ap suc before

-- An event whose last n tries all failed, n at most the retry count, is queued again by the next
-- failure if n is below the retry count and dropped if it equals it, whatever the workers do with
-- other events in between: a failing event is tried exactly once more than the retry count.
pub with_retry-Failing :
    (wq : WorkQueue (Ref ServerUpdateEvent)) (laws : CountsRequeues wq) (settings : Settings)
    (x : Ref ServerUpdateEvent) (n : ℕ) (q : wq.Queue) (e : Error)
    → Failing wq settings x n q
    → n ≤ settings.synchronizer.retry_count
    → with_retry wq settings (some e) x q
      ≡ (if ltb n settings.synchronizer.retry_count then wq.add_rate_limited x q else wq.forget x q)
unfolding with_retry
with_retry-Failing wq laws settings x n q e r k =
    ground (arith, num_requeues_Failing wq laws settings x r k)
