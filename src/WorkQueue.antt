-- ===== src/WorkQueue.antt =====
-- client-go's workqueue.RateLimitingInterface, which is not part of the repository: its operations
-- as a record of functions over an abstract state, and what its documentation promises of the count
-- of requeues, by the ItemExponentialFailureRateLimiter that the program builds its queues with.
-- An item is a pointer, and the queue tells items apart by their address.
pub mod Laws
use nginx_k8s_loadbalancer.Base.Insertion.{Inserted}
use nginx_k8s_loadbalancer.Base.{ℕ, suc, ◌≡◌, ◌≢◌, refl, ◌⊎◌, inl, inr, List, [], ◌∷◌}

-- What Get returns: an item, the end after a shutdown, or nothing yet, when it blocks.
pub data Got (Queue Item : Type 0) : Type 0 where
  item : Item → Queue → Got Queue Item
  quit : Got Queue Item
  blocked : Got Queue Item

pub record WorkQueue (Item : Type 0) : Type 1 where
  pub Queue : Type 0
  pub get : Queue → Got Queue Item
  pub done : Item → Queue → Queue
  -- a delay in milliseconds
  pub add_after : Item → ℕ → Queue → Queue
  pub add_rate_limited : Item → Queue → Queue
  pub forget : Item → Queue → Queue
  pub num_requeues : Item → Queue → ℕ
  pub shut_down : Queue → Queue
  pub shut_down_with_drain : Queue → Queue

-- A pointer to a value: two pointers are the same pointer only if their addresses are.
pub record Ref (A : Type 0) : Type 0 where
  pub address : ℕ
  pub value : A

-- "NumRequeues returns back how many times the item was requeued": AddRateLimited counts, Forget
-- clears, and nothing else does either.
pub record CountsRequeues {A : Type 0} (wq : WorkQueue (Ref A)) : Type 0 where
  pub by_address :
      (x y : Ref A) (q : wq.Queue)
      → x.address ≡ y.address
      → wq.num_requeues x q ≡ wq.num_requeues y q
  pub counted :
      (x : Ref A) (q : wq.Queue)
      → wq.num_requeues x (wq.add_rate_limited x q) ≡ suc (wq.num_requeues x q)
  pub counted_ne :
      (x y : Ref A) (q : wq.Queue)
      → x.address ≢ y.address
      → wq.num_requeues y (wq.add_rate_limited x q) ≡ wq.num_requeues y q
  pub forgotten : (x : Ref A) (q : wq.Queue) → wq.num_requeues x (wq.forget x q) ≡ 0
  pub forgotten_ne :
      (x y : Ref A) (q : wq.Queue)
      → x.address ≢ y.address
      → wq.num_requeues y (wq.forget x q) ≡ wq.num_requeues y q
  pub delayed :
      (x y : Ref A) (ms : ℕ) (q : wq.Queue)
      → wq.num_requeues y (wq.add_after x ms q) ≡ wq.num_requeues y q
  pub finished :
      (x y : Ref A) (q : wq.Queue) → wq.num_requeues y (wq.done x q) ≡ wq.num_requeues y q
  pub taken :
      (x y : Ref A) (q q' : wq.Queue)
      → wq.get q ≡ item x q'
      → wq.num_requeues y q' ≡ wq.num_requeues y q

-- A queue holds only what was added to it: an item that waits, is delayed, or is being processed and
-- was added again.
pub record HoldsOnlyAdded {A : Type 0} (wq : WorkQueue (Ref A)) : Type 1 where
  pub Holds : wq.Queue → Ref A → Type 0
  pub given :
      (x : Ref A) (q q' : wq.Queue)
      → wq.get q ≡ item x q'
      → Holds q x × ((y : Ref A) → Holds q' y → Holds q y)
  pub after_done : (x y : Ref A) (q : wq.Queue) → Holds (wq.done x q) y → Holds q y
  pub after_forget : (x y : Ref A) (q : wq.Queue) → Holds (wq.forget x q) y → Holds q y
  pub after_add_rate_limited :
      (x y : Ref A) (q : wq.Queue) → Holds (wq.add_rate_limited x q) y → (y ≡ x) ⊎ Holds q y
  pub after_add_after :
      (x y : Ref A) (ms : ℕ) (q : wq.Queue) → Holds (wq.add_after x ms q) y → (y ≡ x) ⊎ Holds q y
  pub after_shut_down : (y : Ref A) (q : wq.Queue) → Holds (wq.shut_down q) y → Holds q y

-- The items that a queue still has to give, delayed ones included. Get gives one of them, and
-- "blocks until it can return an item to be processed": for ever only where there is none.
-- AddRateLimited adds the item, unless it is already there to be given.
pub record HasBacklog {A : Type 0} (wq : WorkQueue (Ref A)) : Type 0 where
  pub backlog : wq.Queue → List (Ref A)
  pub given :
      (x : Ref A) (q q' : wq.Queue) → wq.get q ≡ item x q' → Inserted x (backlog q') (backlog q)
  pub at_rest : (q : wq.Queue) → wq.get q ≡ blocked → backlog q ≡ []
  pub after_done : (x : Ref A) (q : wq.Queue) → backlog (wq.done x q) ≡ backlog q
  pub after_forget : (x : Ref A) (q : wq.Queue) → backlog (wq.forget x q) ≡ backlog q
  pub after_add_rate_limited :
      (x : Ref A) (q : wq.Queue)
      → Inserted x (backlog q) (backlog (wq.add_rate_limited x q))
        ⊎ (backlog (wq.add_rate_limited x q) ≡ backlog q)

pub Got-cases :
    {Q A : Type 0} (g : Got Q A)
    → ((x : A) × (q : Q) × (g ≡ item x q)) ⊎ ((g ≡ quit) ⊎ (g ≡ blocked))
Got-cases (item x q) = inl (x, q, refl)
Got-cases quit = inr (inl refl)
Got-cases blocked = inr (inr refl)
