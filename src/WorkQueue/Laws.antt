-- ===== src/WorkQueue/Laws.antt =====
-- What follows from the laws of a work queue: of its counts, and of the lists that it holds.
use nginx_k8s_loadbalancer.Base.Insertion.{Inserted, first, later}
use nginx_k8s_loadbalancer.Base.{◌≤◌, ◌≡◌, List, [], ◌∷◌, ◌++◌, inl, inr, arith, nat_eq, Bool-cases}
use nginx_k8s_loadbalancer.WorkQueue.{WorkQueue, CountsRequeues, Ref}

module _ {A : Type 0} where
  -- Queueing an item again lowers no count.
  pub num_requeues-add_rate_limited :
      (wq : WorkQueue (Ref A)) (laws : CountsRequeues wq) (x y : Ref A) (q : wq.Queue)
      → wq.num_requeues y q ≤ wq.num_requeues y (wq.add_rate_limited x q)
  num_requeues-add_rate_limited wq laws x y q = elim (Bool-cases (nat_eq x.address y.address)) [
    | inl same ↦
        let here : x.address ≡ y.address = ground arith in
        let before = laws.by_address x y q here in
        let after = laws.by_address x y (wq.add_rate_limited x q) here in
        let more = laws.counted x q in omega arith
    | inr other ↦ let kept = laws.counted_ne x y q (ground arith) in omega arith
  ]

  -- One more item in a part of a list is one more in the whole.
  pub Inserted-append_left :
      {x : A} (front : List A) {xs ys : List A}
      → Inserted x xs ys
      → Inserted x (front ++ xs) (front ++ ys)
  Inserted-append_left [] inserted = inserted
  Inserted-append_left (y ∷ front) inserted = later y (Inserted-append_left front inserted)

  pub Inserted-append_right :
      {x : A} {xs ys : List A} (back : List A)
      → Inserted x xs ys
      → Inserted x (xs ++ back) (ys ++ back)
  Inserted-append_right back (first xs) = first (xs ++ back)
  Inserted-append_right back (later y inserted) = later y (Inserted-append_right back inserted)
