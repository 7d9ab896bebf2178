-- ===== src/Tests/Queues.antt =====
-- A queue of pointers that counts requeues: it has all that is asked of a work queue.
use nginx_k8s_loadbalancer.Base.{
  ◌⊎◌, inl, inr, subst, sym, ℕ, suc, ◌≡◌, ap, refl, List, [], ◌∷◌, arith, nat_eq, if◌then◌else◌,
}
use nginx_k8s_loadbalancer.Base.Insertion.{Inserted, first}
use nginx_k8s_loadbalancer.WorkQueue.{
  HoldsOnlyAdded, HasBacklog, WorkQueue, CountsRequeues, Got, item, blocked, Ref,
}

-- The waiting items, and how often the item at each address was requeued.
pub record Waiting (A : Type 0) : Type 0 where
  pub items : List (Ref A)
  pub count : ℕ → ℕ

module _ {A : Type 0} where
  abbrev pub set_count : Ref A → ℕ → Waiting A → ℕ → ℕ
  set_count x n q a = if nat_eq x.address a then n else q.count a

  abbrev pub take_first : List (Ref A) → (ℕ → ℕ) → Got (Waiting A) (Ref A)
  take_first [] count = blocked
  take_first (x ∷ xs) count = item x (record { items = xs; count = count })

  abbrev pub sample_queue : WorkQueue (Ref A)
  sample_queue = record {
    Queue = Waiting A;
    get = λ q. take_first q.items q.count;
    done = λ x q. q;
    add_after = λ x ms q. record q { items = x ∷ q.items };
    add_rate_limited =
        λ x q. record { items = x ∷ q.items; count = set_count x (suc (q.count x.address)) q };
    forget = λ x q. record q { count = set_count x 0 q };
    num_requeues = λ x q. q.count x.address;
    shut_down = λ q. q;
    shut_down_with_drain = λ q. q;
  }

  keeps :
      (x : Ref A) (a : ℕ) (xs : List (Ref A)) (count : ℕ → ℕ) (q' : Waiting A)
      → take_first xs count ≡ item x q'
      → q'.count a ≡ count a
  keeps x a [] count q' h = cc
  keeps x a (z ∷ zs) count q' h = ground arith

  pub sample_queue-CountsRequeues : CountsRequeues sample_queue
  sample_queue-CountsRequeues = record {
    by_address = λ x y q same. ap q.count same;
    counted = λ x q. ground arith;
    counted_ne = λ x y q ne. ground arith;
    forgotten = λ x q. ground arith;
    forgotten_ne = λ x y q ne. ground arith;
    delayed = λ x y ms q. refl;
    finished = λ x y q. refl;
    taken = λ x y q q' h. keeps x y.address q.items q.count q' h;
  }

  -- The member of a list.
  abbrev pub IsIn : Ref A → List (Ref A) → Type 0
  IsIn y [] = ⊥
  IsIn y (x ∷ xs) = (y ≡ x) ⊎ IsIn y xs

  abbrev pub Took : Ref A → List (Ref A) → Waiting A → Type 0
  Took x xs q' = IsIn x xs × ((y : Ref A) → IsIn y q'.items → IsIn y xs)

  pub took :
      (x : Ref A) (xs : List (Ref A)) (count : ℕ → ℕ) (q' : Waiting A)
      → take_first xs count ≡ item x q'
      → Took x xs q'
  took x [] count q' h = absurd (ground arith)
  took x (z ∷ zs) count q' h =
      let first : x ≡ z = cc in
      let rest : record { items = zs; count = count } ≡ q' = cc in
      (inl first, λ y h. inr (subst (λ (q : Waiting A). IsIn y q.items) (sym rest) h))

  abbrev pub sample_holding : HoldsOnlyAdded sample_queue
  sample_holding = record {
    Holds = λ q y. IsIn y q.items;
    given = λ x q q' h. took x q.items q.count q' h;
    after_done = λ x y q h. h;
    after_forget = λ x y q h. h;
    after_add_rate_limited = λ x y q h. h;
    after_add_after = λ x y ms q h. h;
    after_shut_down = λ y q h. h;
  }

  pub took_first :
      (x : Ref A) (xs : List (Ref A)) (count : ℕ → ℕ) (q' : Waiting A)
      → take_first xs count ≡ item x q'
      → Inserted x q'.items xs
  took_first x [] count q' h = absurd (ground arith)
  took_first x (z ∷ zs) count q' h =
      let first_is : z ≡ x = cc in
      let rest : record { items = zs; count = count } ≡ q' = cc in
      subst (λ (q : Waiting A). Inserted x q.items (z ∷ zs)) rest
        (subst (λ y. Inserted y zs (z ∷ zs)) first_is (first zs))

  pub took_none : (xs : List (Ref A)) (count : ℕ → ℕ) → take_first xs count ≡ blocked → xs ≡ []
  took_none [] count h = refl
  took_none (z ∷ zs) count h = absurd (ground arith)

  abbrev pub sample_backlog : HasBacklog sample_queue
  sample_backlog = record {
    backlog = λ q. q.items;
    given = λ x q q' h. took_first x q.items q.count q' h;
    at_rest = λ q h. took_none q.items q.count h;
    after_done = λ x q. refl;
    after_forget = λ x q. refl;
    after_add_rate_limited = λ x q. inl (first q.items);
  }
