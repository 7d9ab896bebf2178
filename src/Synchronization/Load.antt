-- ===== src/Synchronization/Load.antt =====
-- What several workers of the synchronizer have before them: the events that their queue has to give, and
-- those that they have in work.
use nginx_k8s_loadbalancer.Base.{
  ℕ, ◌+◌, ◌*◌, ◌<◌, ◌≡◌, sym, subst, ◌∙◌, Bool-cases, Option, none, some, List, ◌∷◌, ◌++◌, inl, inr,
  arith, length, ltb,
}
use nginx_k8s_loadbalancer.Result.{Error}
use nginx_k8s_loadbalancer.Core.{ServerUpdateEvent}
use nginx_k8s_loadbalancer.Configuration.Settings.{Settings}
use nginx_k8s_loadbalancer.Base.Insertion.{Inserted, first}
use nginx_k8s_loadbalancer.WorkQueue.{WorkQueue, CountsRequeues, HasBacklog, item, Ref}
use nginx_k8s_loadbalancer.Base.Insertion.Arranged.{length-Inserted}
use nginx_k8s_loadbalancer.WorkQueue.Laws.{
  num_requeues-add_rate_limited, Inserted-append_left, Inserted-append_right,
}
use nginx_k8s_loadbalancer.Synchronization.Worker.{with_retry}
use nginx_k8s_loadbalancer.Synchronization.Drain.{
  owing, owing_dropped, owing_again, tries_left_mono, tries_left-Inserted,
}

module _ (wq : WorkQueue (Ref ServerUpdateEvent)) (laws : CountsRequeues wq)
    (backlogs : HasBacklog wq) (settings : Settings) where
  -- Twice the turns that all of them may take, and one for each that is still to be taken.
  abbrev pub load : wq.Queue → List (Ref ServerUpdateEvent) → ℕ
  load q in_work =
      2
        * owing settings.synchronizer.retry_count (λ y. wq.num_requeues y q)
            (backlogs.backlog q ++ in_work)
      + length (backlogs.backlog q)

  module _ (x : Ref ServerUpdateEvent) where
    -- Taking an event lowers the load.
    pub load_taken :
        (q q' : wq.Queue) (in_work : List (Ref ServerUpdateEvent))
        → wq.get q ≡ item x q'
        → load q' (x ∷ in_work) < load q in_work
    load_taken q q' in_work got =
        let retries = settings.synchronizer.retry_count in
        let given = backlogs.given x q q' got in
        let before = Inserted-append_right in_work given in
        let one_more : Inserted x in_work (x ∷ in_work) = first in_work in
        let after = Inserted-append_left (backlogs.backlog q') one_more in
        let fewer = length-Inserted given in
        let length_before = length-Inserted before in
        let length_after = length-Inserted after in
        let tries_before = tries_left-Inserted retries (λ y. wq.num_requeues y q') x _ _ before in
        let tries_after = tries_left-Inserted retries (λ y. wq.num_requeues y q') x _ _ after in
        let counts =
          tries_left_mono retries (λ y. wq.num_requeues y q') (λ y. wq.num_requeues y q)
            (backlogs.backlog q ++ in_work)
            (λ y. let same = laws.taken x y q q' got in omega arith) in
        rw (length_after, length_before) (omega arith)

    module _ (q : wq.Queue) (left in_work : List (Ref ServerUpdateEvent))
        (one : Inserted x left in_work) where
      load_dropped :
          (q' : wq.Queue) → backlogs.backlog q' ≡ backlogs.backlog q → load q' left < load q in_work
      load_dropped q' same =
          let fewer =
            owing_dropped settings.synchronizer.retry_count (λ y. wq.num_requeues y q')
              (λ y. wq.num_requeues y q) x (backlogs.backlog q ++ left)
              (backlogs.backlog q ++ in_work) (Inserted-append_left (backlogs.backlog q) one) in
          rw same (omega arith)

      load_again :
          wq.num_requeues x q < settings.synchronizer.retry_count
          → load (wq.done x (wq.add_rate_limited x q)) left < load q in_work
      load_again below = elim (backlogs.after_add_rate_limited x q) [
        | inr there ↦ load_dropped _ (backlogs.after_done x _ ∙ there)
        | inl added ↦
            let again = wq.done x (wq.add_rate_limited x q) in
            let here : Inserted x (backlogs.backlog q) (backlogs.backlog again) =
              subst (λ xs. Inserted x (backlogs.backlog q) xs) (sym (backlogs.after_done x _))
                added in
            let longer = length-Inserted here in
            let less =
              owing_again settings.synchronizer.retry_count (λ y. wq.num_requeues y again)
                (λ y. wq.num_requeues y q) x (backlogs.backlog q ++ left)
                (backlogs.backlog q ++ in_work) (backlogs.backlog again ++ left)
                (Inserted-append_left (backlogs.backlog q) one) (Inserted-append_right left here)
                (λ y.
                  let grown = num_requeues-add_rate_limited wq laws x y q in
                  let finished = laws.finished x y (wq.add_rate_limited x q) in omega arith)
                (let counted = laws.counted x q in
                  let finished = laws.finished x x (wq.add_rate_limited x q) in omega arith)
                below in
            omega arith
      ]

      -- Settling an event lowers the load.
      pub load_settled :
          (e : Option Error) → load (wq.done x (with_retry wq settings e x q)) left < load q in_work
      unfolding with_retry
      load_settled none = load_dropped _ (backlogs.after_done x _ ∙ backlogs.after_forget x q)
      load_settled (some e) =
          elim (Bool-cases (ltb (wq.num_requeues x q) settings.synchronizer.retry_count)) [
            | inl again ↦ rw again (load_again (ground (arith, again)))
            | inr over ↦
                rw over (load_dropped _ (backlogs.after_done x _ ∙ backlogs.after_forget x q))
          ]
