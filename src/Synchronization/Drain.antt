-- ===== src/Synchronization/Drain.antt =====
-- The worker's loop ends: what a queue without new work owes its workers, and how many turns pay it.
use nginx_k8s_loadbalancer.Base.{
  ℕ, zero, suc, ◌+◌, ◌-◌, ◌*◌, ◌≤◌, ◌<◌, ◌≡◌, refl, sym, ◌∙◌, subst, Bool-cases, Option, none, some,
  List, [], ◌∷◌, inl, inr, ◌⊎◌, arith, length, ltb,
}
use nginx_k8s_loadbalancer.Result.{Error}
use nginx_k8s_loadbalancer.Core.{ServerUpdateEvent}
use nginx_k8s_loadbalancer.Certification.{Certificates}
use nginx_k8s_loadbalancer.Configuration.Settings.{Settings}
use nginx_k8s_loadbalancer.Authentication.{Crypto, TlsConfig}
use nginx_k8s_loadbalancer.Base.Insertion.{Inserted, first, later}
use nginx_k8s_loadbalancer.WorkQueue.{
  WorkQueue, CountsRequeues, HoldsOnlyAdded, HasBacklog, item, Got-cases, Ref,
}
use nginx_k8s_loadbalancer.Base.Insertion.Arranged.{length-Inserted}
use nginx_k8s_loadbalancer.WorkQueue.Laws.{num_requeues-add_rate_limited}
use nginx_k8s_loadbalancer.Synchronization.World.{World, NginxPlus}
use nginx_k8s_loadbalancer.Synchronization.Worker.{
  with_retry, handle_next_event, worker, waits, stopped,
}
use nginx_k8s_loadbalancer.Synchronization.Survival.{
  IsSafe, handle_next_event_settles, settled-IsSafe,
}

-- The turns that n items may take between them: each of the others may be tried anew, from no count
-- on, after the first is done with.
abbrev pub turns_for : ℕ → ℕ → ℕ
turns_for retries zero = 0
turns_for retries (suc n) = let rest = turns_for retries n in rest + n * retries + 1

module _ {A : Type 0} where
  -- The tries that are left of each item, if it fails each time.
  abbrev pub tries_left : ℕ → (Ref A → ℕ) → List (Ref A) → ℕ
  tries_left retries count [] = 0
  tries_left retries count (x ∷ xs) = (retries - count x) + tries_left retries count xs

  tries_left_le :
      (retries : ℕ) (count : Ref A → ℕ) (xs : List (Ref A))
      → tries_left retries count xs ≤ length xs * retries
  tries_left_le retries count [] = omega arith
  tries_left_le retries count (x ∷ xs) = let rest = tries_left_le retries count xs in omega arith

  pub tries_left_mono :
      (retries : ℕ) (count fewer : Ref A → ℕ) (xs : List (Ref A))
      → ((x : Ref A) → fewer x ≤ count x)
      → tries_left retries count xs ≤ tries_left retries fewer xs
  tries_left_mono retries count fewer [] less = omega arith
  tries_left_mono retries count fewer (x ∷ xs) less =
      let rest = tries_left_mono retries count fewer xs less in let here = less x in omega arith

  pub tries_left-Inserted :
      (retries : ℕ) (count : Ref A → ℕ) (x : Ref A) (xs ys : List (Ref A))
      → Inserted x xs ys
      → tries_left retries count ys ≡ (retries - count x) + tries_left retries count xs
  tries_left-Inserted retries count x xs ys (first zs) = refl
  tries_left-Inserted retries count x xs ys (later y ins) =
      let rest = tries_left-Inserted retries count x _ _ ins in omega arith

  -- All turns that these items may take.
  abbrev pub owing : ℕ → (Ref A → ℕ) → List (Ref A) → ℕ
  owing retries count xs = turns_for retries (length xs) + tries_left retries count xs

  -- With one item fewer, fewer turns are owing, whatever the counts.
  pub owing_dropped :
      (retries : ℕ) (count before : Ref A → ℕ) (x : Ref A) (xs ys : List (Ref A))
      → Inserted x xs ys
      → owing retries count xs < owing retries before ys
  owing_dropped retries count before x xs ys gave =
      let bound = tries_left_le retries count xs in rw (length-Inserted gave) (omega arith)

  -- An item that is there again with a higher count owes one try less.
  pub owing_again :
      (retries : ℕ) (count before : Ref A → ℕ) (x : Ref A) (xs ys zs : List (Ref A))
      → Inserted x xs ys
      → Inserted x xs zs
      → ((y : Ref A) → before y ≤ count y)
      → before x < count x
      → before x < retries
      → owing retries count zs < owing retries before ys
  owing_again retries count before x xs ys zs gave added more higher below =
      let rest = tries_left_mono retries count before xs more in
      let left = tries_left-Inserted retries before x xs ys gave in
      let left_now = tries_left-Inserted retries count x xs zs added in
      rw (length-Inserted gave, length-Inserted added) (omega arith)

module _ (wq : WorkQueue (Ref ServerUpdateEvent)) (laws : CountsRequeues wq)
    (backlogs : HasBacklog wq) (settings : Settings) where
  -- The turns that a queue may still ask for.
  abbrev pub owes : wq.Queue → ℕ
  owes q = owing settings.synchronizer.retry_count (λ y. wq.num_requeues y q) (backlogs.backlog q)

  module _ (x : Ref ServerUpdateEvent) (q q0 : wq.Queue) (got : wq.get q0 ≡ item x q) where
    owes_dropped : (q' : wq.Queue) → backlogs.backlog q' ≡ backlogs.backlog q → owes q' < owes q0
    owes_dropped q' same =
        owing_dropped settings.synchronizer.retry_count _ _ x _ _
          (subst (λ xs. Inserted x xs (backlogs.backlog q0)) (sym same) (backlogs.given x q0 q got))

    owes_again :
        wq.num_requeues x q < settings.synchronizer.retry_count
        → owes (wq.done x (wq.add_rate_limited x q)) < owes q0
    owes_again below = elim (backlogs.after_add_rate_limited x q) [
      | inr there ↦ owes_dropped _ (backlogs.after_done x _ ∙ there)
      | inl added ↦
          owing_again settings.synchronizer.retry_count
            (λ y. wq.num_requeues y (wq.done x (wq.add_rate_limited x q)))
            (λ y. wq.num_requeues y q0) x (backlogs.backlog q) (backlogs.backlog q0)
            (backlogs.backlog (wq.done x (wq.add_rate_limited x q))) (backlogs.given x q0 q got)
            (subst (λ xs. Inserted x (backlogs.backlog q) xs) (sym (backlogs.after_done x _)) added)
            (λ y.
              let grown = num_requeues-add_rate_limited wq laws x y q in
              let finished = laws.finished x y (wq.add_rate_limited x q) in
              let taken = laws.taken x y q0 q got in omega arith)
            (let counted = laws.counted x q in
              let finished = laws.finished x x (wq.add_rate_limited x q) in
              let taken = laws.taken x x q0 q got in omega arith)
            (let taken = laws.taken x x q0 q got in omega arith)
    ]

    -- A settled event leaves less to do.
    owes_settled : (e : Option Error) → owes (wq.done x (with_retry wq settings e x q)) < owes q0
    unfolding with_retry
    owes_settled none = owes_dropped _ (backlogs.after_done x _ ∙ backlogs.after_forget x q)
    owes_settled (some e) =
        elim (Bool-cases (ltb (wq.num_requeues x q) settings.synchronizer.retry_count)) [
          | inl again ↦ rw again (owes_again (ground (arith, again)))
          | inr over ↦
              rw over (owes_dropped _ (backlogs.after_done x _ ∙ backlogs.after_forget x q))
        ]

-- A worker's loop ends, whatever NGINX Plus answers, when nothing new is queued: once the certificates
-- are made, and while every deletion on the queue names a server, a worker that may take more turns
-- than the queue owes either stops at a shutdown, or comes to wait with nothing left on its queue to
-- give.
pub worker-Drains :
    {Cert KeyPair W : Type 0} (crypto : Crypto Cert KeyPair)
    (plus : NginxPlus (TlsConfig Cert KeyPair) W) (wq : WorkQueue (Ref ServerUpdateEvent))
    (laws : CountsRequeues wq) (backlogs : HasBacklog wq) (holds : HoldsOnlyAdded wq)
    (settings : Settings) (c : Certificates) (fuel : ℕ)
    (w : World wq.Queue (TlsConfig Cert KeyPair) W)
    → settings.certificates ≡ some c
    → IsSafe wq holds w.queue
    → owes wq laws backlogs settings w.queue < fuel
    → (w' : World wq.Queue (TlsConfig Cert KeyPair) W) × (((worker crypto plus wq settings fuel w
            ≡ waits w')
          × (backlogs.backlog w'.queue ≡ []))
        ⊎ (worker crypto plus wq settings fuel w ≡ stopped w'))
unfolding worker handle_next_event
worker-Drains crypto plus wq laws backlogs holds settings c zero w made safe enough =
    absurd (omega arith)
worker-Drains crypto plus wq laws backlogs holds settings c (suc fuel) w made safe enough =
    elim (Got-cases (wq.get w.queue)) [
      | inl (x, q, got) ↦
          let (held, less) = holds.given x w.queue q got in
          let (e, w1, turned, settled) =
            handle_next_event_settles crypto plus wq holds settings c made x q w got
              (safe x held) in
          let left = owes_settled wq laws backlogs settings x q w.queue got e in
          let safe1 = settled-IsSafe crypto plus wq holds settings c made x q e w got safe in
          rw turned (
            worker-Drains crypto plus wq laws backlogs holds settings c fuel w1 made
              (subst (IsSafe wq holds) (sym settled) safe1) (rw settled (omega arith)))
      | inr (inl ended) ↦ (w, inr (rw ended refl))
      | inr (inr nothing) ↦ (w, inl (rw nothing refl, backlogs.at_rest w.queue nothing))
    ]
