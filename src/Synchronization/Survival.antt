-- ===== src/Synchronization/Survival.antt =====
-- The worker's loop goes on whatever happens: no event that its queue holds can stop it.
use nginx_k8s_loadbalancer.Base.{
  ℕ, zero, suc, String, ◌≡◌, ◌≢◌, refl, sym, ap, ◌∙◌, subst, Bool, true, false, Option, none, some,
  [], inl, inr, ◌⊎◌, Bool-cases, ltb, if◌then◌else◌,
}
use nginx_k8s_loadbalancer.Result.{Error, Result, ok, err, panic}
use nginx_k8s_loadbalancer.Exec.Rules.{NoPanic}
use nginx_k8s_loadbalancer.Core.{deleted, ServerUpdateEvent}
use nginx_k8s_loadbalancer.Certification.{Certificates}
use nginx_k8s_loadbalancer.Configuration.Settings.{Settings}
use nginx_k8s_loadbalancer.Authentication.{Crypto, TlsConfig}
use nginx_k8s_loadbalancer.WorkQueue.{WorkQueue, HoldsOnlyAdded, item, Got-cases, Ref}
use nginx_k8s_loadbalancer.Synchronization.World.{World, NginxPlus}
use nginx_k8s_loadbalancer.Synchronization.Delivery.{handle_event}
use nginx_k8s_loadbalancer.Synchronization.Delivery.Safety.{handle_event-NoPanic}
use nginx_k8s_loadbalancer.Synchronization.Delivery.Frame.{handle_event_frame}
use nginx_k8s_loadbalancer.Synchronization.Worker.{
  returned, waiting, crashed, conclude, process, handle_next_event, worker, with_retry,
}

-- Every deletion on the queue names a server.
abbrev pub IsSafe : (wq : WorkQueue (Ref ServerUpdateEvent)) → HoldsOnlyAdded wq → wq.Queue → Type 0
IsSafe wq holds q =
    (r : Ref ServerUpdateEvent)
    → holds.Holds q r
    → r.value.event_type ≡ deleted
    → r.value.upstream_servers ≢ []

module _ (wq : WorkQueue (Ref ServerUpdateEvent)) (holds : HoldsOnlyAdded wq) (settings : Settings)
    (x r : Ref ServerUpdateEvent) (q : wq.Queue) where
  Holds-with_retry :
      (e : Option Error) → holds.Holds (with_retry wq settings e x q) r → (r ≡ x) ⊎ holds.Holds q r
  unfolding with_retry
  Holds-with_retry none h = inr (holds.after_forget x r q h)
  Holds-with_retry (some e) h =
      elim (Bool-cases (ltb (wq.num_requeues x q) settings.synchronizer.retry_count)) [
        | inl again ↦ holds.after_add_rate_limited x r q (
            subst (λ b. holds.Holds (if b then wq.add_rate_limited x q else wq.forget x q) r) again
              h)
        | inr over ↦ inr (
            holds.after_forget x r q (
              subst (λ b. holds.Holds (if b then wq.add_rate_limited x q else wq.forget x q) r) over
                h))
      ]

  -- A settled event may be held again; nothing else is new.
  pub Holds-settled :
      (e : Option Error)
      → holds.Holds (wq.done x (with_retry wq settings e x q)) r
      → (r ≡ x) ⊎ holds.Holds q r
  Holds-settled e h = Holds-with_retry e (holds.after_done x r _ h)

module _ {Cert KeyPair W : Type 0} (crypto : Crypto Cert KeyPair)
    (plus : NginxPlus (TlsConfig Cert KeyPair) W) (wq : WorkQueue (Ref ServerUpdateEvent))
    (holds : HoldsOnlyAdded wq) (settings : Settings) (c : Certificates)
    (made : settings.certificates ≡ some c) where
  conclude-NoPanic :
      (x : Ref ServerUpdateEvent) (r : Result (Unit {0}))
      (w : World wq.Queue (TlsConfig Cert KeyPair) W)
      → NoPanic r
      → (e : Option Error) × (w' : World wq.Queue (TlsConfig Cert KeyPair) W) × (conclude crypto
            plus wq settings x
            (r, w)
          ≡ returned true w')
        × (w'.queue ≡ wq.done x (with_retry wq settings e x w.queue))
  conclude-NoPanic x (ok u) w fine = (none, _, refl, refl)
  conclude-NoPanic x (err e) w fine = (some e, _, refl, refl)
  conclude-NoPanic x (panic p) w fine = absurd fine

  -- The processing of an event that names its servers ends with no panic, and settles the event: it
  -- is retried or forgotten, and done.
  pub process_settles :
      (x : Ref ServerUpdateEvent) (w : World wq.Queue (TlsConfig Cert KeyPair) W)
      → (x.value.event_type ≡ deleted → x.value.upstream_servers ≢ [])
      → (e : Option Error) × (w' : World wq.Queue (TlsConfig Cert KeyPair) W) × (process crypto plus
            wq settings x w
          ≡ returned true w')
        × (w'.queue ≡ wq.done x (with_retry wq settings e x w.queue))
  unfolding process
  process_settles x w named =
      let out = handle_event crypto plus settings x.value w in
      let frame : out.1.queue ≡ w.queue =
        ap (λ (k : wq.Queue × ℕ). k.0) (handle_event_frame crypto plus settings x.value w) in
      let (e, w', turned, settled) =
        conclude-NoPanic x out.0 out.1
          (handle_event-NoPanic crypto plus settings c x.value w made named) in
      (e, w', turned, settled ∙ ap (λ q'. wq.done x (with_retry wq settings e x q')) frame)

  -- So does a turn that is given such an event.
  pub handle_next_event_settles :
      (x : Ref ServerUpdateEvent) (q : wq.Queue) (w : World wq.Queue (TlsConfig Cert KeyPair) W)
      → wq.get w.queue ≡ item x q
      → (x.value.event_type ≡ deleted → x.value.upstream_servers ≢ [])
      → (e : Option Error) × (w' : World wq.Queue (TlsConfig Cert KeyPair) W) × (handle_next_event
            crypto plus wq settings w
          ≡ returned true w')
        × (w'.queue ≡ wq.done x (with_retry wq settings e x q))
  unfolding handle_next_event
  handle_next_event_settles x q w got named =
      let (e, w', turned, settled) = process_settles x (record w { queue = q }) named in
      (e, w', rw got turned, settled)

  -- So it leaves a safe queue.
  pub settled-IsSafe :
      (x : Ref ServerUpdateEvent) (q : wq.Queue) (e : Option Error)
      (w : World wq.Queue (TlsConfig Cert KeyPair) W)
      → wq.get w.queue ≡ item x q
      → IsSafe wq holds w.queue
      → IsSafe wq holds (wq.done x (with_retry wq settings e x q))
  settled-IsSafe x q e w got safe r still =
      let (held, less) = holds.given x w.queue q got in
      elim (Holds-settled wq holds settings x r q e still) [
        | inl same ↦
            subst
              (λ (s : Ref ServerUpdateEvent).
                s.value.event_type ≡ deleted → s.value.upstream_servers ≢ [])
              (sym same) (safe x held)
        | inr before ↦ safe r (less r before)
      ]

  -- A turn that does not wait leaves a safe queue, and is no panic.
  turn-IsSafe :
      (w : World wq.Queue (TlsConfig Cert KeyPair) W)
      → IsSafe wq holds w.queue
      → ((more : Bool) × (w' : World wq.Queue (TlsConfig Cert KeyPair) W) × (handle_next_event
              crypto plus wq settings w
            ≡ returned more w')
          × IsSafe wq holds w'.queue)
        ⊎ (handle_next_event crypto plus wq settings w ≡ waiting)
  unfolding handle_next_event
  turn-IsSafe w safe = elim (Got-cases (wq.get w.queue)) [
    | inl (x, q, got) ↦
        let (held, less) = holds.given x w.queue q got in
        let (e, w', turned, settled) = handle_next_event_settles x q w got (safe x held) in
        inl (
          true,
          w',
          turned,
          subst (IsSafe wq holds) (sym settled) (settled-IsSafe x q e w got safe),
        )
    | inr (inl ended) ↦ inl (false, w, rw ended refl, safe)
    | inr (inr nothing) ↦ inr (rw nothing refl)
  ]

  worker-ne-crashed_lem :
      (fuel : ℕ) (w w' : World wq.Queue (TlsConfig Cert KeyPair) W) (p : String)
      → IsSafe wq holds w.queue
      → worker crypto plus wq settings fuel w ≢ crashed p w'
  unfolding worker
  worker-ne-crashed_lem zero w w' p safe = λ e. cc
  worker-ne-crashed_lem (suc fuel) w w' p safe = elim (turn-IsSafe w safe) [
    | inr nothing ↦ rw nothing (λ e. cc)
    | inl (true, w1, turned, safe1) ↦ rw turned (worker-ne-crashed_lem fuel w1 w' p safe1)
    | inl (false, w1, turned, safe1) ↦ rw turned (λ e. cc)
  ]

-- A worker of the synchronizer never crashes, for however many rounds it runs and whatever NGINX Plus
-- answers, once the certificates are made and while every deletion that its queue holds names a
-- server: it goes on, waits for the next event, or stops at a shutdown.
pub worker-ne-crashed :
    {Cert KeyPair W : Type 0} (crypto : Crypto Cert KeyPair)
    (plus : NginxPlus (TlsConfig Cert KeyPair) W) (wq : WorkQueue (Ref ServerUpdateEvent))
    (holds : HoldsOnlyAdded wq) (settings : Settings) (c : Certificates) (fuel : ℕ)
    (w w' : World wq.Queue (TlsConfig Cert KeyPair) W) (p : String)
    → settings.certificates ≡ some c
    → IsSafe wq holds w.queue
    → worker crypto plus wq settings fuel w ≢ crashed p w'
worker-ne-crashed crypto plus wq holds settings c fuel w w' p made safe =
    worker-ne-crashed_lem crypto plus wq holds settings c made fuel w w' p safe
