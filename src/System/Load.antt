-- ===== src/System/Load.antt =====
-- What all workers together have before them, and that each of their turns lowers it.
use nginx_k8s_loadbalancer.Base.{
  ℕ, ◌+◌, ◌*◌, ◌<◌, String, ◌≡◌, refl, sym, ap, subst, some, List, ◌⊎◌, inl, inr, arith, length,
}
use nginx_k8s_loadbalancer.Core.{Event, ServerUpdateEvent}
use nginx_k8s_loadbalancer.Authentication.{Crypto, TlsConfig}
use nginx_k8s_loadbalancer.WorkQueue.{
  WorkQueue, CountsRequeues, HoldsOnlyAdded, HasBacklog, item, Ref,
}
use nginx_k8s_loadbalancer.Base.Insertion.Arranged.{length-Inserted}
use nginx_k8s_loadbalancer.Synchronization.World.{NginxPlus}
use nginx_k8s_loadbalancer.Synchronization.Load.{load, load_taken, load_settled}
use nginx_k8s_loadbalancer.Synchronization.Survival.{process_settles}
use nginx_k8s_loadbalancer.Observation.Handler
use nginx_k8s_loadbalancer.Observation.Handler.Handover.{handle_event-Translates}
use nginx_k8s_loadbalancer.Pipeline.{synchronizer, synchronizer-AcceptsAll}
use nginx_k8s_loadbalancer.System.{
  event_taken, change_taken, event_handled, change_sent, State, step, take_at,
}
use nginx_k8s_loadbalancer.System.Invariant.{
  Stems, Stems-NamesServers, IsSound, AllHave-left, take_at-Inserted,
}

module _ {Cert KeyPair W : Type 0} (crypto : Crypto Cert KeyPair)
    (plus : NginxPlus (TlsConfig Cert KeyPair) W) (events : WorkQueue (Ref Event))
    (wq : WorkQueue (Ref ServerUpdateEvent)) (laws : CountsRequeues wq)
    (pending : HasBacklog events) (backlogs : HasBacklog wq) where
  -- Two turns for each Event that waits, one for each in work.
  abbrev pub event_load : State crypto plus events wq → ℕ
  event_load s = 2 * length (pending.backlog s.watcher.handler.event_queue) + length s.handling

  abbrev pub change_load : State crypto plus events wq → ℕ
  change_load s =
      load wq laws backlogs s.process.settings s.watcher.handler.synchronizer.queue s.sending

  -- The Events come first, since each may add changes.
  abbrev pub Lower : State crypto plus events wq → State crypto plus events wq → Type 0
  Lower s' s =
      (event_load s' < event_load s)
      ⊎ ((event_load s' ≡ event_load s) × (change_load s' < change_load s))

  module _ (held : HoldsOnlyAdded events) (holds : HoldsOnlyAdded wq) (Expected : Event → Type 0)
      (known : List String) (s : State crypto plus events wq)
      (sound : IsSound held holds Expected known s) where
    pub event_taken-Lower :
        (x : Ref Event) (q : events.Queue)
        → events.get s.watcher.handler.event_queue ≡ item x q
        → Lower (step crypto plus events wq event_taken s).1 s
    unfolding step
    event_taken-Lower x q got =
        let fewer = length-Inserted (pending.given x s.watcher.handler.event_queue q got) in
        rw got (inl (omega arith))

    pub event_handled-Lower :
        (n : ℕ) (x : Ref Event) (left : List (Ref Event))
        → take_at n s.handling ≡ some (x, left)
        → Lower (step crypto plus events wq (event_handled n) s).1 s
    unfolding step Handler.with_retry
    event_handled-Lower n x left found =
        let settings = s.process.settings in
        let (es, w, related, taken, handled) =
          handle_event-Translates (synchronizer wq settings)
            (synchronizer-AcceptsAll wq settings sound.configured.jitter) x.value
            s.watcher.handler in
        let fewer = length-Inserted (take_at-Inserted n s.handling x left found) in
        let same = ap length (pending.after_done x s.watcher.handler.event_queue) in
        rw found (rw handled (inl (omega arith)))

    pub change_taken-Lower :
        (x : Ref ServerUpdateEvent) (q : wq.Queue)
        → wq.get s.watcher.handler.synchronizer.queue ≡ item x q
        → Lower (step crypto plus events wq change_taken s).1 s
    unfolding step
    change_taken-Lower x q got =
        let less =
          load_taken wq laws backlogs s.process.settings x s.watcher.handler.synchronizer.queue q
            s.sending got in
        rw got (inr (refl, less))

    pub change_sent-Lower :
        (n : ℕ) (x : Ref ServerUpdateEvent) (left : List (Ref ServerUpdateEvent))
        → take_at n s.sending ≡ some (x, left)
        → Lower (step crypto plus events wq (change_sent n) s).1 s
    unfolding step
    change_sent-Lower n x left found =
        let settings = s.process.settings in
        let w = s.watcher.handler.synchronizer in
        let (stems, others) =
          AllHave-left holds (Stems Expected) n x w.queue s.sending left found sound.stemming in
        let (e, w', turned, settled) =
          process_settles crypto plus wq holds settings sound.configured.certificates
            sound.configured.made x w (Stems-NamesServers stems) in
        let less =
          load_settled wq laws backlogs settings x w.queue left s.sending
            (take_at-Inserted n s.sending x left found) e in
        rw found (
          rw turned (
            inr (
              refl,
              subst
                  (λ q.
                    load wq laws backlogs settings q left
                    < load wq laws backlogs settings w.queue s.sending)
                  (sym settled) less,
            )))
