-- ===== src/System/Turns.antt =====
-- A worker finishes the item that it took: the program stays sound, and there is no panic.
use nginx_k8s_loadbalancer.Base.{◌≡◌, refl, sym, subst, String, Option-cases, List, inl, inr, ℕ}
use nginx_k8s_loadbalancer.Core.{Event, ServerUpdateEvent}
use nginx_k8s_loadbalancer.Authentication.{Crypto, TlsConfig}
use nginx_k8s_loadbalancer.WorkQueue.{WorkQueue, HoldsOnlyAdded, Ref}
use nginx_k8s_loadbalancer.Synchronization.World.{World, NginxPlus}
use nginx_k8s_loadbalancer.Synchronization.Queueing.Enqueued.{add_events-Enqueued}
use nginx_k8s_loadbalancer.Synchronization.Survival.{process_settles, Holds-settled}
use nginx_k8s_loadbalancer.Observation.Handler
use nginx_k8s_loadbalancer.Observation.Handler.Handover.{handle_event-Translates}
use nginx_k8s_loadbalancer.Pipeline.{synchronizer, synchronizer-AcceptsAll}
use nginx_k8s_loadbalancer.System.{event_handled, change_sent, State, step, take_at}
use nginx_k8s_loadbalancer.System.Invariant.{
  Stems, Stems-NamesServers, IsSound, AllHave-left, Enqueued-Holds, FansOut-Stems,
}
use nginx_k8s_loadbalancer.System.Moves.{Keeps}

module _ {Cert KeyPair W : Type 0} (crypto : Crypto Cert KeyPair)
    (plus : NginxPlus (TlsConfig Cert KeyPair) W) (events : WorkQueue (Ref Event))
    (wq : WorkQueue (Ref ServerUpdateEvent)) (held : HoldsOnlyAdded events)
    (holds : HoldsOnlyAdded wq) (Expected : Event → Type 0) (known : List String)
    (s : State crypto plus events wq) (sound : IsSound held holds Expected known s) (n : ℕ) where
  pub event_handled-Keeps :
      Keeps crypto plus events wq held holds Expected known (event_handled n) s
  unfolding step Handler.with_retry
  event_handled-Keeps = elim (Option-cases (take_at n s.handling)) [
    | inl nothing ↦ rw nothing (refl, sound)
    | inr ((x, left), found) ↦
        let settings = s.process.settings in
        let jitter = sound.configured.jitter in
        let h = s.watcher.handler in
        let (expected, others) =
          AllHave-left held (λ e. Expected e.value) n x h.event_queue s.handling left found
            sound.expected in
        let (es, w, related, taken, handled) =
          handle_event-Translates (synchronizer wq settings)
            (synchronizer-AcceptsAll wq settings jitter) x.value h in
        let (rs, w', added, fanned, queued) =
          add_events-Enqueued wq settings jitter es h.synchronizer in
        let same : w' ≡ w = cc in
        rw found (
          rw handled (
            refl,
            record {
              configured = sound.configured;
              expected = record {
                waiting = λ y still. others.waiting y (held.after_done x y _ still);
                in_work = others.in_work;
              };
              stemming = record {
                waiting = λ r there.
                    Enqueued-Holds holds _ _ (Stems Expected) queued
                      (FansOut-Stems Expected x.value es expected related fanned)
                      sound.stemming.waiting r
                      (subst
                        (λ (u : World wq.Queue (TlsConfig Cert KeyPair) W). holds.Holds u.queue r)
                        (sym same) there);
                in_work = sound.stemming.in_work;
              };
            },
          ))
  ]

  pub change_sent-Keeps : Keeps crypto plus events wq held holds Expected known (change_sent n) s
  unfolding step
  change_sent-Keeps = elim (Option-cases (take_at n s.sending)) [
    | inl nothing ↦ rw nothing (refl, sound)
    | inr ((x, left), found) ↦
        let settings = s.process.settings in
        let w = s.watcher.handler.synchronizer in
        let (stems, others) =
          AllHave-left holds (Stems Expected) n x w.queue s.sending left found sound.stemming in
        let (e, w', turned, settled) =
          process_settles crypto plus wq holds settings sound.configured.certificates
            sound.configured.made x w (Stems-NamesServers stems) in
        rw found (
          rw turned (
            refl,
            record {
              configured = sound.configured;
              expected = sound.expected;
              stemming = record {
                waiting = λ r there.
                    elim (Holds-settled wq holds settings x r w.queue e
                      (subst (λ q. holds.Holds q r) settled there)) [
                        | inl same ↦ subst (Stems Expected) (sym same) stems
                        | inr before ↦ sound.stemming.waiting r before
                      ];
                in_work = others.in_work;
              };
            },
          ))
  ]
