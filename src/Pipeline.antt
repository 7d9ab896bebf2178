-- ===== src/Pipeline.antt =====
-- The parts put together: an Event on the handler's queue, its changes on the synchronizer's queue,
-- and their handling by a worker.
use nginx_k8s_loadbalancer.Base.{
  ◌<◌, ◌≡◌, ◌≢◌, sym, ap, ◌∙◌, List, [], ◌∷◌, true, All, length, String, some,
}
use nginx_k8s_loadbalancer.Exec.Rules.{NoPanic}
use nginx_k8s_loadbalancer.Core.{EventType, deleted, Event, UpstreamServer, ServerUpdateEvent}
use nginx_k8s_loadbalancer.Certification.{Certificates}
use nginx_k8s_loadbalancer.Configuration.Settings.{Settings}
use nginx_k8s_loadbalancer.Authentication.{Crypto, TlsConfig}
use nginx_k8s_loadbalancer.WorkQueue.{WorkQueue, item, Ref}
use nginx_k8s_loadbalancer.Translation.Relation.{Translates}
use nginx_k8s_loadbalancer.Translation.Counts.{IsChange, Translates-IsChange}
use nginx_k8s_loadbalancer.Synchronization.World.{World, NginxPlus}
use nginx_k8s_loadbalancer.Synchronization.Queueing.{add_events}
use nginx_k8s_loadbalancer.Synchronization.Queueing.FanOut.{FansOut, IsCopy, All-FansOut}
use nginx_k8s_loadbalancer.Synchronization.Queueing.Enqueued.{Enqueued, add_events-Enqueued}
use nginx_k8s_loadbalancer.Synchronization.Worker.{returned}
use nginx_k8s_loadbalancer.Synchronization.Delivery
use nginx_k8s_loadbalancer.Synchronization.Delivery.Safety.{handle_event-NoPanic}
use nginx_k8s_loadbalancer.Observation.Handler.{
  SynchronizerInterface, HandlerState, handle_next_event,
}
use nginx_k8s_loadbalancer.Observation.Handler.Handover.{AcceptsAll, handle_next_event-Translates}

-- The synchronizer, as the handler sees it.
abbrev pub synchronizer :
    (wq : WorkQueue (Ref ServerUpdateEvent)) {T W : Type 0}
    → Settings
    → SynchronizerInterface (World wq.Queue T W)
synchronizer wq settings = record { add_events = add_events wq settings }

module _ (wq : WorkQueue (Ref ServerUpdateEvent)) {T W : Type 0} (settings : Settings)
    (jitter : settings.synchronizer.min_milliseconds_jitter
      < settings.synchronizer.max_milliseconds_jitter) where
  pub synchronizer-AcceptsAll : AcceptsAll (synchronizer wq {T = T} {W = W} settings)
  synchronizer-AcceptsAll = record {
    accepts = λ es w.
        let (rs, w', added, fanned, queued) = add_events-Enqueued wq settings jitter es w in
        (w', added);
  }

-- With a minimum of the jitter below its maximum, when the handler's queue gives an Event,
-- handleNextEvent returns true and the Event is done; the synchronizer's queue got, for every
-- configured host, a copy of every change that the translation of the Event asks for, each with a
-- delay in [min, max), except for hosts with an empty name.
pub handle_next_event-Enqueued :
    (events : WorkQueue (Ref Event)) (wq : WorkQueue (Ref ServerUpdateEvent)) {T W : Type 0}
    (settings : Settings) (e : Ref Event) (q' : events.Queue)
    (h : HandlerState events.Queue (World wq.Queue T W))
    → settings.synchronizer.min_milliseconds_jitter < settings.synchronizer.max_milliseconds_jitter
    → events.get h.event_queue ≡ item e q'
    → (es : List ServerUpdateEvent) × (rs : List (Ref ServerUpdateEvent)) × (w' : World wq.Queue T
        W)
      × Translates e.value e.value.service.ports es
      × FansOut es settings.nginx_plus_hosts rs
      × Enqueued wq settings.synchronizer.min_milliseconds_jitter
          settings.synchronizer.max_milliseconds_jitter rs h.synchronizer.queue w'.queue
      × (handle_next_event events settings (synchronizer wq settings) h
          ≡ returned true (record { event_queue = events.done e q'; synchronizer = w' }))
handle_next_event-Enqueued events wq settings e q' h jitter got =
    let (es, s', related, taken, turned) =
      handle_next_event-Translates events settings (synchronizer wq settings)
        (synchronizer-AcceptsAll wq settings jitter) e q' h got in
    let (rs, w', added, fanned, queued) =
      add_events-Enqueued wq settings jitter es h.synchronizer in
    let same : s' ≡ w' = cc in (es, rs, w', related, fanned, queued, rw (← same) turned)

-- The fact that makes the handling of a change safe.
abbrev pub NamesServers : ServerUpdateEvent → Type 0
NamesServers e = e.event_type ≡ deleted → e.upstream_servers ≢ []

length-ne-zero : (servers : List UpstreamServer) → length servers ≡ 1 → servers ≢ []
length-ne-zero [] one = cc
length-ne-zero (s ∷ servers) one = λ empty. cc

pub IsChange-NamesServers :
    (ty : EventType) (host : String) (e : ServerUpdateEvent) (r : Ref ServerUpdateEvent)
    → IsCopy host e r
    → IsChange ty e
    → NamesServers r.value
IsChange-NamesServers ty host e r copy (same, no_host, one) is_deleted =
    let type_of : ServerUpdateEvent → EventType = λ u. u.event_type in
    let servers_of : ServerUpdateEvent → List UpstreamServer = λ u. u.upstream_servers in
    let types : r.value.event_type ≡ e.event_type = ap type_of copy in
    let servers : r.value.upstream_servers ≡ e.upstream_servers = ap servers_of copy in
    let count : length r.value.upstream_servers ≡ 1 =
      ap length servers ∙ one (sym same ∙ sym types ∙ is_deleted) in
    λ empty. length-ne-zero r.value.upstream_servers count empty

-- Nothing that a translation puts on the synchronizer's queue makes a worker panic, once the
-- certificates are made: for every Event, all its changes, fanned out to any hosts, are handled
-- without a panic in any state of the world, whatever NGINX Plus answers.
pub fanned_out-NoPanic :
    {Cert KeyPair W : Type 0} (Q : Type 0) (crypto : Crypto Cert KeyPair)
    (plus : NginxPlus (TlsConfig Cert KeyPair) W) (settings : Settings) (c : Certificates)
    (e : Event) (es : List ServerUpdateEvent) (hosts : List String)
    (rs : List (Ref ServerUpdateEvent))
    → settings.certificates ≡ some c
    → Translates e e.service.ports es
    → FansOut es hosts rs
    → All
        (λ r.
          (w : World Q (TlsConfig Cert KeyPair) W)
          → NoPanic (Delivery.handle_event crypto plus settings r.value w).0)
        rs
fanned_out-NoPanic Q crypto plus settings c e es hosts rs made related fanned =
    All-FansOut (IsChange e.event_type) _
      (λ host u r copy change w.
        handle_event-NoPanic crypto plus settings c r.value w made
          (IsChange-NamesServers e.event_type host u r copy change))
      fanned (Translates-IsChange related)
