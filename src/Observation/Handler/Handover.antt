-- ===== src/Observation/Handler/Handover.antt =====
-- What becomes of an Event that the handler takes off its queue.
use nginx_k8s_loadbalancer.Base.{◌≡◌, refl, true, List}
use nginx_k8s_loadbalancer.Result.{ok}
use nginx_k8s_loadbalancer.Core.{Event, ServerUpdateEvent}
use nginx_k8s_loadbalancer.Configuration.Settings.{Settings}
use nginx_k8s_loadbalancer.Translation.Relation.{Translates, translate-Translates}
use nginx_k8s_loadbalancer.WorkQueue.{WorkQueue, item, Ref}
use nginx_k8s_loadbalancer.Synchronization.Worker.{returned}
use nginx_k8s_loadbalancer.Observation.Handler.{
  SynchronizerInterface, HandlerState, handle_event, with_retry, handle_next_event,
}

-- The synchronizer takes any changes in any state, with no panic.
pub record AcceptsAll {S : Type 0} (sync : SynchronizerInterface S) : Type 0 where
  pub accepts :
      (es : List ServerUpdateEvent) (s : S) → (s' : S) × (sync.add_events es s ≡ (ok tt, s'))

module _ {Q S : Type 0} (sync : SynchronizerInterface S) (accepts : AcceptsAll sync) where
  pub handle_event-Translates :
      (e : Event) (h : HandlerState Q S)
      → (es : List ServerUpdateEvent) × (s' : S) × Translates e e.service.ports es
        × (sync.add_events es h.synchronizer ≡ (ok tt, s'))
        × (handle_event sync e h ≡ (ok tt, record h { synchronizer = s' }))
  unfolding handle_event
  handle_event-Translates e h =
      let (es, computed, related) = translate-Translates e in
      let (s', taken) = accepts.accepts es h.synchronizer in
      (es, s', related, taken, rw computed (rw taken refl))

-- When the queue gives an Event, and the synchronizer takes any changes, handleNextEvent returns
-- true; the synchronizer got the changes that the translation of the Event asks for, once; the Event
-- is done, and it is neither queued again nor forgotten.
pub handle_next_event-Translates :
    (wq : WorkQueue (Ref Event)) {S : Type 0} (settings : Settings) (sync : SynchronizerInterface S)
    (accepts : AcceptsAll sync) (e : Ref Event) (q' : wq.Queue) (h : HandlerState wq.Queue S)
    → wq.get h.event_queue ≡ item e q'
    → (es : List ServerUpdateEvent) × (s' : S) × Translates e.value e.value.service.ports es
      × (sync.add_events es h.synchronizer ≡ (ok tt, s'))
      × (handle_next_event wq settings sync h
          ≡ returned true (record { event_queue = wq.done e q'; synchronizer = s' }))
unfolding handle_next_event with_retry
handle_next_event-Translates wq settings sync accepts e q' h got =
    let (es, s', related, taken, handled) =
      handle_event-Translates sync accepts e.value (record h { event_queue = q' }) in
    (es, s', related, taken, rw got (rw handled refl))
