-- ===== src/Observation/Handler/Backoff.antt =====
-- The count of requeues of the handler's queue: nothing ever clears it.
use nginx_k8s_loadbalancer.Base.{◌≤◌, ◌<◌, ◌≡◌, ◌∙◌, Bool, arith, inl, inr}
use nginx_k8s_loadbalancer.Core.{Event}
use nginx_k8s_loadbalancer.Configuration.Settings.{Settings}
use nginx_k8s_loadbalancer.WorkQueue.{WorkQueue, CountsRequeues, Got-cases, Ref}
use nginx_k8s_loadbalancer.WorkQueue.Laws.{num_requeues-add_rate_limited}
use nginx_k8s_loadbalancer.Synchronization.Worker.{returned}
use nginx_k8s_loadbalancer.Observation.Handler.{
  SynchronizerInterface, HandlerState, add_rate_limited_event, handle_next_event,
}
use nginx_k8s_loadbalancer.Observation.Handler.Handover.{AcceptsAll, handle_next_event-Translates}

-- What happens to the handler, in any order: the watcher adds an Event, and a worker takes a turn.
pub data Steps (wq : WorkQueue (Ref Event)) {S : Type 0} (settings : Settings)
    (sync : SynchronizerInterface S)
    : HandlerState wq.Queue S → HandlerState wq.Queue S → Type 0 where
  start : (h : HandlerState wq.Queue S) → Steps wq settings sync h h
  arrives :
      {h h' : HandlerState wq.Queue S} (x : Ref Event)
      → Steps wq settings sync h h'
      → Steps wq settings sync h (add_rate_limited_event wq x h')
  handles :
      {h h' h'' : HandlerState wq.Queue S} (more : Bool)
      → Steps wq settings sync h h'
      → handle_next_event wq settings sync h' ≡ returned more h''
      → Steps wq settings sync h h''

module _ (wq : WorkQueue (Ref Event)) (laws : CountsRequeues wq) {S : Type 0} (settings : Settings)
    (sync : SynchronizerInterface S) (accepts : AcceptsAll sync) (x : Ref Event) where
  num_requeues-handle_next_event :
      (h h' : HandlerState wq.Queue S) (more : Bool)
      → handle_next_event wq settings sync h ≡ returned more h'
      → wq.num_requeues x h'.event_queue ≡ wq.num_requeues x h.event_queue
  unfolding handle_next_event
  num_requeues-handle_next_event h h' more e = elim (Got-cases (wq.get h.event_queue)) [
    | inl (y, q, got) ↦
        let (es, s', related, taken, turned) =
          handle_next_event-Translates wq settings sync accepts y q h got in
        let same : h' ≡ record { event_queue = wq.done y q; synchronizer = s' } = cc in
        rw same (laws.finished y x q ∙ laws.taken y x h.event_queue q got)
    | inr (inl ended) ↦ ground arith
    | inr (inr nothing) ↦ ground arith
  ]

  num_requeues-Steps :
      {h h' : HandlerState wq.Queue S}
      → Steps wq settings sync h h'
      → wq.num_requeues x h.event_queue ≤ wq.num_requeues x h'.event_queue
  unfolding add_rate_limited_event
  num_requeues-Steps (start h) = omega arith
  num_requeues-Steps (arrives {h'} y r) =
      let before = num_requeues-Steps r in
      let added = num_requeues-add_rate_limited wq laws y x h'.event_queue in omega arith
  num_requeues-Steps (handles {h'} {h''} more r e) =
      let before = num_requeues-Steps r in
      let same = num_requeues-handle_next_event h' h'' more e in omega arith

-- Once the watcher has added an Event, its count of requeues is positive for ever, whatever is added
-- and handled afterwards, provided that the synchronizer takes all changes: a handled Event is never
-- forgotten.
pub num_requeues-add_rate_limited_event :
    (wq : WorkQueue (Ref Event)) (laws : CountsRequeues wq) {S : Type 0} (settings : Settings)
    (sync : SynchronizerInterface S) (accepts : AcceptsAll sync) (x : Ref Event)
    (h h' : HandlerState wq.Queue S)
    → Steps wq settings sync (add_rate_limited_event wq x h) h'
    → 0 < wq.num_requeues x h'.event_queue
unfolding add_rate_limited_event
num_requeues-add_rate_limited_event wq laws settings sync accepts x h h' steps =
    let grown = num_requeues-Steps wq laws settings sync accepts x steps in
    let added = laws.counted x h.event_queue in omega arith
