-- ===== src/Observation/Handler.antt =====
-- internal/observation/handler.go. The synchronizer is the interface that the handler is given.
pub mod Handover
pub mod Backoff
pub mod Drain
use nginx_k8s_loadbalancer.Base.{
  ℕ, zero, suc, String, Bool, true, false, Option, none, some, List, ltb, if◌then◌else◌,
}
use nginx_k8s_loadbalancer.Text.{◌⧺◌}
use nginx_k8s_loadbalancer.Result.{Error, Result, ok, err, panic, wrapped}
use nginx_k8s_loadbalancer.Exec.{Exec, ◌>>=◌, ◌>>◌, lift}
use nginx_k8s_loadbalancer.Core.{Event, ServerUpdateEvent}
use nginx_k8s_loadbalancer.Configuration.Settings.{Settings}
use nginx_k8s_loadbalancer.Translation.{translate}
use nginx_k8s_loadbalancer.WorkQueue.{WorkQueue, Got, item, quit, blocked, Ref}
use nginx_k8s_loadbalancer.Workers.{Worker, spawn}
use nginx_k8s_loadbalancer.Synchronization.Worker.{
  Turn, after_turn, waiting, returned, panicked, Loop, running, waits, stopped, crashed,
}

-- synchronization.Interface, as far as the handler calls it, over the synchronizer's state.
pub record SynchronizerInterface (S : Type 0) : Type 0 where
  pub add_events : List ServerUpdateEvent → Exec S Unit

-- The handler's queue, and the state of the synchronizer.
pub record HandlerState (Q S : Type 0) : Type 0 where
  pub event_queue : Q
  pub synchronizer : S

abbrev pub translating_failed : Error → Error
translating_failed e = "Handler::handleEvent error translating: " ⧺ e

module _ {Q S : Type 0} where
  abbrev put_synchronizer :
      HandlerState Q S → Result (Unit {0}) × S → Result (Unit {0}) × HandlerState Q S
  put_synchronizer h (r, s) = (r, record h { synchronizer = s })

  -- The call of AddEvents, which returns nothing.
  abbrev pub hand_over :
      SynchronizerInterface S → List ServerUpdateEvent → Exec (HandlerState Q S) Unit
  hand_over sync events h = put_synchronizer h (sync.add_events events h.synchronizer)

  unfoldable pub handle_event : SynchronizerInterface S → Event → Exec (HandlerState Q S) Unit
  handle_event sync e = do
    events ← lift (wrapped translating_failed (translate e))
    hand_over sync events

module _ (wq : WorkQueue (Ref Event)) where
  -- withRetry; `none` is a nil error, on which nothing is done.
  unfoldable pub with_retry : Settings → Option Error → Ref Event → wq.Queue → wq.Queue
  with_retry settings none event q = q
  with_retry settings (some e) event q =
      if ltb (wq.num_requeues event q) settings.handler.retry_count
      then wq.add_rate_limited event q
      else wq.forget event q

module _ (wq : WorkQueue (Ref Event)) {S : Type 0} where
  unfoldable pub add_rate_limited_event :
      Ref Event → HandlerState wq.Queue S → HandlerState wq.Queue S
  add_rate_limited_event event h = record h {
    event_queue = wq.add_rate_limited event h.event_queue;
  }

  unfoldable pub shut_down : HandlerState wq.Queue S → HandlerState wq.Queue S
  shut_down h = record h { event_queue = wq.shut_down h.event_queue }

module _ (wq : WorkQueue (Ref Event)) {S : Type 0} (settings : Settings)
    (sync : SynchronizerInterface S) where
  -- The end of handleNextEvent, with the deferred Done.
  abbrev pub conclude :
      Ref Event → Result (Unit {0}) × HandlerState wq.Queue S → Turn (HandlerState wq.Queue S)
  conclude event (ok u, h) =
      returned true
        (record h { event_queue = wq.done event (with_retry wq settings none event h.event_queue) })
  conclude event (err e, h) = returned true (record h {
    event_queue = wq.done event (with_retry wq settings (some e) event h.event_queue);
  })
  conclude event (panic p, h) = panicked p (record h { event_queue = wq.done event h.event_queue })

  abbrev on_got :
      Got wq.Queue (Ref Event) → HandlerState wq.Queue S → Turn (HandlerState wq.Queue S)
  on_got (item event q) h =
      conclude event (handle_event sync event.value (record h { event_queue = q }))
  on_got quit h = returned false h
  on_got blocked h = waiting

  unfoldable pub handle_next_event : HandlerState wq.Queue S → Turn (HandlerState wq.Queue S)
  unfolding handle_event with_retry
  handle_next_event h = on_got (wq.get h.event_queue) h

  -- The loop of a worker, for as many rounds as there is fuel.
  unfoldable pub worker : ℕ → HandlerState wq.Queue S → Loop (HandlerState wq.Queue S)
  unfolding handle_next_event
  worker zero h = running h
  worker (suc fuel) h = after_turn (handle_next_event h) h (worker fuel)

-- The goroutines that Run starts, before their first turn.
unfoldable pub run : Settings → List (Worker (Ref Event))
unfolding spawn
run settings = spawn settings.handler.threads
