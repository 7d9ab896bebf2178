-- ===== src/Synchronization/Worker.antt =====
-- The message loop of internal/synchronization/synchronizer.go: handleNextEvent, withRetry, worker,
-- Run and ShutDown.
use nginx_k8s_loadbalancer.Base.{
  ℕ, zero, suc, Bool, true, false, Option, none, some, ltb, if◌then◌else◌, String, List,
}
use nginx_k8s_loadbalancer.Workers.{Worker, spawn}
use nginx_k8s_loadbalancer.Result.{Error, Result, ok, err, panic}
use nginx_k8s_loadbalancer.Core.{ServerUpdateEvent}
use nginx_k8s_loadbalancer.Configuration.Settings.{Settings}
use nginx_k8s_loadbalancer.Authentication.{Crypto, TlsConfig}
use nginx_k8s_loadbalancer.WorkQueue.{WorkQueue, Got, item, quit, blocked, Ref}
use nginx_k8s_loadbalancer.Synchronization.World.{World, NginxPlus}
use nginx_k8s_loadbalancer.Synchronization.Delivery.{handle_event}

-- What a call of handleNextEvent does: it blocks in Get, it returns, or it panics.
pub data Turn (S : Type 0) : Type 0 where
  waiting : Turn S
  returned : Bool → S → Turn S
  panicked : String → S → Turn S

-- How the loop of a worker ends, or that it is still in its loop.
pub data Loop (S : Type 0) : Type 0 where
  running waits : S → Loop S
  stopped : S → Loop S
  crashed : String → S → Loop S

-- `for handleNextEvent() { }`, after one turn.
abbrev pub after_turn : {S : Type 0} → Turn S → S → (S → Loop S) → Loop S
after_turn waiting s next = waits s
after_turn (returned true s') s next = next s'
after_turn (returned false s') s next = stopped s'
after_turn (panicked p s') s next = crashed p s'

module _ (wq : WorkQueue (Ref ServerUpdateEvent)) (settings : Settings) where
  -- withRetry with an error.
  unfoldable pub retry : Ref ServerUpdateEvent → wq.Queue → wq.Queue
  retry event q =
      if ltb (wq.num_requeues event q) settings.synchronizer.retry_count
      then wq.add_rate_limited event q
      else wq.forget event q

  -- withRetry; `none` is a nil error.
  unfoldable pub with_retry : Option Error → Ref ServerUpdateEvent → wq.Queue → wq.Queue
  unfolding retry
  with_retry none event q = wq.forget event q
  with_retry (some e) event q = retry event q

module _ {Cert KeyPair W : Type 0} (crypto : Crypto Cert KeyPair)
    (plus : NginxPlus (TlsConfig Cert KeyPair) W) (wq : WorkQueue (Ref ServerUpdateEvent))
    (settings : Settings) where
  -- The end of handleNextEvent, with the deferred Done.
  abbrev pub conclude :
      Ref ServerUpdateEvent
      → Result (Unit {0}) × World wq.Queue (TlsConfig Cert KeyPair) W
      → Turn (World wq.Queue (TlsConfig Cert KeyPair) W)
  conclude event (ok u, w) =
      returned true (record w { queue = wq.done event (with_retry wq settings none event w.queue) })
  conclude event (err e, w) =
      returned true
        (record w { queue = wq.done event (with_retry wq settings (some e) event w.queue) })
  conclude event (panic p, w) = panicked p (record w { queue = wq.done event w.queue })

  unfoldable pub process :
      Ref ServerUpdateEvent
      → World wq.Queue (TlsConfig Cert KeyPair) W
      → Turn (World wq.Queue (TlsConfig Cert KeyPair) W)
  unfolding with_retry
  process event w = conclude event (handle_event crypto plus settings event.value w)

  abbrev pub on_got :
      Got wq.Queue (Ref ServerUpdateEvent)
      → World wq.Queue (TlsConfig Cert KeyPair) W
      → Turn (World wq.Queue (TlsConfig Cert KeyPair) W)
  on_got (item event q) w = process event (record w { queue = q })
  on_got quit w = returned false w
  on_got blocked w = waiting

  unfoldable pub handle_next_event :
      World wq.Queue (TlsConfig Cert KeyPair) W → Turn (World wq.Queue (TlsConfig Cert KeyPair) W)
  unfolding process
  handle_next_event w = on_got (wq.get w.queue) w

  -- The loop of a worker, for as many rounds as there is fuel.
  unfoldable pub worker :
      ℕ
      → World wq.Queue (TlsConfig Cert KeyPair) W
      → Loop (World wq.Queue (TlsConfig Cert KeyPair) W)
  unfolding handle_next_event
  worker zero w = running w
  worker (suc fuel) w = after_turn (handle_next_event w) w (worker fuel)

  unfoldable pub shut_down :
      World wq.Queue (TlsConfig Cert KeyPair) W → World wq.Queue (TlsConfig Cert KeyPair) W
  shut_down w = record w { queue = wq.shut_down_with_drain w.queue }

-- The goroutines that Run starts, before their first turn.
unfoldable pub run : Settings → List (Worker (Ref ServerUpdateEvent))
unfolding spawn
run settings = spawn settings.synchronizer.threads
