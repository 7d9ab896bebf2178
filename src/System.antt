-- ===== src/System.antt =====
-- The goroutines of the program side by side, once run of cmd/nginx-loadbalancer-kubernetes/main.go
-- has started them: the callbacks of the three informers, and any number of workers of the handler
-- and of the synchronizer. What each does between taking an item and finishing it is one action,
-- and the actions of different goroutines follow each other in any order.
pub mod Invariant
pub mod Moves
pub mod Turns
pub mod Reconfigured
pub mod Safety
pub mod Start
pub mod Load
pub mod Rest
pub mod Outside
pub mod Delivered
pub mod Crew
use nginx_k8s_loadbalancer.Base.{ℕ, zero, suc, Option, none, some, List, [], ◌∷◌}
use nginx_k8s_loadbalancer.Result.{Result, ok, err, panic}
use nginx_k8s_loadbalancer.Exec.{Exec, ◌>>◌, pure}
use nginx_k8s_loadbalancer.Core.{Event, ServerUpdateEvent}
use nginx_k8s_loadbalancer.Kubernetes.{Cluster}
use nginx_k8s_loadbalancer.Certification.{Certificates}
use nginx_k8s_loadbalancer.Certification.Runs as SecretRuns
use nginx_k8s_loadbalancer.Configuration.Settings.{Process}
use nginx_k8s_loadbalancer.Configuration.Settings.Runs as ConfigRuns
use nginx_k8s_loadbalancer.Authentication.{Crypto, TlsConfig}
use nginx_k8s_loadbalancer.WorkQueue.{WorkQueue, Got, item, quit, blocked, Ref}
use nginx_k8s_loadbalancer.Synchronization.World.{World, NginxPlus}
use nginx_k8s_loadbalancer.Synchronization.Worker.{Turn, waiting, returned, panicked, process}
use nginx_k8s_loadbalancer.Observation.Watcher.{HandlerInterface, WatcherState}
use nginx_k8s_loadbalancer.Observation.Watcher.Callbacks.{Notice, notify}
use nginx_k8s_loadbalancer.Observation.Handler
use nginx_k8s_loadbalancer.Observation.Handler.{HandlerState, conclude}
use nginx_k8s_loadbalancer.Pipeline.{synchronizer}

-- What can happen next. The number says which of the items in work a worker is done with.
pub data Action : Type 0 where
  noticed : Cluster → Notice → Action
  configured : ConfigRuns.Callback → Action
  certified : SecretRuns.Callback → Action
  event_taken change_taken watch_ended : Action
  event_handled change_sent : ℕ → Action

-- The settings, shared by all; the watcher, with the handler and its synchronizer; and the items that
-- the workers have taken and not finished.
pub record Goroutines (Q R T W : Type 0) : Type 0 where
  pub process : Process
  pub watcher : WatcherState (HandlerState Q (World R T W))
  pub handling : List (Ref Event)
  pub sending : List (Ref ServerUpdateEvent)

abbrev beside : {A : Type 0} → A → Option (A × List A) → Option (A × List A)
beside x none = none
beside x (some (y, ys)) = some (y, x ∷ ys)

-- The item at an index, and the others.
unfoldable pub take_at : {A : Type 0} → ℕ → List A → Option (A × List A)
take_at n [] = none
take_at zero (x ∷ xs) = some (x, xs)
take_at (suc n) (x ∷ xs) = beside x (take_at n xs)

-- The handler, as the watcher sees it.
abbrev pub handler_interface :
    (events : WorkQueue (Ref Event)) (S : Type 0) → HandlerInterface (HandlerState events.Queue S)
handler_interface events S = record {
  add_rate_limited_event = Handler.add_rate_limited_event events;
  shut_down = Handler.shut_down events;
}

module _ {Cert KeyPair W : Type 0} (crypto : Crypto Cert KeyPair)
    (plus : NginxPlus (TlsConfig Cert KeyPair) W) (events : WorkQueue (Ref Event))
    (wq : WorkQueue (Ref ServerUpdateEvent)) where
  abbrev pub State : Type 0
  State = Goroutines events.Queue wq.Queue (TlsConfig Cert KeyPair) W

  abbrev pub HandlerPart : Type 0
  HandlerPart = HandlerState events.Queue (World wq.Queue (TlsConfig Cert KeyPair) W)

  abbrev pub WorldPart : Type 0
  WorldPart = World wq.Queue (TlsConfig Cert KeyPair) W

  abbrev pub with_handler : HandlerPart → State → State
  with_handler h s = record s { watcher = record s.watcher { handler = h } }

  abbrev pub with_world : WorldPart → State → State
  with_world w s = with_handler (record s.watcher.handler { synchronizer = w }) s

  abbrev pub put_notice :
      State → Result (Unit {0}) × WatcherState HandlerPart → Result (Unit {0}) × State
  put_notice s (r, w) = (r, record s { watcher = w })

  abbrev pub put_process : State → Result (Unit {0}) × Process → Result (Unit {0}) × State
  put_process s (r, p) = (r, record s { process = p })

  abbrev pub put_certificates : State → Result Certificates → Result (Unit {0}) × State
  put_certificates s (ok c) = (
    ok tt,
    record s {
      process = record s.process { settings = record s.process.settings { certificates = some c } };
    },
  )
  put_certificates s (err e) = (err e, s)
  put_certificates s (panic p) = (panic p, s)

  -- Without certificates there is no informer of the Secrets to call.
  abbrev pub certify : SecretRuns.Callback → State → Option Certificates → Result (Unit {0}) × State
  certify cb s none = (ok tt, s)
  certify cb s (some c) = put_certificates s (SecretRuns.call cb c)

  abbrev pub start_event : State → Got events.Queue (Ref Event) → State
  start_event s (item x q) =
      record (with_handler (record s.watcher.handler { event_queue = q }) s) {
        handling = x ∷ s.handling;
      }
  start_event s quit = s
  start_event s blocked = s

  abbrev pub start_change : State → Got wq.Queue (Ref ServerUpdateEvent) → State
  start_change s (item x q) =
      record (with_world (record s.watcher.handler.synchronizer { queue = q }) s) {
        sending = x ∷ s.sending;
      }
  start_change s quit = s
  start_change s blocked = s

  abbrev pub put_handler : State → Turn HandlerPart → Result (Unit {0}) × State
  put_handler s waiting = (ok tt, s)
  put_handler s (returned more h) = (ok tt, with_handler h s)
  put_handler s (panicked p h) = (panic p, with_handler h s)

  abbrev pub put_world : State → Turn WorldPart → Result (Unit {0}) × State
  put_world s waiting = (ok tt, s)
  put_world s (returned more w) = (ok tt, with_world w s)
  put_world s (panicked p w) = (panic p, with_world w s)

  abbrev pub finish_event :
      State → Option (Ref Event × List (Ref Event)) → Result (Unit {0}) × State
  finish_event s none = (ok tt, s)
  finish_event s (some (x, left)) =
      put_handler (record s { handling = left })
        (conclude events s.process.settings (synchronizer wq s.process.settings) x
          (Handler.handle_event (synchronizer wq s.process.settings) x.value s.watcher.handler))

  abbrev pub finish_change :
      State
      → Option (Ref ServerUpdateEvent × List (Ref ServerUpdateEvent))
      → Result (Unit {0}) × State
  finish_change s none = (ok tt, s)
  finish_change s (some (x, left)) =
      put_world (record s { sending = left })
        (process crypto plus wq s.process.settings x s.watcher.handler.synchronizer)

  unfoldable pub step : Action → Exec State Unit
  unfolding notify ConfigRuns.call SecretRuns.call take_at
  step (noticed cluster n) s =
      put_notice s (notify (handler_interface events WorldPart) cluster n s.watcher)
  step (configured cb) s = put_process s (ConfigRuns.call cb s.process)
  step (certified cb) s = certify cb s s.process.settings.certificates
  step event_taken s = (ok tt, start_event s (events.get s.watcher.handler.event_queue))
  step change_taken s = (ok tt, start_change s (wq.get s.watcher.handler.synchronizer.queue))
  step watch_ended s = (ok tt, with_handler (Handler.shut_down events s.watcher.handler) s)
  step (event_handled n) s = finish_event s (take_at n s.handling)
  step (change_sent n) s = finish_change s (take_at n s.sending)

  -- The actions in order, up to the first panic.
  unfoldable pub steps : List Action → Exec State Unit
  unfolding step
  steps [] = pure tt
  steps (a ∷ actions) = do step a; steps actions
