-- ===== src/System/Crew.antt =====
-- The program with the goroutines that it really starts: as many workers as the settings have threads,
-- each of which alternates between taking an item and finishing it. System, with its lists of items
-- in work, is the view of it that forgets which worker has an item.
pub mod Calls
pub mod Simulation
pub mod Sizes
pub mod Runs
pub mod Safety
use nginx_k8s_loadbalancer.Base.{ℕ, Option, none, some, List, [], ◌∷◌}
use nginx_k8s_loadbalancer.Result.{Result, ok, err, panic}
use nginx_k8s_loadbalancer.Exec.{Exec, ◌>>◌, pure}
use nginx_k8s_loadbalancer.Core.{Event, ServerUpdateEvent}
use nginx_k8s_loadbalancer.Configuration.Settings.{Process}
use nginx_k8s_loadbalancer.Authentication.{Crypto, TlsConfig}
use nginx_k8s_loadbalancer.WorkQueue.{WorkQueue, Got, item, quit, blocked, Ref}
use nginx_k8s_loadbalancer.Workers.{Worker, idle, busy, worker_at, set_worker}
use nginx_k8s_loadbalancer.Synchronization.World.{World, NginxPlus}
use nginx_k8s_loadbalancer.Synchronization.Worker.{Turn, waiting, returned, panicked, process}
use nginx_k8s_loadbalancer.Observation.Watcher.{WatcherState}
use nginx_k8s_loadbalancer.Observation.Handler
use nginx_k8s_loadbalancer.Observation.Handler.{HandlerState, conclude}
use nginx_k8s_loadbalancer.Pipeline.{synchronizer}
use nginx_k8s_loadbalancer.System.{
  Action, noticed, configured, certified, watch_ended, Goroutines, State, HandlerPart, WorldPart,
  step,
}

-- A callback of an informer, or the end of the watch.
abbrev pub IsCall : Action → Type 0
IsCall (noticed cluster n) = Unit
IsCall (configured cb) = Unit
IsCall (certified cb) = Unit
IsCall watch_ended = Unit
IsCall _ = ⊥

-- What can happen next: a call, or the turn of a worker of the handler or of the synchronizer.
pub data Move : Type 0 where
  called : (a : Action) → IsCall a → Move
  handler_turn synchronizer_turn : ℕ → Move

pub record Crew (Q R T W : Type 0) : Type 0 where
  pub process : Process
  pub watcher : WatcherState (HandlerState Q (World R T W))
  pub handlers : List (Worker (Ref Event))
  pub synchronizers : List (Worker (Ref ServerUpdateEvent))

module _ {Cert KeyPair W : Type 0} (crypto : Crypto Cert KeyPair)
    (plus : NginxPlus (TlsConfig Cert KeyPair) W) (events : WorkQueue (Ref Event))
    (wq : WorkQueue (Ref ServerUpdateEvent)) where
  abbrev pub CrewState : Type 0
  CrewState = Crew events.Queue wq.Queue (TlsConfig Cert KeyPair) W

  -- The crew, with lists of the items in work in the place of the workers.
  abbrev pub seen_as :
      CrewState → List (Ref Event) → List (Ref ServerUpdateEvent) → State crypto plus events wq
  seen_as c handling sending = record {
    process = c.process;
    watcher = c.watcher;
    handling = handling;
    sending = sending;
  }

  abbrev pub with_handler : HandlerPart crypto plus events wq → CrewState → CrewState
  with_handler h c = record c { watcher = record c.watcher { handler = h } }

  abbrev pub with_world : WorldPart crypto plus events wq → CrewState → CrewState
  with_world w c = with_handler (record c.watcher.handler { synchronizer = w }) c

  abbrev pub after_call :
      CrewState → Result (Unit {0}) × State crypto plus events wq → Result (Unit {0}) × CrewState
  after_call c (r, s) = (r, record c { process = s.process; watcher = s.watcher })

  abbrev pub put_handler :
      CrewState → Turn (HandlerPart crypto plus events wq) → Result (Unit {0}) × CrewState
  put_handler c waiting = (ok tt, c)
  put_handler c (returned more h) = (ok tt, with_handler h c)
  put_handler c (panicked p h) = (panic p, with_handler h c)

  abbrev pub put_world :
      CrewState → Turn (WorldPart crypto plus events wq) → Result (Unit {0}) × CrewState
  put_world c waiting = (ok tt, c)
  put_world c (returned more w) = (ok tt, with_world w c)
  put_world c (panicked p w) = (panic p, with_world w c)

  -- Get at the start of handleNextEvent. A worker that sees the shutdown returns, and is called again.
  abbrev pub handler_gets : ℕ → CrewState → Got events.Queue (Ref Event) → CrewState
  handler_gets n c (item x q) =
      record (with_handler (record c.watcher.handler { event_queue = q }) c) {
        handlers = set_worker n (busy x) c.handlers;
      }
  handler_gets n c quit = c
  handler_gets n c blocked = c

  abbrev pub synchronizer_gets : ℕ → CrewState → Got wq.Queue (Ref ServerUpdateEvent) → CrewState
  synchronizer_gets n c (item x q) =
      record (with_world (record c.watcher.handler.synchronizer { queue = q }) c) {
        synchronizers = set_worker n (busy x) c.synchronizers;
      }
  synchronizer_gets n c quit = c
  synchronizer_gets n c blocked = c

  -- The turn of a worker: it takes an item, or it does the rest of handleNextEvent with its item.
  abbrev pub handler_moves :
      ℕ → CrewState → Option (Worker (Ref Event)) → Result (Unit {0}) × CrewState
  handler_moves n c none = (ok tt, c)
  handler_moves n c (some idle) =
      (ok tt, handler_gets n c (events.get c.watcher.handler.event_queue))
  handler_moves n c (some (busy x)) =
      put_handler (record c { handlers = set_worker n idle c.handlers })
        (conclude events c.process.settings (synchronizer wq c.process.settings) x
          (Handler.handle_event (synchronizer wq c.process.settings) x.value c.watcher.handler))

  abbrev pub synchronizer_moves :
      ℕ → CrewState → Option (Worker (Ref ServerUpdateEvent)) → Result (Unit {0}) × CrewState
  synchronizer_moves n c none = (ok tt, c)
  synchronizer_moves n c (some idle) =
      (ok tt, synchronizer_gets n c (wq.get c.watcher.handler.synchronizer.queue))
  synchronizer_moves n c (some (busy x)) =
      put_world (record c { synchronizers = set_worker n idle c.synchronizers })
        (process crypto plus wq c.process.settings x c.watcher.handler.synchronizer)

  unfoldable pub move : Move → Exec CrewState Unit
  unfolding worker_at set_worker
  move (called a call) c = after_call c (step crypto plus events wq a (seen_as c [] []))
  move (handler_turn n) c = handler_moves n c (worker_at n c.handlers)
  move (synchronizer_turn n) c = synchronizer_moves n c (worker_at n c.synchronizers)

  -- The moves in order, up to the first panic.
  unfoldable pub moves : List Move → Exec CrewState Unit
  unfolding move
  moves [] = pure tt
  moves (m ∷ more) = do move m; moves more
