-- ===== src/System/Crew/Sizes.antt =====
-- The workers stay as many as were started.
use nginx_k8s_loadbalancer.Base.{ℕ, ◌≡◌, refl, ap, ◌∙◌, Option, none, some, List, [], ◌∷◌, length}
use nginx_k8s_loadbalancer.Exec.Rules.{bind_frame}
use nginx_k8s_loadbalancer.Core.{Event, ServerUpdateEvent}
use nginx_k8s_loadbalancer.Authentication.{Crypto, TlsConfig}
use nginx_k8s_loadbalancer.WorkQueue.{WorkQueue, Got, item, quit, blocked, Ref}
use nginx_k8s_loadbalancer.Workers.{Worker, idle, busy, worker_at, set_worker}
use nginx_k8s_loadbalancer.Workers.Tasks.{length-set_worker}
use nginx_k8s_loadbalancer.Synchronization.World.{NginxPlus}
use nginx_k8s_loadbalancer.Synchronization.Worker.{Turn, waiting, returned, panicked, process}
use nginx_k8s_loadbalancer.Observation.Handler
use nginx_k8s_loadbalancer.Observation.Handler.{conclude}
use nginx_k8s_loadbalancer.Pipeline.{synchronizer}
use nginx_k8s_loadbalancer.System.{HandlerPart, WorldPart}
use nginx_k8s_loadbalancer.System.Crew.{
  Move, called, handler_turn, synchronizer_turn, CrewState, put_handler, put_world, handler_gets,
  synchronizer_gets, handler_moves, synchronizer_moves, move, moves,
}

module _ {Cert KeyPair W : Type 0} (crypto : Crypto Cert KeyPair)
    (plus : NginxPlus (TlsConfig Cert KeyPair) W) (events : WorkQueue (Ref Event))
    (wq : WorkQueue (Ref ServerUpdateEvent)) where
  abbrev pub sizes : CrewState crypto plus events wq → ℕ × ℕ
  sizes c = (length c.handlers, length c.synchronizers)

  sizes-put_handler :
      (c : CrewState crypto plus events wq) (t : Turn (HandlerPart crypto plus events wq))
      → sizes (put_handler crypto plus events wq c t).1 ≡ sizes c
  sizes-put_handler c waiting = refl
  sizes-put_handler c (returned more h) = refl
  sizes-put_handler c (panicked p h) = refl

  sizes-put_world :
      (c : CrewState crypto plus events wq) (t : Turn (WorldPart crypto plus events wq))
      → sizes (put_world crypto plus events wq c t).1 ≡ sizes c
  sizes-put_world c waiting = refl
  sizes-put_world c (returned more w) = refl
  sizes-put_world c (panicked p w) = refl

  -- One worker is replaced.
  handler_set :
      (n : ℕ) (v : Worker (Ref Event)) (c : CrewState crypto plus events wq)
      → (length (set_worker n v c.handlers), length c.synchronizers) ≡ sizes c
  handler_set n v c = ap (λ m. (m, length c.synchronizers)) (length-set_worker n v c.handlers)

  synchronizer_set :
      (n : ℕ) (v : Worker (Ref ServerUpdateEvent)) (c : CrewState crypto plus events wq)
      → (length c.handlers, length (set_worker n v c.synchronizers)) ≡ sizes c
  synchronizer_set n v c = ap (λ m. (length c.handlers, m)) (length-set_worker n v c.synchronizers)

  sizes-handler_gets :
      (n : ℕ) (c : CrewState crypto plus events wq) (g : Got events.Queue (Ref Event))
      → sizes (handler_gets crypto plus events wq n c g) ≡ sizes c
  sizes-handler_gets n c (item x q) = handler_set n (busy x) c
  sizes-handler_gets n c quit = refl
  sizes-handler_gets n c blocked = refl

  sizes-synchronizer_gets :
      (n : ℕ) (c : CrewState crypto plus events wq) (g : Got wq.Queue (Ref ServerUpdateEvent))
      → sizes (synchronizer_gets crypto plus events wq n c g) ≡ sizes c
  sizes-synchronizer_gets n c (item x q) = synchronizer_set n (busy x) c
  sizes-synchronizer_gets n c quit = refl
  sizes-synchronizer_gets n c blocked = refl

  sizes-handler_moves :
      (n : ℕ) (c : CrewState crypto plus events wq) (o : Option (Worker (Ref Event)))
      → sizes (handler_moves crypto plus events wq n c o).1 ≡ sizes c
  sizes-handler_moves n c none = refl
  sizes-handler_moves n c (some idle) =
      sizes-handler_gets n c (events.get c.watcher.handler.event_queue)
  sizes-handler_moves n c (some (busy x)) =
      sizes-put_handler (record c { handlers = set_worker n idle c.handlers })
        (conclude events c.process.settings (synchronizer wq c.process.settings) x
          (Handler.handle_event (synchronizer wq c.process.settings) x.value c.watcher.handler))
      ∙ handler_set n idle c

  sizes-synchronizer_moves :
      (n : ℕ) (c : CrewState crypto plus events wq) (o : Option (Worker (Ref ServerUpdateEvent)))
      → sizes (synchronizer_moves crypto plus events wq n c o).1 ≡ sizes c
  sizes-synchronizer_moves n c none = refl
  sizes-synchronizer_moves n c (some idle) =
      sizes-synchronizer_gets n c (wq.get c.watcher.handler.synchronizer.queue)
  sizes-synchronizer_moves n c (some (busy x)) =
      sizes-put_world (record c { synchronizers = set_worker n idle c.synchronizers })
        (process crypto plus wq c.process.settings x c.watcher.handler.synchronizer)
      ∙ synchronizer_set n idle c

  sizes-move :
      (m : Move) (c : CrewState crypto plus events wq)
      → sizes (move crypto plus events wq m c).1 ≡ sizes c
  unfolding move
  sizes-move (called a call) c = refl
  sizes-move (handler_turn n) c = sizes-handler_moves n c (worker_at n c.handlers)
  sizes-move (synchronizer_turn n) c = sizes-synchronizer_moves n c (worker_at n c.synchronizers)

  pub sizes-moves :
      (ms : List Move) (c : CrewState crypto plus events wq)
      → sizes (moves crypto plus events wq ms c).1 ≡ sizes c
  unfolding moves
  sizes-moves [] c = refl
  sizes-moves (m ∷ ms) c =
      bind_frame sizes (move crypto plus events wq m) (λ _. moves crypto plus events wq ms) c
        (sizes-move m c) (λ _. sizes-moves ms (move crypto plus events wq m c).1)
