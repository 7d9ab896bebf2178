-- ===== src/System/Crew/Simulation.antt =====
-- What the crew of workers does, the goroutines of System can do.
use nginx_k8s_loadbalancer.Base.{ℕ, suc, ◌≡◌, refl, ◌⊎◌, inl, inr, Option, none, some, List, ◌∷◌}
use nginx_k8s_loadbalancer.Base.Insertion.{Inserted, first, later}
use nginx_k8s_loadbalancer.Base.Insertion.Arranged.{one_more, Arranged-taken}
use nginx_k8s_loadbalancer.Result.{ok}
use nginx_k8s_loadbalancer.Core.{Event, ServerUpdateEvent}
use nginx_k8s_loadbalancer.Authentication.{Crypto, TlsConfig}
use nginx_k8s_loadbalancer.WorkQueue.{WorkQueue, Got, item, quit, blocked, Ref}
use nginx_k8s_loadbalancer.Workers.{Worker, idle, busy, worker_at, set_worker}
use nginx_k8s_loadbalancer.Workers.Tasks.{tasks-set_busy, tasks-set_idle}
use nginx_k8s_loadbalancer.Synchronization.World.{NginxPlus}
use nginx_k8s_loadbalancer.Synchronization.Worker.{Turn, waiting, returned, panicked, process}
use nginx_k8s_loadbalancer.Observation.Handler
use nginx_k8s_loadbalancer.Observation.Handler.{conclude}
use nginx_k8s_loadbalancer.Pipeline.{synchronizer}
use nginx_k8s_loadbalancer.System
use nginx_k8s_loadbalancer.System.{
  Action, noticed, configured, certified, event_taken, change_taken, watch_ended, event_handled,
  change_sent, State, HandlerPart, WorldPart, step, steps, take_at,
}
use nginx_k8s_loadbalancer.System.Crew.{
  Move, called, handler_turn, synchronizer_turn, CrewState, seen_as, put_handler, put_world,
  handler_gets, synchronizer_gets, handler_moves, synchronizer_moves, move,
}
use nginx_k8s_loadbalancer.System.Crew.Calls.{IsTurn, Holds, Simulated, as_seen, called-Simulated}

worker-cases :
    {A : Type 0} (o : Option (Worker A))
    → (o ≡ none) ⊎ ((o ≡ some idle) ⊎ ((x : A) × (o ≡ some (busy x))))
worker-cases none = inl refl
worker-cases (some idle) = inr (inl refl)
worker-cases (some (busy x)) = inr (inr (x, refl))

-- A member of a list stands at some index.
Inserted-take_at :
    {A : Type 0} {x : A} {left xs : List A}
    → Inserted x left xs
    → (n : ℕ) × (take_at n xs ≡ some (x, left))
unfolding take_at
Inserted-take_at (first xs) = (0, refl)
Inserted-take_at (later y inserted) =
    let (n, found) = Inserted-take_at inserted in (suc n, rw found refl)

module _ {Cert KeyPair W : Type 0} (crypto : Crypto Cert KeyPair)
    (plus : NginxPlus (TlsConfig Cert KeyPair) W) (events : WorkQueue (Ref Event))
    (wq : WorkQueue (Ref ServerUpdateEvent)) where
  module _ (c : CrewState crypto plus events wq) (h : List (Ref Event))
      (k : List (Ref ServerUpdateEvent)) (holds : Holds crypto plus events wq c h k) where
    handler_gets-Simulated :
        (n : ℕ) (g : Got events.Queue (Ref Event))
        → worker_at n c.handlers ≡ some idle
        → events.get c.watcher.handler.event_queue ≡ g
        → Simulated crypto plus events wq
            (handler_turn n)
            c
            h
            k
            (ok tt, handler_gets crypto plus events wq n c g)
    unfolding step
    handler_gets-Simulated n (item x q) found got = (
      event_taken,
      tt,
      x ∷ h,
      k,
      rw got refl,
      record {
        handled = one_more (tasks-set_busy n x c.handlers found) (first h) holds.handled;
        sent = holds.sent;
      },
    )
    handler_gets-Simulated n quit found got = (event_taken, tt, h, k, rw got refl, holds)
    handler_gets-Simulated n blocked found got = (event_taken, tt, h, k, rw got refl, holds)

    synchronizer_gets-Simulated :
        (n : ℕ) (g : Got wq.Queue (Ref ServerUpdateEvent))
        → worker_at n c.synchronizers ≡ some idle
        → wq.get c.watcher.handler.synchronizer.queue ≡ g
        → Simulated crypto plus events wq
            (synchronizer_turn n)
            c
            h
            k
            (ok tt, synchronizer_gets crypto plus events wq n c g)
    unfolding step
    synchronizer_gets-Simulated n (item x q) found got = (
      change_taken,
      tt,
      h,
      x ∷ k,
      rw got refl,
      record {
        handled = holds.handled;
        sent = one_more (tasks-set_busy n x c.synchronizers found) (first k) holds.sent;
      },
    )
    synchronizer_gets-Simulated n quit found got = (change_taken, tt, h, k, rw got refl, holds)
    synchronizer_gets-Simulated n blocked found got = (change_taken, tt, h, k, rw got refl, holds)

    put_handler-seen :
        (t : Turn (HandlerPart crypto plus events wq))
        → (System.put_handler crypto plus events wq (seen_as crypto plus events wq c h k) t
            ≡ as_seen crypto plus events wq c h k holds (put_handler crypto plus events wq c t))
          × Holds crypto plus events wq (put_handler crypto plus events wq c t).1 h k
    put_handler-seen waiting = (refl, holds)
    put_handler-seen (returned more v) =
        (refl, record { handled = holds.handled; sent = holds.sent })
    put_handler-seen (panicked p v) = (refl, record { handled = holds.handled; sent = holds.sent })

    put_world-seen :
        (t : Turn (WorldPart crypto plus events wq))
        → (System.put_world crypto plus events wq (seen_as crypto plus events wq c h k) t
            ≡ as_seen crypto plus events wq c h k holds (put_world crypto plus events wq c t))
          × Holds crypto plus events wq (put_world crypto plus events wq c t).1 h k
    put_world-seen waiting = (refl, holds)
    put_world-seen (returned more v) = (refl, record { handled = holds.handled; sent = holds.sent })
    put_world-seen (panicked p v) = (refl, record { handled = holds.handled; sent = holds.sent })

  -- A worker that finishes.
  handler_done-Simulated :
      (c : CrewState crypto plus events wq) (h : List (Ref Event))
      (k : List (Ref ServerUpdateEvent)) (n : ℕ) (x : Ref Event)
      → Holds crypto plus events wq c h k
      → worker_at n c.handlers ≡ some (busy x)
      → Simulated crypto plus events wq
          (handler_turn n)
          c
          h
          k
          (handler_moves crypto plus events wq n c (some (busy x)))
  unfolding step
  handler_done-Simulated c h k n x holds found =
      let c' : CrewState crypto plus events wq = record c {
        handlers = set_worker n idle c.handlers;
      } in
      let (left, out, arranged) =
        Arranged-taken holds.handled (tasks-set_idle n x c.handlers found) in
      let (i, at_i) = Inserted-take_at out in
      let (same, holds') =
        put_handler-seen c' left k (record { handled = arranged; sent = holds.sent })
          (conclude events c.process.settings (synchronizer wq c.process.settings) x (
            Handler.handle_event (synchronizer wq c.process.settings) x.value c.watcher.handler)) in
      (event_handled i, tt, left, k, rw at_i same, holds')

  synchronizer_done-Simulated :
      (c : CrewState crypto plus events wq) (h : List (Ref Event))
      (k : List (Ref ServerUpdateEvent)) (n : ℕ) (x : Ref ServerUpdateEvent)
      → Holds crypto plus events wq c h k
      → worker_at n c.synchronizers ≡ some (busy x)
      → Simulated crypto plus events wq
          (synchronizer_turn n)
          c
          h
          k
          (synchronizer_moves crypto plus events wq n c (some (busy x)))
  unfolding step
  synchronizer_done-Simulated c h k n x holds found =
      let c' : CrewState crypto plus events wq = record c {
        synchronizers = set_worker n idle c.synchronizers;
      } in
      let (left, out, arranged) =
        Arranged-taken holds.sent (tasks-set_idle n x c.synchronizers found) in
      let (i, at_i) = Inserted-take_at out in
      let (same, holds') =
        put_world-seen c' h left (record { handled = holds.handled; sent = arranged })
          (process crypto plus wq c.process.settings x c.watcher.handler.synchronizer) in
      (change_sent i, tt, h, left, rw at_i same, holds')

  -- A move with no worker does nothing; any other stands for an action.
  pub move-Simulated :
      (m : Move) (c : CrewState crypto plus events wq) (h : List (Ref Event))
      (k : List (Ref ServerUpdateEvent))
      → Holds crypto plus events wq c h k
      → (IsTurn m × (move crypto plus events wq m c ≡ (ok tt, c)))
        ⊎ Simulated crypto plus events wq m c h k (move crypto plus events wq m c)
  unfolding move
  move-Simulated (called a call) c h k holds =
      inr (called-Simulated crypto plus events wq c h k holds a call)
  move-Simulated (handler_turn n) c h k holds = elim (worker-cases (worker_at n c.handlers)) [
    | inl missing ↦ inl (tt, rw missing refl)
    | inr (inl waits) ↦ inr (rw waits (handler_gets-Simulated c h k holds n _ waits refl))
    | inr (inr (x, works)) ↦ inr (rw works (handler_done-Simulated c h k n x holds works))
  ]
  move-Simulated (synchronizer_turn n) c h k holds =
      elim (worker-cases (worker_at n c.synchronizers)) [
        | inl missing ↦ inl (tt, rw missing refl)
        | inr (inl waits) ↦ inr (rw waits (synchronizer_gets-Simulated c h k holds n _ waits refl))
        | inr (inr (x, works)) ↦ inr (rw works (synchronizer_done-Simulated c h k n x holds works))
      ]
