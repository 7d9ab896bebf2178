-- ===== src/System/Crew/Runs.antt =====
-- Every run of the crew is one of System, with no more items in work than there are threads.
use nginx_k8s_loadbalancer.Base.{
  ℕ, ap₂, ◌≤◌, ◌≡◌, refl, sym, ap, ◌∙◌, subst, inl, inr, List, [], ◌∷◌, length, arith,
}
use nginx_k8s_loadbalancer.Base.Insertion.Arranged.{Arranged, nothing, length-Arranged}
use nginx_k8s_loadbalancer.Result.{Result, ok, err, panic}
use nginx_k8s_loadbalancer.Exec.{continue}
use nginx_k8s_loadbalancer.Configuration.Settings.{Settings}
use nginx_k8s_loadbalancer.Core.{Event, ServerUpdateEvent}
use nginx_k8s_loadbalancer.Authentication.{Crypto, TlsConfig}
use nginx_k8s_loadbalancer.WorkQueue.{WorkQueue, Ref}
use nginx_k8s_loadbalancer.Workers.Tasks.{tasks, length-tasks, length-spawn, tasks-spawn}
use nginx_k8s_loadbalancer.Synchronization.World.{NginxPlus}
use nginx_k8s_loadbalancer.Synchronization.Worker
use nginx_k8s_loadbalancer.Observation.Handler
use nginx_k8s_loadbalancer.System.{Action, State, step, steps}
use nginx_k8s_loadbalancer.System.Crew.{
  Move, called, handler_turn, synchronizer_turn, CrewState, seen_as, move, moves,
}
use nginx_k8s_loadbalancer.System.Crew.Sizes.{sizes, sizes-moves}
use nginx_k8s_loadbalancer.System.Crew.Calls.{IsTurn, IsMove, Holds}
use nginx_k8s_loadbalancer.System.Crew.Simulation.{move-Simulated}

-- The actions stand for the moves, in their order: each call for itself, and each turn for an action of
-- such a worker, or for none.
pub data Realizes : List Move → List Action → Type 0 where
  all_done : Realizes [] []
  moved :
      {ms : List Move} {actions : List Action} (m : Move) (a : Action)
      → IsMove m a
      → Realizes ms actions
      → Realizes (m ∷ ms) (a ∷ actions)
  passed :
      {ms : List Move} {actions : List Action} (m : Move)
      → IsTurn m
      → Realizes ms actions
      → Realizes (m ∷ ms) actions

-- The calls alone.
abbrev pub calls : List Move → List Action
calls [] = []
calls (called a call ∷ ms) = a ∷ calls ms
calls (handler_turn n ∷ ms) = calls ms
calls (synchronizer_turn n ∷ ms) = calls ms

-- They stand for moves that are not made after a panic.
calls-Realizes : (ms : List Move) → Realizes ms (calls ms)
calls-Realizes [] = all_done
calls-Realizes (called a call ∷ ms) = moved (called a call) a refl (calls-Realizes ms)
calls-Realizes (handler_turn n ∷ ms) = passed (handler_turn n) tt (calls-Realizes ms)
calls-Realizes (synchronizer_turn n ∷ ms) = passed (synchronizer_turn n) tt (calls-Realizes ms)

module _ {Cert KeyPair W : Type 0} (crypto : Crypto Cert KeyPair)
    (plus : NginxPlus (TlsConfig Cert KeyPair) W) (events : WorkQueue (Ref Event))
    (wq : WorkQueue (Ref ServerUpdateEvent)) where
  -- A run of the crew, with a run of System that has the same result.
  abbrev Covered :
      List Move
      → State crypto plus events wq
      → Result (Unit {0}) × CrewState crypto plus events wq
      → Type 0
  Covered ms s (r, c) =
      (actions : List Action) × (handling : List (Ref Event)) × (sending : List
        (Ref ServerUpdateEvent))
      × Realizes ms actions
      × (steps crypto plus events wq actions s
          ≡ (r, seen_as crypto plus events wq c handling sending))
      × Holds crypto plus events wq c handling sending

  -- One action, and then a run from where it leads to, unless the action ended the program.
  then_Covered :
      (m : Move) (a : Action) (ms : List Move) (s : State crypto plus events wq)
      (r : Result (Unit {0})) (c : CrewState crypto plus events wq) (h : List (Ref Event))
      (k : List (Ref ServerUpdateEvent))
      → IsMove m a
      → step crypto plus events wq a s ≡ (r, seen_as crypto plus events wq c h k)
      → Holds crypto plus events wq c h k
      → Covered ms (seen_as crypto plus events wq c h k) (moves crypto plus events wq ms c)
      → Covered (m ∷ ms) s (continue r (λ _. moves crypto plus events wq ms) c)
  unfolding steps
  then_Covered m a ms s (ok u) c h k is stepped holds (actions, h', k', real, same, holds') =
      (a ∷ actions, h', k', moved m a is real, rw stepped same, holds')
  then_Covered m a ms s (err e) c h k is stepped holds later =
      (a ∷ calls ms, h, k, moved m a is (calls-Realizes ms), rw stepped refl, holds)
  then_Covered m a ms s (panic p) c h k is stepped holds later =
      (a ∷ calls ms, h, k, moved m a is (calls-Realizes ms), rw stepped refl, holds)

  moves-Covered :
      (ms : List Move) (c : CrewState crypto plus events wq) (h : List (Ref Event))
      (k : List (Ref ServerUpdateEvent))
      → Holds crypto plus events wq c h k
      → Covered ms (seen_as crypto plus events wq c h k) (moves crypto plus events wq ms c)
  unfolding moves
  moves-Covered [] c h k holds = ([], h, k, all_done, unfold steps in refl, holds)
  moves-Covered (m ∷ ms) c h k holds = elim (move-Simulated crypto plus events wq m c h k holds) [
    | inl (turn, stays) ↦
        let (actions, h', k', real, same, holds') = moves-Covered ms c h k holds in
        rw stays (actions, h', k', passed m turn real, same, holds')
    | inr (a, is, h', k', stepped, holds') ↦
        let (r, c') = move crypto plus events wq m c in
        then_Covered m a ms (seen_as crypto plus events wq c h k) r c' h' k' is stepped holds'
          (moves-Covered ms c' h' k' holds')
  ]

  -- No more items in work than workers.
  Holds-le :
      (c : CrewState crypto plus events wq) (h : List (Ref Event))
      (k : List (Ref ServerUpdateEvent)) (n m : ℕ)
      → sizes crypto plus events wq c ≡ (n, m)
      → Holds crypto plus events wq c h k
      → (length h ≤ n) × (length k ≤ m)
  Holds-le c h k n m same holds =
      let handlers = length-tasks c.handlers in
      let synchronizers = length-tasks c.synchronizers in
      let handled = length-Arranged holds.handled in
      let sent = length-Arranged holds.sent in
      let first : length c.handlers ≡ n = cc in
      let second : length c.synchronizers ≡ m = cc in (omega arith, omega arith)

-- The program as it is started: with as many workers of the handler and of the synchronizer as the
-- settings have threads for them, and nothing in work. Whatever happens next, in whatever order, up to
-- a panic if there is one: the goroutines of System can do the same, each call of an informer for
-- itself and each turn of a worker by one action of such a worker or by none, with the same result,
-- the same settings, queues and world outside, and with the workers' items in work; and no more items
-- of each kind are in work than there are threads for them.
pub moves-Realized :
    {Cert KeyPair W : Type 0} (crypto : Crypto Cert KeyPair)
    (plus : NginxPlus (TlsConfig Cert KeyPair) W) (events : WorkQueue (Ref Event))
    (wq : WorkQueue (Ref ServerUpdateEvent)) (settings : Settings)
    (c : CrewState crypto plus events wq) (ms : List Move)
    → c.handlers ≡ Handler.run settings
    → c.synchronizers ≡ Worker.run settings
    → (actions : List Action) × (handling : List (Ref Event)) × (sending : List
        (Ref ServerUpdateEvent))
      × Realizes ms actions
      × (steps crypto plus events wq actions (seen_as crypto plus events wq c [] []) ≡ (
        (moves crypto plus events wq ms c).0,
        seen_as crypto plus events wq (moves crypto plus events wq ms c).1 handling sending,
      ))
      × Holds crypto plus events wq (moves crypto plus events wq ms c).1 handling sending
      × (length handling ≤ settings.handler.threads)
      × (length sending ≤ settings.synchronizer.threads)
unfolding Handler.run Worker.run
moves-Realized crypto plus events wq settings c ms handlers synchronizers =
    let none_handled : tasks c.handlers ≡ [] =
      ap tasks handlers ∙ tasks-spawn (Ref Event) settings.handler.threads in
    let none_sent : tasks c.synchronizers ≡ [] =
      ap tasks synchronizers ∙ tasks-spawn (Ref ServerUpdateEvent) settings.synchronizer.threads in
    let (actions, h, k, real, same, holds) =
      moves-Covered crypto plus events wq ms c [] [] (record {
        handled = subst (λ l. Arranged l []) (sym none_handled) nothing;
        sent = subst (λ l. Arranged l []) (sym none_sent) nothing;
      }) in
    let (few, few') =
      Holds-le crypto plus events wq (moves crypto plus events wq ms c).1 h k
        settings.handler.threads settings.synchronizer.threads
        (sizes-moves crypto plus events wq ms c
          ∙ ap₂ (λ n m. (n, m))
              (ap length handlers ∙ length-spawn (Ref Event) settings.handler.threads)
              (ap length synchronizers
                ∙ length-spawn (Ref ServerUpdateEvent) settings.synchronizer.threads))
        holds in
    (actions, h, k, real, same, holds, few, few')
