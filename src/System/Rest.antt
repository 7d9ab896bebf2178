-- ===== src/System/Rest.antt =====
-- Once the informers are silent, the workers come to rest.
pub mod Reached
use nginx_k8s_loadbalancer.Base.{
  [], List-cases, Acc, ℕ, zero, suc, ◌<◌, String, ◌≡◌, refl, some, List, ◌⊎◌, inl, inr, arith,
}
use nginx_k8s_loadbalancer.Core.{Event, ServerUpdateEvent}
use nginx_k8s_loadbalancer.Authentication.{Crypto, TlsConfig}
use nginx_k8s_loadbalancer.WorkQueue.{
  WorkQueue, CountsRequeues, HoldsOnlyAdded, HasBacklog, item, quit, Got-cases, Ref,
}
use nginx_k8s_loadbalancer.Synchronization.World.{NginxPlus}
use nginx_k8s_loadbalancer.System.{
  event_taken, change_taken, event_handled, change_sent, State, step, take_at,
}
use nginx_k8s_loadbalancer.System.Load.{
  event_load, change_load, Lower, event_taken-Lower, event_handled-Lower, change_taken-Lower,
  change_sent-Lower,
}
use nginx_k8s_loadbalancer.System.Invariant.{IsSound}
use nginx_k8s_loadbalancer.System.Moves.{event_taken-Keeps, change_taken-Keeps}
use nginx_k8s_loadbalancer.System.Turns.{event_handled-Keeps, change_sent-Keeps}

-- The program after a worker has taken an item that its queue gave, or has finished one that it had in
-- work.
pub data Follows {Cert KeyPair W : Type 0} (crypto : Crypto Cert KeyPair)
    (plus : NginxPlus (TlsConfig Cert KeyPair) W) (events : WorkQueue (Ref Event))
    (wq : WorkQueue (Ref ServerUpdateEvent)) (s : State crypto plus events wq)
    : State crypto plus events wq → Type 0 where
  takes_event :
      (x : Ref Event) (q : events.Queue)
      → events.get s.watcher.handler.event_queue ≡ item x q
      → Follows crypto plus events wq s (step crypto plus events wq event_taken s).1
  handles_event :
      (n : ℕ) (x : Ref Event) (left : List (Ref Event))
      → take_at n s.handling ≡ some (x, left)
      → Follows crypto plus events wq s (step crypto plus events wq (event_handled n) s).1
  takes_change :
      (x : Ref ServerUpdateEvent) (q : wq.Queue)
      → wq.get s.watcher.handler.synchronizer.queue ≡ item x q
      → Follows crypto plus events wq s (step crypto plus events wq change_taken s).1
  sends_change :
      (n : ℕ) (x : Ref ServerUpdateEvent) (left : List (Ref ServerUpdateEvent))
      → take_at n s.sending ≡ some (x, left)
      → Follows crypto plus events wq s (step crypto plus events wq (change_sent n) s).1

module _ {Cert KeyPair W : Type 0} (crypto : Crypto Cert KeyPair)
    (plus : NginxPlus (TlsConfig Cert KeyPair) W) (events : WorkQueue (Ref Event))
    (wq : WorkQueue (Ref ServerUpdateEvent)) (laws : CountsRequeues wq)
    (pending : HasBacklog events) (backlogs : HasBacklog wq) where
  module _ (held : HoldsOnlyAdded events) (holds : HoldsOnlyAdded wq) (Expected : Event → Type 0)
      (known : List String) (s : State crypto plus events wq)
      (sound : IsSound held holds Expected known s) where
    -- Each turn of a worker leaves less to do, and a sound program.
    Follows-Lower :
        (s' : State crypto plus events wq)
        → Follows crypto plus events wq s s'
        → Lower crypto plus events wq laws pending backlogs s' s
          × IsSound held holds Expected known s'
    Follows-Lower s' (takes_event x q got) = (
      event_taken-Lower crypto plus events wq laws pending backlogs held holds Expected known s
          sound x q got,
      (event_taken-Keeps crypto plus events wq held holds Expected known s sound).1,
    )
    Follows-Lower s' (handles_event n x left found) = (
      event_handled-Lower crypto plus events wq laws pending backlogs held holds Expected known s
          sound n x left found,
      (event_handled-Keeps crypto plus events wq held holds Expected known s sound n).1,
    )
    Follows-Lower s' (takes_change x q got) = (
      change_taken-Lower crypto plus events wq laws pending backlogs held holds Expected known s
          sound x q got,
      (change_taken-Keeps crypto plus events wq held holds Expected known s sound).1,
    )
    Follows-Lower s' (sends_change n x left found) = (
      change_sent-Lower crypto plus events wq laws pending backlogs held holds Expected known s
          sound n x left found,
      (change_sent-Keeps crypto plus events wq held holds Expected known s sound n).1,
    )

    pub Follows-IsSound :
        (s' : State crypto plus events wq)
        → Follows crypto plus events wq s s'
        → IsSound held holds Expected known s'
    Follows-IsSound s' follows = (Follows-Lower s' follows).1

  Acc-within :
      (held : HoldsOnlyAdded events) (holds : HoldsOnlyAdded wq) (Expected : Event → Type 0)
      (known : List String) (event_bound change_bound : ℕ) (s : State crypto plus events wq)
      → IsSound held holds Expected known s
      → event_load crypto plus events wq laws pending backlogs s < event_bound
      → change_load crypto plus events wq laws pending backlogs s < change_bound
      → Acc (λ s' s. Follows crypto plus events wq s s') s
  Acc-within held holds Expected known zero m s sound less less' = absurd (omega arith)
  Acc-within held holds Expected known (suc n) zero s sound less less' = absurd (omega arith)
  Acc-within held holds Expected known (suc n) (suc m) s sound less less' =
      Acc.intro s (λ s' follows.
        let (lower, next) = Follows-Lower held holds Expected known s sound s' follows in
        elim lower [
          | inl fewer ↦
              Acc-within held holds Expected known n
                (suc (change_load crypto plus events wq laws pending backlogs s')) s' next
                (omega arith) (omega arith)
          | inr (same, fewer) ↦
              Acc-within held holds Expected known (suc n) m s' next (omega arith) (omega arith)
        ])

-- Once the informers are silent, the workers come to rest: from a sound program there is no endless
-- sequence of turns in which a worker of the handler or of the synchronizer takes an item that its
-- queue gives, or finishes one that it has in work, however many workers take turns, in whatever
-- order, and whatever NGINX Plus answers.
pub Acc-Follows :
    {Cert KeyPair W : Type 0} (crypto : Crypto Cert KeyPair)
    (plus : NginxPlus (TlsConfig Cert KeyPair) W) (events : WorkQueue (Ref Event))
    (wq : WorkQueue (Ref ServerUpdateEvent)) (laws : CountsRequeues wq)
    (pending : HasBacklog events) (backlogs : HasBacklog wq) (held : HoldsOnlyAdded events)
    (holds : HoldsOnlyAdded wq) (Expected : Event → Type 0) (known : List String)
    (s : State crypto plus events wq)
    → IsSound held holds Expected known s
    → Acc (λ s' s. Follows crypto plus events wq s s') s
Acc-Follows crypto plus events wq laws pending backlogs held holds Expected known s sound =
    Acc-within crypto plus events wq laws pending backlogs held holds Expected known
      (suc (event_load crypto plus events wq laws pending backlogs s))
      (suc (change_load crypto plus events wq laws pending backlogs s)) s sound (omega arith)
      (omega arith)
