-- ===== src/System/Rest/Reached.antt =====
-- The turns of the workers lead to a program at rest.
use nginx_k8s_loadbalancer.Base.{[], List-cases, Acc, String, ◌≡◌, refl, List, ◌⊎◌, inl, inr}
use nginx_k8s_loadbalancer.Core.{Event, ServerUpdateEvent}
use nginx_k8s_loadbalancer.Authentication.{Crypto, TlsConfig}
use nginx_k8s_loadbalancer.WorkQueue.{
  WorkQueue, CountsRequeues, HoldsOnlyAdded, HasBacklog, quit, Got-cases, Ref,
}
use nginx_k8s_loadbalancer.Synchronization.World.{NginxPlus}
use nginx_k8s_loadbalancer.System.{State, take_at}
use nginx_k8s_loadbalancer.System.Invariant.{IsSound}
use nginx_k8s_loadbalancer.System.Rest.{
  Follows, takes_event, handles_event, takes_change, sends_change, Follows-IsSound, Acc-Follows,
}

-- Nothing is in work, and each queue was shut down, or has nothing left to give.
pub record IsAtRest {Cert KeyPair W : Type 0} (crypto : Crypto Cert KeyPair)
    (plus : NginxPlus (TlsConfig Cert KeyPair) W) (events : WorkQueue (Ref Event))
    (wq : WorkQueue (Ref ServerUpdateEvent)) (pending : HasBacklog events)
    (backlogs : HasBacklog wq) (s : State crypto plus events wq) : Type 0 where
  pub handled : s.handling ≡ []
  pub sent : s.sending ≡ []
  pub no_event :
      (events.get s.watcher.handler.event_queue ≡ quit)
      ⊎ (pending.backlog s.watcher.handler.event_queue ≡ [])
  pub no_change :
      (wq.get s.watcher.handler.synchronizer.queue ≡ quit)
      ⊎ (backlogs.backlog s.watcher.handler.synchronizer.queue ≡ [])

-- Any number of turns of the workers.
pub data Leads {Cert KeyPair W : Type 0} (crypto : Crypto Cert KeyPair)
    (plus : NginxPlus (TlsConfig Cert KeyPair) W) (events : WorkQueue (Ref Event))
    (wq : WorkQueue (Ref ServerUpdateEvent))
    : State crypto plus events wq → State crypto plus events wq → Type 0 where
  here : (s : State crypto plus events wq) → Leads crypto plus events wq s s
  turn :
      {s m s' : State crypto plus events wq}
      → Follows crypto plus events wq s m
      → Leads crypto plus events wq m s'
      → Leads crypto plus events wq s s'

module _ {Cert KeyPair W : Type 0} (crypto : Crypto Cert KeyPair)
    (plus : NginxPlus (TlsConfig Cert KeyPair) W) (events : WorkQueue (Ref Event))
    (wq : WorkQueue (Ref ServerUpdateEvent)) (laws : CountsRequeues wq)
    (pending : HasBacklog events) (backlogs : HasBacklog wq) where
  -- A worker can take a turn, or the program is at rest.
  turn_or_rest :
      (s : State crypto plus events wq)
      → IsAtRest crypto plus events wq pending backlogs s
        ⊎ ((s' : State crypto plus events wq) × Follows crypto plus events wq s s')
  unfolding take_at
  turn_or_rest s = elim (List-cases s.handling) [
    | inr (x, left, some_left) ↦ inr (_, handles_event 0 x left (rw some_left refl))
    | inl handled ↦ elim (List-cases s.sending) [
      | inr (x, left, some_left) ↦ inr (_, sends_change 0 x left (rw some_left refl))
      | inl sent ↦ elim (Got-cases (events.get s.watcher.handler.event_queue)) [
        | inl (x, q, got) ↦ inr (_, takes_event x q got)
        | inr no_event ↦ elim (Got-cases (wq.get s.watcher.handler.synchronizer.queue)) [
          | inl (x, q, got) ↦ inr (_, takes_change x q got)
          | inr no_change ↦ inl (record {
            handled = handled;
            sent = sent;
            no_event = elim no_event [
              | inl ended ↦ inl ended
              | inr nothing ↦ inr (pending.at_rest s.watcher.handler.event_queue nothing)
            ];
            no_change = elim no_change [
              | inl ended ↦ inl ended
              | inr nothing ↦ inr (backlogs.at_rest s.watcher.handler.synchronizer.queue nothing)
            ];
          })
        ]
      ]
    ]
  ]

  module _ (held : HoldsOnlyAdded events) (holds : HoldsOnlyAdded wq) (Expected : Event → Type 0)
      (known : List String) where
    Leads-IsSound :
        (s m : State crypto plus events wq)
        → Leads crypto plus events wq s m
        → IsSound held holds Expected known s
        → IsSound held holds Expected known m
    Leads-IsSound s m (here same) sound = sound
    Leads-IsSound s m (turn {m = next} follows leads) sound = Leads-IsSound next m leads (
        Follows-IsSound crypto plus events wq laws pending backlogs held holds Expected known s
          sound next follows)

    -- The end that the turns from a sound program come to.
    End : State crypto plus events wq → Type 0
    End s =
        (s' : State crypto plus events wq) × Leads crypto plus events wq s s'
        × IsAtRest crypto plus events wq pending backlogs s'
        × IsSound held holds Expected known s'

    finish :
        (s : State crypto plus events wq)
        → Acc (λ s' s. Follows crypto plus events wq s s') s
        → IsSound held holds Expected known s
        → End s
    unfolding End
    finish s (Acc.intro same below) sound = elim (turn_or_rest s) [
      | inl rest ↦ (s, here s, rest, sound)
      | inr (next, follows) ↦
          let (s', leads, rest, sound') = finish next (below next follows) (
            Follows-IsSound crypto plus events wq laws pending backlogs held holds Expected known s
              sound next follows) in
          (s', turn follows leads, rest, sound')
    ]

-- All work gets done: once the informers are silent, and whatever turns the workers of a sound program
-- have taken, in whatever order and with whatever answers of NGINX Plus, turns are left to them that
-- lead to a sound program at which nothing is in work, and each queue was shut down or has nothing left
-- to give.
pub Leads-IsAtRest :
    {Cert KeyPair W : Type 0} (crypto : Crypto Cert KeyPair)
    (plus : NginxPlus (TlsConfig Cert KeyPair) W) (events : WorkQueue (Ref Event))
    (wq : WorkQueue (Ref ServerUpdateEvent)) (laws : CountsRequeues wq)
    (pending : HasBacklog events) (backlogs : HasBacklog wq) (held : HoldsOnlyAdded events)
    (holds : HoldsOnlyAdded wq) (Expected : Event → Type 0) (known : List String)
    (s m : State crypto plus events wq)
    → IsSound held holds Expected known s
    → Leads crypto plus events wq s m
    → (s' : State crypto plus events wq) × Leads crypto plus events wq m s'
      × IsAtRest crypto plus events wq pending backlogs s'
      × IsSound held holds Expected known s'
unfolding End
Leads-IsAtRest crypto plus events wq laws pending backlogs held holds Expected known s m sound
      leads =
    let still =
      Leads-IsSound crypto plus events wq laws pending backlogs held holds Expected known s m leads
        sound in
    finish crypto plus events wq laws pending backlogs held holds Expected known m
      (Acc-Follows crypto plus events wq laws pending backlogs held holds Expected known m still)
      still
