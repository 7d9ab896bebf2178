-- ===== src/System/Crew/Calls.antt =====
-- A call of the informers on the crew of workers is the same call of System.
use nginx_k8s_loadbalancer.Base.{◌≡◌, refl, Option, none, some, List, []}
use nginx_k8s_loadbalancer.Base.Insertion.Arranged.{Arranged}
use nginx_k8s_loadbalancer.Result.{Result, ok, err, panic}
use nginx_k8s_loadbalancer.Core.{Event, ServerUpdateEvent}
use nginx_k8s_loadbalancer.Certification.{Certificates}
use nginx_k8s_loadbalancer.Certification.Runs as SecretRuns
use nginx_k8s_loadbalancer.Authentication.{Crypto, TlsConfig}
use nginx_k8s_loadbalancer.WorkQueue.{WorkQueue, Ref}
use nginx_k8s_loadbalancer.Workers.Tasks.{tasks}
use nginx_k8s_loadbalancer.Synchronization.World.{NginxPlus}
use nginx_k8s_loadbalancer.System
use nginx_k8s_loadbalancer.System.{
  Action, noticed, configured, certified, event_taken, change_taken, watch_ended, event_handled,
  change_sent, State, HandlerPart, WorldPart, step, steps, take_at,
}
use nginx_k8s_loadbalancer.System.Crew.{
  IsCall, Move, called, handler_turn, synchronizer_turn, CrewState, seen_as, after_call,
}

-- A turn of a worker, not a call.
abbrev pub IsTurn : Move → Type 0
IsTurn (called a call) = ⊥
IsTurn _ = Unit

-- The actions that a move stands for.
abbrev pub IsMove : Move → Action → Type 0
IsMove (called b call) a = a ≡ b
IsMove (handler_turn n) event_taken = Unit
IsMove (handler_turn n) (event_handled i) = Unit
IsMove (handler_turn n) _ = ⊥
IsMove (synchronizer_turn n) change_taken = Unit
IsMove (synchronizer_turn n) (change_sent i) = Unit
IsMove (synchronizer_turn n) _ = ⊥

module _ {Cert KeyPair W : Type 0} (crypto : Crypto Cert KeyPair)
    (plus : NginxPlus (TlsConfig Cert KeyPair) W) (events : WorkQueue (Ref Event))
    (wq : WorkQueue (Ref ServerUpdateEvent)) where
  -- The lists of items in work have those of the workers, in any order.
  pub record Holds (c : CrewState crypto plus events wq) (handling : List (Ref Event))
      (sending : List (Ref ServerUpdateEvent)) : Type 0 where
    pub handled : Arranged (tasks c.handlers) handling
    pub sent : Arranged (tasks c.synchronizers) sending

  -- After a move of the crew: one action that it stands for has the same result.
  abbrev pub Simulated :
      Move
      → CrewState crypto plus events wq
      → List (Ref Event)
      → List (Ref ServerUpdateEvent)
      → Result (Unit {0}) × CrewState crypto plus events wq
      → Type 0
  Simulated m c handling sending (r, c') =
      (a : Action) × IsMove m a
      × (handling' : List (Ref Event)) × (sending' : List (Ref ServerUpdateEvent)) × (step crypto
            plus events wq a (seen_as crypto plus events wq c handling sending)
          ≡ (r, seen_as crypto plus events wq c' handling' sending'))
      × Holds c' handling' sending'

  module _ (c : CrewState crypto plus events wq) (h : List (Ref Event))
      (k : List (Ref ServerUpdateEvent)) (holds : Holds c h k) where
    abbrev pub as_seen :
        Result (Unit {0}) × CrewState crypto plus events wq
        → Result (Unit {0}) × State crypto plus events wq
    as_seen (r, d) = (r, seen_as crypto plus events wq d h k)

    put_certificates-seen :
        (r : Result Certificates)
        → System.put_certificates crypto plus events wq (seen_as crypto plus events wq c h k) r
          ≡ as_seen (
              after_call crypto plus events wq c (
                System.put_certificates crypto plus events wq
                  (seen_as crypto plus events wq c [] [])
                  r))
    put_certificates-seen (ok d) = refl
    put_certificates-seen (err e) = refl
    put_certificates-seen (panic p) = refl

    certify-seen :
        (cb : SecretRuns.Callback) (o : Option Certificates)
        → System.certify crypto plus events wq cb (seen_as crypto plus events wq c h k) o
          ≡ as_seen (
              after_call crypto plus events wq c
                (System.certify crypto plus events wq cb (seen_as crypto plus events wq c [] []) o))
    certify-seen cb none = refl
    certify-seen cb (some d) = put_certificates-seen (SecretRuns.call cb d)

    put_certificates-Holds :
        (r : Result Certificates)
        → Holds
            (after_call crypto plus events wq c (
              System.put_certificates crypto plus events wq
                (seen_as crypto plus events wq c [] [])
                r)).1
            h
            k
    put_certificates-Holds (ok d) = record { handled = holds.handled; sent = holds.sent }
    put_certificates-Holds (err e) = record { handled = holds.handled; sent = holds.sent }
    put_certificates-Holds (panic p) = record { handled = holds.handled; sent = holds.sent }

    certify-Holds :
        (cb : SecretRuns.Callback) (o : Option Certificates)
        → Holds
            (after_call crypto plus events wq c
              (System.certify crypto plus events wq cb (seen_as crypto plus events wq c [] []) o)).1
            h
            k
    certify-Holds cb none = record { handled = holds.handled; sent = holds.sent }
    certify-Holds cb (some d) = put_certificates-Holds (SecretRuns.call cb d)

    pub called-Simulated :
        (a : Action) (call : IsCall a)
        → Simulated (called a call) c h k (
            after_call crypto plus events wq c
              (step crypto plus events wq a (seen_as crypto plus events wq c [] [])))
    unfolding step
    called-Simulated (noticed cluster n) call =
        (noticed cluster n, refl, h, k, refl, record { handled = holds.handled; sent = holds.sent })
    called-Simulated (configured cb) call =
        (configured cb, refl, h, k, refl, record { handled = holds.handled; sent = holds.sent })
    called-Simulated (certified cb) call = (
      certified cb,
      refl,
      h,
      k,
      certify-seen cb c.process.settings.certificates,
      certify-Holds cb c.process.settings.certificates,
    )
    called-Simulated watch_ended call =
        (watch_ended, refl, h, k, refl, record { handled = holds.handled; sent = holds.sent })
    called-Simulated event_taken call = absurd call
    called-Simulated change_taken call = absurd call
    called-Simulated (event_handled n) call = absurd call
    called-Simulated (change_sent n) call = absurd call
