-- ===== src/System/Moves.antt =====
-- Each action of the running program keeps it sound, and does not panic.
use nginx_k8s_loadbalancer.Base.{String, ◌≡◌, refl, sym, subst, List, inl, inr}
use nginx_k8s_loadbalancer.Result.{Error, ok, refused}
use nginx_k8s_loadbalancer.Core.{Event, ServerUpdateEvent}
use nginx_k8s_loadbalancer.Kubernetes.{Cluster}
use nginx_k8s_loadbalancer.Authentication.{Crypto, TlsConfig}
use nginx_k8s_loadbalancer.WorkQueue.{WorkQueue, HoldsOnlyAdded, Got-cases, Ref}
use nginx_k8s_loadbalancer.Synchronization.World.{NginxPlus}
use nginx_k8s_loadbalancer.Observation.Watcher.{retrieve_node_ips}
use nginx_k8s_loadbalancer.Observation.Watcher.Callbacks.{
  Notice, Announces, notify-Announces, notify-refused,
}
use nginx_k8s_loadbalancer.Observation.Handler
use nginx_k8s_loadbalancer.System.{
  Action, noticed, event_taken, change_taken, watch_ended, State, step,
}
use nginx_k8s_loadbalancer.System.Invariant.{Stems, IsSound, AllHave-taken}

module _ {Cert KeyPair W : Type 0} (crypto : Crypto Cert KeyPair)
    (plus : NginxPlus (TlsConfig Cert KeyPair) W) (events : WorkQueue (Ref Event))
    (wq : WorkQueue (Ref ServerUpdateEvent)) (held : HoldsOnlyAdded events)
    (holds : HoldsOnlyAdded wq) (Expected : Event → Type 0) where
  -- The action returns, and the program is sound after it, with these Secrets.
  abbrev pub Keeps : List String → Action → State crypto plus events wq → Type 0
  Keeps after a s =
      ((step crypto plus events wq a s).0 ≡ ok tt)
      × IsSound held holds Expected after (step crypto plus events wq a s).1

  module _ (known : List String) (s : State crypto plus events wq)
      (sound : IsSound held holds Expected known s) where
    pub event_taken-Keeps : Keeps known event_taken s
    unfolding step
    event_taken-Keeps = elim (Got-cases (events.get s.watcher.handler.event_queue)) [
      | inl (x, q, got) ↦ rw got (
        refl,
        record {
          configured = sound.configured;
          expected = AllHave-taken held (λ e. Expected e.value) x _ q s.handling got sound.expected;
          stemming = sound.stemming;
        },
      )
      | inr (inl ended) ↦ rw ended (refl, sound)
      | inr (inr nothing) ↦ rw nothing (refl, sound)
    ]

    pub change_taken-Keeps : Keeps known change_taken s
    unfolding step
    change_taken-Keeps = elim (Got-cases (wq.get s.watcher.handler.synchronizer.queue)) [
      | inl (x, q, got) ↦ rw got (
        refl,
        record {
          configured = sound.configured;
          expected = sound.expected;
          stemming = AllHave-taken holds (Stems Expected) x _ q s.sending got sound.stemming;
        },
      )
      | inr (inl ended) ↦ rw ended (refl, sound)
      | inr (inr nothing) ↦ rw nothing (refl, sound)
    ]

    pub watch_ended-Keeps : Keeps known watch_ended s
    unfolding step Handler.shut_down
    watch_ended-Keeps = (
      refl,
      record {
        configured = sound.configured;
        expected = record {
          waiting = λ x h. sound.expected.waiting x (held.after_shut_down x _ h);
          in_work = sound.expected.in_work;
        };
        stemming = sound.stemming;
      },
    )

    -- The Services' informer: the nodes cannot be listed, or an expected Event is announced.
    pub lost-Keeps :
        (cluster : Cluster) (n : Notice) (e : Error)
        → cluster.list_nodes ≡ refused e
        → Keeps known (noticed cluster n) s
    unfolding step
    lost-Keeps cluster n e failed = rw (notify-refused _ cluster s.watcher n e failed) (refl, sound)

    pub announced-Keeps :
        (cluster : Cluster) (n : Notice) (ips : List String) (e : Event)
        → retrieve_node_ips cluster ≡ ok ips
        → Announces ips n e
        → Expected e
        → Keeps known (noticed cluster n) s
    unfolding step Handler.add_rate_limited_event
    announced-Keeps cluster n ips e listed announces expected =
        rw (notify-Announces _ cluster s.watcher ips n e listed announces) (
          refl,
          record {
            configured = sound.configured;
            expected = record {
              waiting = λ x h. elim (held.after_add_rate_limited _ x _ h) [
                | inl same ↦ subst (λ (y : Ref Event). Expected y.value) (sym same) expected
                | inr before ↦ sound.expected.waiting x before
              ];
              in_work = sound.expected.in_work;
            };
            stemming = sound.stemming;
          },
        )
