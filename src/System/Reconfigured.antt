-- ===== src/System/Reconfigured.antt =====
-- The callbacks of the ConfigMaps' and of the Secrets' informers keep the running program sound.
use nginx_k8s_loadbalancer.Base.{String, refl, ◌∙◌, List}
use nginx_k8s_loadbalancer.Core.{Event, ServerUpdateEvent}
use nginx_k8s_loadbalancer.Certification.Runs as SecretRuns
use nginx_k8s_loadbalancer.Certification.Noticed.{NextKnown, call-NextKnown}
use nginx_k8s_loadbalancer.Certification.Runs.{IsNoSecret, added, changed, removed, call-IsNoSecret}
use nginx_k8s_loadbalancer.Configuration.Settings.Runs as ConfigRuns
use nginx_k8s_loadbalancer.Configuration.Settings.Runs.{IsReady, call-KeepsSecrets}
use nginx_k8s_loadbalancer.Authentication.{Crypto, TlsConfig}
use nginx_k8s_loadbalancer.WorkQueue.{WorkQueue, HoldsOnlyAdded, Ref}
use nginx_k8s_loadbalancer.Synchronization.World.{NginxPlus}
use nginx_k8s_loadbalancer.System.{configured, certified, State, step}
use nginx_k8s_loadbalancer.System.Invariant.{IsSound}
use nginx_k8s_loadbalancer.System.Moves.{Keeps}

module _ {Cert KeyPair W : Type 0} (crypto : Crypto Cert KeyPair)
    (plus : NginxPlus (TlsConfig Cert KeyPair) W) (events : WorkQueue (Ref Event))
    (wq : WorkQueue (Ref ServerUpdateEvent)) (held : HoldsOnlyAdded events)
    (holds : HoldsOnlyAdded wq) (Expected : Event → Type 0) (known : List String)
    (s : State crypto plus events wq) (sound : IsSound held holds Expected known s) where
  pub certified-Keeps :
      (cb : SecretRuns.Callback) (left : List String)
      → NextKnown known cb left
      → Keeps crypto plus events wq held holds Expected left (certified cb) s
  unfolding step
  certified-Keeps cb left next =
      let from = sound.configured in
      let (c', called, knows) = call-NextKnown known left cb from.certificates next from.knows in
      rw (from.made) (
        rw called (
          refl,
          record {
            configured = record {
              certificates = c';
              made = refl;
              knows = knows;
              named = from.named;
              jitter = from.jitter;
            };
            expected = sound.expected;
            stemming = sound.stemming;
          },
        ))

  pub configured-Keeps :
      (cb : ConfigRuns.Callback)
      → Keeps crypto plus events wq held holds Expected known (configured cb) s
  unfolding step
  configured-Keeps cb =
      let from = sound.configured in
      let ready : IsReady s.process = record {
        certificates = from.certificates;
        made = from.made;
        named = from.named;
      } in
      let (done, keeps) = call-KeepsSecrets cb s.process ready in
      (
        done,
        record {
          configured = record {
            certificates = keeps.ready.certificates;
            made = keeps.ready.made;
            knows = record {
              store = from.knows.store;
              made = keeps.secrets ∙ from.knows.made;
              has = from.knows.has;
            };
            named = keeps.ready.named;
            jitter = rw (keeps.synchronizer) from.jitter;
          };
          expected = sound.expected;
          stemming = sound.stemming;
        },
      )
