-- ===== src/Configuration/Startup/Ready.antt =====
-- The state in which Initialize leaves the settings.
use nginx_k8s_loadbalancer.Base.{
  String, ◌≡◌, refl, ◌∙◌, ◌⊎◌, List, [], none, some, inl, inr, Option-cases,
}
use nginx_k8s_loadbalancer.Result.{Error, ok, err, Reply-cases}
use nginx_k8s_loadbalancer.Kubernetes.{Cluster, config_map}
use nginx_k8s_loadbalancer.Certification
use nginx_k8s_loadbalancer.Certification.Runs as SecretRuns
use nginx_k8s_loadbalancer.Certification.Known.{Knows}
use nginx_k8s_loadbalancer.Certification.Noticed.{KnownAfter, calls-KnownAfter}
use nginx_k8s_loadbalancer.Certification.{Certificates, new_certificates}
use nginx_k8s_loadbalancer.Configuration.TlsModes.{IsNamed}
use nginx_k8s_loadbalancer.Configuration.Constants.{config_maps_namespace, config_map_name}
use nginx_k8s_loadbalancer.Configuration.Settings.{Process}
use nginx_k8s_loadbalancer.Configuration.Settings.Runs.{IsReady, handle_update_event-KeepsSecrets}
use nginx_k8s_loadbalancer.Configuration.Startup.{
  build_informer, initialize, initialize_event_listeners, certificates_failed, listeners_failed,
  registering_failed,
}

-- The certificates once they are initialized, and the process with certificates.
abbrev made_certificates : Certificates
made_certificates = record new_certificates {
  certificates = some [];
  informer = some Certification.build_informer;
}

abbrev with_certificates : Certificates → Process → Process
with_certificates c p = record p { settings = record p.settings { certificates = some c } }

made-Knows : Knows [] made_certificates
made-Knows = record { store = []; made = refl; has = λ name member. absurd member }

-- What Initialize leaves: certificates with the Secrets that are known, a TLS mode that is one of the
-- five, the settings of the synchronizer as they were, and an informer on the ConfigMaps.
pub record IsInitialized (known : List String) (p p' : Process) : Type 0 where
  pub ready : IsReady p'
  pub knows : Knows known ready.certificates
  pub synchronizer : p'.settings.synchronizer ≡ p.settings.synchronizer
  pub informer : p'.settings.informer ≡ some build_informer

-- Initialize does not panic, whatever the API server answers and whatever Secrets the certificates'
-- informer notices meanwhile, as long as it changes known Secrets only: it returns an error, or it
-- returns none and then the certificates are made and have the Secrets that are known by then, the TLS
-- mode is one of the five, the synchronizer's settings are unchanged, and there is an informer on the
-- ConfigMaps, provided that the TLS mode was one of the five before.
pub initialize-IsInitialized :
    (cluster : Cluster) (callbacks : List SecretRuns.Callback) (known : List String) (p : Process)
    → KnownAfter [] callbacks known
    → IsNamed p.settings.tls_mode
    → (((initialize cluster callbacks p).0 ≡ ok tt)
        × IsInitialized known p (initialize cluster callbacks p).1)
      ⊎ ((e : Error) × ((initialize cluster callbacks p).0 ≡ err e))
unfolding initialize initialize_event_listeners Certification.initialize
    Certification.initialize_event_handlers
initialize-IsInitialized cluster callbacks known p possible named =
    elim (Option-cases (cluster.add_event_handler Certification.build_informer)) [
      | inr (e, failed) ↦ inr (
        certificates_failed (Certification.handlers_failed (Certification.registering_failed e)),
        rw failed refl,
      )
      | inl fine ↦
          let (c, called, knows) =
            calls-KnownAfter [] known callbacks made_certificates possible made-Knows in
          elim (Reply-cases (cluster.get_config_map config_maps_namespace config_map_name)) [
            | inr (e, failed) ↦ inr (e, rw fine (rw called (rw failed refl)))
            | inl (cm, found) ↦
                let before : IsReady (with_certificates c p) = record {
                  certificates = c;
                  made = refl;
                  named = named;
                } in
                let (done, keeps) =
                  handle_update_event-KeepsSecrets none (config_map cm) (with_certificates c p)
                    before in
                elim (Option-cases (cluster.add_event_handler build_informer)) [
                  | inr (e, failed) ↦ inr (
                    listeners_failed (registering_failed e),
                    rw fine (rw called (rw found (rw done (rw failed refl)))),
                  )
                  | inl registered ↦ inl (
                    rw fine (rw called (rw found (rw done (rw registered refl)))),
                    rw fine (
                        rw called (
                          rw found (
                            rw done (record {
                              ready = record {
                                certificates = keeps.ready.certificates;
                                made = keeps.ready.made;
                                named = keeps.ready.named;
                              };
                              knows = record {
                                store = knows.store;
                                made = keeps.secrets ∙ knows.made;
                                has = knows.has;
                              };
                              synchronizer = keeps.synchronizer;
                              informer = refl;
                            })))),
                  )
                ]
          ]
    ]
