-- ===== src/Configuration/Startup.antt =====
-- Settings::Initialize and Settings::Run of internal/configuration/settings.go.
pub mod Ready
use nginx_k8s_loadbalancer.Base.{none, some, List}
use nginx_k8s_loadbalancer.Text.{◌⧺◌}
use nginx_k8s_loadbalancer.Result.{Error, Result, ok, panic, wrapped, answered, returned}
use nginx_k8s_loadbalancer.Exec.{Exec, ◌>>=◌, ◌>>◌, lift}
use nginx_k8s_loadbalancer.Context.{Context, Outcome, wait}
use nginx_k8s_loadbalancer.Kubernetes.{config_map, Informer, Resource, Cluster}
use nginx_k8s_loadbalancer.Certification
use nginx_k8s_loadbalancer.Certification.Runs as SecretRuns
use nginx_k8s_loadbalancer.Certification.{Certificates, new_certificates}
use nginx_k8s_loadbalancer.Configuration.Constants.{config_maps_namespace, config_map_name}
use nginx_k8s_loadbalancer.Configuration.Settings.{Settings, Process, handle_update_event}

unfoldable pub build_informer : Informer
build_informer = record { namespace = config_maps_namespace; resource = Resource.config_maps }

abbrev registering_failed : Error → Error
registering_failed e = "error occurred registering event handlers: " ⧺ e

unfoldable pub initialize_event_listeners : Cluster → Informer → Result (Unit {0})
initialize_event_listeners cluster informer =
    returned registering_failed (cluster.add_event_handler informer)

abbrev certificates_failed : Error → Error
certificates_failed e = "error occurred initializing certificates: " ⧺ e

abbrev listeners_failed : Error → Error
listeners_failed e = "error occurred initializing event listeners: " ⧺ e

abbrev set_certificates : Certificates → Exec Process Unit
set_certificates c p = (ok tt, record p { settings = record p.settings { certificates = some c } })

abbrev set_informer : Informer → Exec Process Unit
set_informer i p = (ok tt, record p { settings = record p.settings { informer = some i } })

-- The goroutine that runs the certificates' informer is started once the certificates are made: these
-- are the callbacks that it makes until Initialize returns, none or any. They write the map of the
-- Secrets alone, which no later step reads or writes, so that they may stand in front of those steps;
-- a callback that panics ends the program.
unfoldable pub initialize : Cluster → List SecretRuns.Callback → Exec Process Unit
unfolding build_informer initialize_event_listeners Certification.initialize handle_update_event
initialize cluster callbacks = do
  c ← lift (wrapped certificates_failed (Certification.initialize cluster new_certificates))
  set_certificates c
  c' ← lift (SecretRuns.calls callbacks c)
  set_certificates c'
  cm ← lift (answered (λ e. e) (cluster.get_config_map config_maps_namespace config_map_name))
  handle_update_event none (config_map cm)
  set_informer build_informer
  lift (wrapped listeners_failed (initialize_event_listeners cluster build_informer))

-- Run starts the informer and waits for the end of the context. A nil informer is a nil pointer.
unfoldable pub run : Context → Settings → Result Outcome
run ctx s = elim s.informer [ none ↦ panic "nil pointer dereference" | some i ↦ ok (wait ctx) ]
