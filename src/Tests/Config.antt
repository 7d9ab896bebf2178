-- ===== src/Tests/Config.antt =====
-- Runs of the callbacks of the settings, and their theorems at them.
use nginx_k8s_loadbalancer.Base.{◌≡◌, ◌≢◌, ◌↔◌, ◌⊎◌, refl, none, true, some, List, [], ◌∷◌, All}
use nginx_k8s_loadbalancer.Result.{Error, ok, err, replied, refused}
use nginx_k8s_loadbalancer.Configuration.Startup.{initialize}
use nginx_k8s_loadbalancer.Configuration.Startup.Ready.{IsInitialized, initialize-IsInitialized}
use nginx_k8s_loadbalancer.GoMap.{lookup}
use nginx_k8s_loadbalancer.Kubernetes.{Cluster, ConfigMap, Object, config_map, secret}
use nginx_k8s_loadbalancer.Certification.Runs as SecretRuns
use nginx_k8s_loadbalancer.Certification.Noticed.{KnownAfter, adds, unnoticed, noticed}
use nginx_k8s_loadbalancer.Tests.Secrets.{stranger}
use nginx_k8s_loadbalancer.Configuration.TlsModes.{
  self_signed_mutual_tls, IsNamed, to_string, tls_mode_map, lookup-tls_mode_map_iff,
}
use nginx_k8s_loadbalancer.Configuration.LogLevel.{set_log_level}
use nginx_k8s_loadbalancer.Configuration.Settings.{Process, parse_hosts}
use nginx_k8s_loadbalancer.Configuration.Settings.Hosts.{join-parse_hosts}
use nginx_k8s_loadbalancer.Configuration.Settings.Updates.{IsOurs}
use nginx_k8s_loadbalancer.Configuration.Settings.Runs.{
  Callback, added, changed, removed, call, calls, IsReady, object_of, calls-IsReady, call_again,
}
use nginx_k8s_loadbalancer.Text.Split.{join, Lacks}
use nginx_k8s_loadbalancer.Tests.Fixtures.{sample_settings, sample_certificates}

abbrev sample_process : Process
sample_process = record { settings = sample_settings; log_level = set_log_level "info" }

abbrev sample_config : ConfigMap
sample_config = record {
  name = "nlk-config";
  namespace = "nlk";
  contents =
      ("nginx-hosts", "https://10.1.1.4:9000/api,https://10.1.1.5:9000/api")
      ∷ ("tls-mode", "ss-mtls")
      ∷ ("ca-certificate", "nlk-ca")
      ∷ [];
}

sample_IsReady : IsReady sample_process
sample_IsReady = record { certificates = sample_certificates; made = refl; named = tt }

abbrev foreign : Callback
foreign = removed Object.other

foreign_elsewhere : (cm : ConfigMap) → ¬ IsOurs (object_of foreign) cm
foreign_elsewhere cm (same, name, namespace) = cc

join-parse_hosts_example :
    (join "," (parse_hosts "a,,b") ≡ "a,,b")
    × All (Lacks b',') (parse_hosts "a,,b")
    × (parse_hosts "a,,b" ≢ [])
join-parse_hosts_example = join-parse_hosts "a,,b"

lookup-tls_mode_map_iff_example :
    (lookup "ss-mtls" tls_mode_map ≡ some self_signed_mutual_tls)
    ↔ (IsNamed self_signed_mutual_tls × (to_string self_signed_mutual_tls ≡ "ss-mtls"))
lookup-tls_mode_map_iff_example = lookup-tls_mode_map_iff "ss-mtls" self_signed_mutual_tls

abbrev sample_run : List Callback
sample_run =
    added (config_map sample_config)
    ∷ foreign
    ∷ changed (config_map sample_config) (config_map sample_config)
    ∷ removed (config_map sample_config)
    ∷ []

calls-IsReady_example :
    ((calls sample_run sample_process).0 ≡ ok tt) × IsReady (calls sample_run sample_process).1
calls-IsReady_example = calls-IsReady sample_run sample_process sample_IsReady

call_again_example :
    (call
      (changed Object.other (config_map sample_config))
      (call (changed Object.other (config_map sample_config)) sample_process).1).1
    ≡ (call (changed Object.other (config_map sample_config)) sample_process).1
call_again_example =
    call_again Object.other (config_map sample_config) sample_process sample_IsReady

abbrev pub starting_cluster : Cluster
starting_cluster = record {
  get_config_map = λ namespace name. replied sample_config;
  list_nodes = refused "timeout";
  add_event_handler = λ i. none;
  wait_for_cache_sync = λ i. true;
}

abbrev pub first_process : Process
first_process = record sample_process { settings = record sample_settings { certificates = none } }

-- A Secret that is noticed while the settings are initialized.
abbrev pub early_callbacks : List SecretRuns.Callback
early_callbacks = SecretRuns.added (secret stranger) ∷ []

pub early-KnownAfter : KnownAfter [] early_callbacks ("other" ∷ [])
early-KnownAfter = noticed (SecretRuns.added (secret stranger)) (adds stranger) (unnoticed _)

initialize-IsInitialized_example :
    (((initialize starting_cluster early_callbacks first_process).0 ≡ ok tt)
      × IsInitialized
          ("other" ∷ [])
          first_process
          (initialize starting_cluster early_callbacks first_process).1)
    ⊎ ((e : Error) × ((initialize starting_cluster early_callbacks first_process).0 ≡ err e))
initialize-IsInitialized_example =
    initialize-IsInitialized starting_cluster early_callbacks ("other" ∷ []) first_process
      early-KnownAfter tt
