-- ===== src/Configuration/Settings.antt =====
-- internal/configuration/settings.go: the settings, and the callbacks that keep them up to date with
-- the ConfigMap "nlk-config". `Process` is what they change: the Settings object, which holds the
-- only reference to the Certificates, and the level of the logger. The context and the Kubernetes
-- client are not kept; times are in nanoseconds.
pub mod Updates
pub mod Runs
pub mod Hosts
use nginx_k8s_loadbalancer.Base.{
  ℕ, ◌*◌, String, Bool, ◌&&◌, Option, none, some, List, [], ◌==◌, if◌then◌else◌,
}
use nginx_k8s_loadbalancer.Text.{◌⧺◌, split}
use nginx_k8s_loadbalancer.Result.{Result, ok, err, panic}
use nginx_k8s_loadbalancer.Exec.{Exec}
use nginx_k8s_loadbalancer.GoMap.{lookup}
use nginx_k8s_loadbalancer.Kubernetes.{ConfigMap, Object, config_map, Informer}
use nginx_k8s_loadbalancer.Certification.{Certificates}
use nginx_k8s_loadbalancer.Configuration.Constants.{config_maps_namespace, config_map_name}
use nginx_k8s_loadbalancer.Configuration.TlsModes.{TlsMode, no_tls, tls_mode_map}
use nginx_k8s_loadbalancer.Configuration.LogLevel.{LogLevel, set_log_level}

abbrev pub second : ℕ
second = 1000000000

pub record WorkQueueSettings : Type 0 where
  pub name : String
  pub rate_limiter_base : ℕ
  pub rate_limiter_max : ℕ

pub record HandlerSettings : Type 0 where
  pub retry_count : ℕ
  pub threads : ℕ
  pub work_queue_settings : WorkQueueSettings

pub record WatcherSettings : Type 0 where
  pub nginx_ingress_namespace : String
  pub resync_period : ℕ

pub record SynchronizerSettings : Type 0 where
  pub max_milliseconds_jitter : ℕ
  pub min_milliseconds_jitter : ℕ
  pub retry_count : ℕ
  pub threads : ℕ
  pub work_queue_settings : WorkQueueSettings

pub record Settings : Type 0 where
  pub nginx_plus_hosts : List String
  pub tls_mode : TlsMode
  pub certificates : Option Certificates
  pub informer : Option Informer
  pub handler : HandlerSettings
  pub synchronizer : SynchronizerSettings
  pub watcher : WatcherSettings

pub record Process : Type 0 where
  pub settings : Settings
  pub log_level : LogLevel

unfoldable pub new_settings : Settings
new_settings = record {
  nginx_plus_hosts = [];
  tls_mode = no_tls;
  certificates = none;
  informer = none;
  handler = record {
    retry_count = 5;
    threads = 1;
    work_queue_settings = record {
      name = "nlk-handler";
      rate_limiter_base = second * 2;
      rate_limiter_max = second * 60;
    };
  };
  synchronizer = record {
    max_milliseconds_jitter = 750;
    min_milliseconds_jitter = 250;
    retry_count = 5;
    threads = 1;
    work_queue_settings = record {
      name = "nlk-synchronizer";
      rate_limiter_base = second * 2;
      rate_limiter_max = second * 60;
    };
  };
  watcher = record { nginx_ingress_namespace = "nginx-ingress"; resync_period = 0 };
}

abbrev if_ours : ConfigMap → Bool → Option ConfigMap
if_ours cm ours = if ours then some cm else none

-- The ConfigMap, if the object is ours.
unfoldable pub is_our_config : Object → Option ConfigMap
is_our_config (config_map cm) =
    if_ours cm (cm.name == config_map_name && cm.namespace == config_maps_namespace)
is_our_config _ = none

unfoldable pub parse_hosts : String → List String
parse_hosts hosts = split b',' hosts

unfoldable pub update_hosts : List String → Settings → Settings
update_hosts hosts s = record s { nginx_plus_hosts = hosts }

abbrev known_mode : String → Option TlsMode → Result TlsMode
known_mode name none = err ("invalid tls-mode value: " ⧺ name)
known_mode name (some m) = ok m

abbrev configured_mode : Option String → Result TlsMode
configured_mode none = err "tls-mode key not found in ConfigMap"
configured_mode (some name) = known_mode name (lookup name tls_mode_map)

unfoldable pub validate_tls_mode : ConfigMap → Result TlsMode
validate_tls_mode cm = configured_mode (lookup "tls-mode" cm.contents)

-- The first step of handleUpdateEvent: a missing key leaves the hosts as they are.
abbrev set_hosts : Option String → Settings → Settings
set_hosts none s = s
set_hosts (some hosts) s = update_hosts (parse_hosts hosts) s

-- The second: an error leaves the mode as it is.
abbrev set_tls_mode : Result TlsMode → Settings → Settings
set_tls_mode (ok m) s = record s { tls_mode = m }
set_tls_mode (err e) s = s
set_tls_mode (panic p) s = s

-- A missing key reads as the empty text.
abbrev pub text_or_empty : Option String → String
text_or_empty none = ""
text_or_empty (some s) = s

-- The third and the fourth: the names of the Secrets. There is a nil pointer to write through if
-- the certificates were never made.
abbrev set_keys : ConfigMap → Option Certificates → Process → Result (Unit {0}) × Process
set_keys cm none p = (panic "nil pointer dereference", p)
set_keys cm (some c) p = (
  ok tt,
  record p {
    settings = record p.settings {
      certificates = some (record c {
        ca_certificate_secret_key = text_or_empty (lookup "ca-certificate" cm.contents);
        client_certificate_secret_key = text_or_empty (lookup "client-certificate" cm.contents);
      });
    };
    log_level = set_log_level (text_or_empty (lookup "log-level" cm.contents));
  },
)

-- handleUpdateEvent on our ConfigMap
unfoldable pub apply_config : ConfigMap → Exec Process Unit
unfolding update_hosts parse_hosts
apply_config cm p =
    let s =
      set_tls_mode (validate_tls_mode cm)
        (set_hosts (lookup "nginx-hosts" cm.contents) p.settings) in
    set_keys cm s.certificates (record p { settings = s })

abbrev apply_if_ours : Option ConfigMap → Exec Process Unit
apply_if_ours none p = (ok tt, p)
apply_if_ours (some cm) p = apply_config cm p

-- The first argument, the old object, is not read.
unfoldable pub handle_update_event : Option Object → Object → Exec Process Unit
unfolding apply_config
handle_update_event old obj p = apply_if_ours (is_our_config obj) p

abbrev on_added : Option ConfigMap → Object → Exec Process Unit
on_added none obj p = (ok tt, p)
on_added (some cm) obj p = handle_update_event none obj p

unfoldable pub handle_add_event : Object → Exec Process Unit
unfolding handle_update_event
handle_add_event obj p = on_added (is_our_config obj) obj p

abbrev on_deleted : Option ConfigMap → Exec Process Unit
on_deleted none p = (ok tt, p)
on_deleted (some cm) p = (ok tt, record p { settings = update_hosts [] p.settings })

unfoldable pub handle_delete_event : Object → Exec Process Unit
unfolding update_hosts
handle_delete_event obj p = on_deleted (is_our_config obj) p
