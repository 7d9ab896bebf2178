-- ===== src/Configuration/Settings/Updates.antt =====
-- What the callbacks do to the settings.
use nginx_k8s_loadbalancer.Base.{
  String, ◌≡◌, ◌≢◌, refl, sym, ap, ◌∙◌, ◌⊎◌, none, some, Option-cases, inl, inr, arith, eq_iff,
}
use nginx_k8s_loadbalancer.Text.{◌⧺◌, split}
use nginx_k8s_loadbalancer.Result.{ok, err, panic}
use nginx_k8s_loadbalancer.GoMap.{lookup}
use nginx_k8s_loadbalancer.Kubernetes.{ConfigMap, Object, config_map}
use nginx_k8s_loadbalancer.Certification.{Certificates}
use nginx_k8s_loadbalancer.Configuration.Constants.{config_maps_namespace, config_map_name}
use nginx_k8s_loadbalancer.Configuration.TlsModes.{
  TlsMode, IsNamed, to_string, tls_mode_map, lookup-tls_mode_map_iff,
}
use nginx_k8s_loadbalancer.Configuration.LogLevel.{set_log_level}
use nginx_k8s_loadbalancer.Configuration.Settings.{
  Process, is_our_config, validate_tls_mode, apply_config, text_or_empty,
}

-- The object is our ConfigMap.
abbrev pub IsOurs : Object → ConfigMap → Type 0
IsOurs obj cm =
    (obj ≡ config_map cm) × (cm.name ≡ config_map_name) × (cm.namespace ≡ config_maps_namespace)

pub is_our_config-IsOurs :
    (obj : Object) (cm : ConfigMap) → IsOurs obj cm → is_our_config obj ≡ some cm
unfolding is_our_config
is_our_config-IsOurs obj cm h =
    ground (arith, eq_iff cm.name config_map_name, eq_iff cm.namespace config_maps_namespace)

pub IsOurs-is_our_config :
    (obj : Object) (cm : ConfigMap) → is_our_config obj ≡ some cm → IsOurs obj cm
unfolding is_our_config
IsOurs-is_our_config (Object.config_map c) cm h =
    ground (arith, eq_iff c.name config_map_name, eq_iff c.namespace config_maps_namespace)
IsOurs-is_our_config (Object.service c) cm h = cc
IsOurs-is_our_config (Object.secret c) cm h = cc
IsOurs-is_our_config (Object.deleted_final_state_unknown c) cm h = cc
IsOurs-is_our_config Object.other cm h = cc

-- The mode that follows from a ConfigMap: the named one if its value is the name of a mode, else
-- the mode as it was.
pub data NextMode (cm : ConfigMap) (before : TlsMode) : TlsMode → Type 0 where
  chosen :
      (m : TlsMode)
      → IsNamed m
      → lookup "tls-mode" cm.contents ≡ some (to_string m)
      → NextMode cm before m
  kept :
      ((m : TlsMode) → IsNamed m → lookup "tls-mode" cm.contents ≢ some (to_string m))
      → NextMode cm before before

-- The settings and the log level that follow from our ConfigMap.
pub record IsUpdated (cm : ConfigMap) (p p' : Process) : Type 0 where
  pub hosts : p'.settings.nginx_plus_hosts ≡ (elim (lookup "nginx-hosts" cm.contents) [
    | none ↦ p.settings.nginx_plus_hosts
    | some hosts ↦ split b',' hosts
  ])
  pub mode : NextMode cm p.settings.tls_mode p'.settings.tls_mode
  pub keys :
      (c : Certificates)
      → p.settings.certificates ≡ some c
      → p'.settings.certificates
        ≡ some (record c {
          ca_certificate_secret_key = text_or_empty (lookup "ca-certificate" cm.contents);
          client_certificate_secret_key = text_or_empty (lookup "client-certificate" cm.contents);
        })
  pub level : p'.log_level ≡ set_log_level (text_or_empty (lookup "log-level" cm.contents))
  pub handler : p'.settings.handler ≡ p.settings.handler
  pub synchronizer : p'.settings.synchronizer ≡ p.settings.synchronizer
  pub watcher : p'.settings.watcher ≡ p.settings.watcher
  pub informer : p'.settings.informer ≡ p.settings.informer

abbrev next_mode : ConfigMap → TlsMode → TlsMode
next_mode cm before = elim (validate_tls_mode cm) [ ok m ↦ m | err e ↦ before | panic x ↦ before ]

no_mode :
    (cm : ConfigMap) (name : String)
    → lookup "tls-mode" cm.contents ≡ some name
    → lookup name tls_mode_map ≡ none
    → (m : TlsMode) → IsNamed m
    → lookup "tls-mode" cm.contents ≢ some (to_string m)
no_mode cm name found unknown m named e =
    let same : to_string m ≡ name = cc in cc ((lookup-tls_mode_map_iff name m).1 (named, same))

validate_cases :
    (cm : ConfigMap)
    → ((m : TlsMode) × (validate_tls_mode cm ≡ ok m)
        × IsNamed m
        × (lookup "tls-mode" cm.contents ≡ some (to_string m)))
      ⊎ ((e : String) × (validate_tls_mode cm ≡ err e)
          × ((m : TlsMode) → IsNamed m → lookup "tls-mode" cm.contents ≢ some (to_string m)))
unfolding validate_tls_mode
validate_cases cm = elim (Option-cases (lookup "tls-mode" cm.contents)) [
  | inl missing ↦ inr ("tls-mode key not found in ConfigMap", rw missing refl, λ m named e. cc)
  | inr (name, found) ↦ elim (Option-cases (lookup name tls_mode_map)) [
    | inl unknown ↦
        inr (
          "invalid tls-mode value: " ⧺ name,
          rw (found, unknown) refl,
          no_mode cm name found unknown,
        )
    | inr (m, known) ↦
        let (named, same) = (lookup-tls_mode_map_iff name m).0 known in
        inl (m, rw (found, known) refl, named, found ∙ ap some (sym same))
  ]
]

mode-IsUpdated :
    (cm : ConfigMap) (p : Process) (c : Certificates)
    → p.settings.certificates ≡ some c
    → NextMode cm p.settings.tls_mode (apply_config cm p).1.settings.tls_mode
unfolding apply_config
mode-IsUpdated cm p c made = elim (validate_cases cm) [
  | inl (m, valid, named, found) ↦
      let same : (apply_config cm p).1.settings.tls_mode ≡ m = ground arith in
      rw same (chosen m named found)
  | inr (e, invalid, nothing) ↦
      let same : (apply_config cm p).1.settings.tls_mode ≡ p.settings.tls_mode = ground arith in
      rw same (kept nothing)
]

-- Our ConfigMap is applied with no panic once the certificates are made.
pub apply_config-IsUpdated :
    (cm : ConfigMap) (p : Process) (c : Certificates)
    → p.settings.certificates ≡ some c
    → ((apply_config cm p).0 ≡ ok tt) × IsUpdated cm p (apply_config cm p).1
unfolding apply_config
apply_config-IsUpdated cm p c made = (
  ground arith,
  record {
    hosts = ground arith;
    mode = mode-IsUpdated cm p c made;
    keys = λ c' made'. ground arith;
    level = ground arith;
    handler = ground arith;
    synchronizer = ground arith;
    watcher = ground arith;
    informer = ground arith;
  },
)
