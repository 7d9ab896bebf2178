-- ===== src/Certification.antt =====
-- internal/certification/certificates.go: the certificates and keys of the Secrets in the "nlk"
-- namespace, kept up to date by the callbacks of an informer.
pub mod Store
pub mod Known
pub mod Runs
pub mod Noticed
use nginx_k8s_loadbalancer.Base.{String, ◌≡◌, Option, none, some, List, [], ◌∷◌}
use nginx_k8s_loadbalancer.Text.{◌⧺◌}
use nginx_k8s_loadbalancer.Result.{Error, Result, ok, err, panic, ◌>>=◌, ◌>>◌, wrapped, returned}
use nginx_k8s_loadbalancer.Context.{Context, Outcome, wait}
use nginx_k8s_loadbalancer.GoMap.{GoMap, lookup, insert, delete}
use nginx_k8s_loadbalancer.Core.{SecretBytes}
use nginx_k8s_loadbalancer.Kubernetes.{Secret, Object, secret, Informer, Resource, Cluster}

abbrev pub secrets_namespace : String
secrets_namespace = "nlk"

abbrev pub certificate_key : String
certificate_key = "tls.crt"

abbrev pub certificate_key_key : String
certificate_key_key = "tls.key"

-- A map of maps; `none` is a nil map. The context and the Kubernetes client are not kept.
pub record Certificates : Type 0 where
  pub certificates : Option (GoMap (GoMap SecretBytes))
  pub ca_certificate_secret_key : String
  pub client_certificate_secret_key : String
  pub informer : Option Informer

unfoldable pub new_certificates : Certificates
new_certificates = record {
  certificates = none;
  ca_certificate_secret_key = "";
  client_certificate_secret_key = "";
  informer = none;
}

abbrev inner : String → Option (GoMap SecretBytes) → Option SecretBytes
inner key none = none
inner key (some m) = lookup key m

abbrev outer : String → Option (GoMap (GoMap SecretBytes)) → Option (GoMap SecretBytes)
outer name none = none
outer name (some m) = lookup name m

-- c.Certificates[name][key]; a read of a nil map finds nothing
unfoldable pub entry : String → String → Certificates → Option SecretBytes
entry name key c = inner key (outer name c.certificates)

-- A missing key reads as the zero value, a nil slice.
abbrev pub bytes_or_nil : Option SecretBytes → SecretBytes
bytes_or_nil none = record { bytes = [] }
bytes_or_nil (some b) = b

unfoldable pub get_ca_certificate : Certificates → SecretBytes
unfolding entry
get_ca_certificate c = bytes_or_nil (entry c.ca_certificate_secret_key certificate_key c)

-- The key, then the certificate.
unfoldable pub get_client_certificate : Certificates → SecretBytes × SecretBytes
unfolding entry
get_client_certificate c = (
  bytes_or_nil (entry c.client_certificate_secret_key certificate_key_key c),
  bytes_or_nil (entry c.client_certificate_secret_key certificate_key c),
)

abbrev pub nil_map : String
nil_map = "assignment to entry in nil map"

abbrev put_into :
    String
    → String
    → SecretBytes
    → GoMap (GoMap SecretBytes)
    → Option (GoMap SecretBytes)
    → Result (GoMap (GoMap SecretBytes))
put_into name key value m none = panic nil_map
put_into name key value m (some found) = ok (insert name (insert key value found) m)

-- for k, v := range data { c.Certificates[name][k] = v }
unfoldable pub put_all :
    String → GoMap SecretBytes → GoMap (GoMap SecretBytes) → Result (GoMap (GoMap SecretBytes))
put_all name [] m = ok m
put_all name ((key, value) ∷ rest) m = do
  next ← put_into name key value m (lookup name m)
  put_all name rest next

abbrev with_map : Certificates → GoMap (GoMap SecretBytes) → Certificates
with_map c m = record c { certificates = some m }

abbrev add_secret : Certificates → Secret → Option (GoMap (GoMap SecretBytes)) → Result Certificates
add_secret c s none = panic nil_map
add_secret c s (some m) = do
  next ← put_all s.name s.contents (insert s.name [] m)
  ok (with_map c next)

-- An object that is no Secret is logged and dropped.
unfoldable pub handle_add_event : Object → Certificates → Result Certificates
handle_add_event (secret s) c = add_secret c s c.certificates
handle_add_event _ c = ok c

abbrev pub delete_secret : Certificates → Secret → Option (GoMap (GoMap SecretBytes)) → Certificates
delete_secret c s none = c
delete_secret c s (some m) = elim (lookup s.name m) [
  | none ↦ c
  | some found ↦ with_map c (delete s.name m)
]

unfoldable pub handle_delete_event : Object → Certificates → Result Certificates
handle_delete_event (secret s) c = ok (delete_secret c s c.certificates)
handle_delete_event _ c = ok c

abbrev update_secret :
    Certificates → Secret → Option (GoMap (GoMap SecretBytes)) → Result Certificates
update_secret c s none = elim s.contents [ [] ↦ ok c | _ ∷ _ ↦ panic nil_map ]
update_secret c s (some m) = do next ← put_all s.name s.contents m; ok (with_map c next)

-- The first argument, the old object, is not read.
unfoldable pub handle_update_event : Object → Object → Certificates → Result Certificates
handle_update_event old (secret s) c = update_secret c s c.certificates
handle_update_event old _ c = ok c

unfoldable pub build_informer : Informer
build_informer = record { namespace = secrets_namespace; resource = Resource.secrets }

abbrev pub registering_failed : Error → Error
registering_failed e = "error occurred registering event handlers: " ⧺ e

unfoldable pub initialize_event_handlers : Cluster → Informer → Result (Unit {0})
initialize_event_handlers cluster informer =
    returned registering_failed (cluster.add_event_handler informer)

abbrev pub handlers_failed : Error → Error
handlers_failed e = "error occurred initializing event handlers: " ⧺ e

unfoldable pub initialize : Cluster → Certificates → Result Certificates
unfolding build_informer initialize_event_handlers
initialize cluster c = do
  wrapped handlers_failed (initialize_event_handlers cluster build_informer)
  ok (record c { certificates = some []; informer = some build_informer })

-- Run starts the informer and waits for the end of the context; then it returns nil.
unfoldable pub run : Context → Certificates → Result Outcome
run ctx c = elim c.informer [
  | none ↦ err "initialize must be called before Run"
  | some i ↦ ok (wait ctx)
]
