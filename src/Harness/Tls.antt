-- ===== src/Harness/Tls.antt =====
-- cmd/tls-config-factory-test-harness/main.go: it builds a TLS configuration in each of four modes. The
-- texts of the certificates are parameters, which Pems gives, and the screen and the keyboard are left out.
use nginx_k8s_loadbalancer.Base.{
  ℕ, String, ◌≡◌, refl, sym, ap, ◌∙◌, Option, none, some, List, [], ◌∷◌, length, Member, inl, inr,
}
use nginx_k8s_loadbalancer.Result.{Result, ok, err, panic, ◌>>=◌}
use nginx_k8s_loadbalancer.GoMap.{GoMap, lookup}
use nginx_k8s_loadbalancer.Core.{SecretBytes}
use nginx_k8s_loadbalancer.Certification.{
  Certificates, certificate_key, certificate_key_key, get_ca_certificate, entry,
}
use nginx_k8s_loadbalancer.Configuration.TlsModes.{
  TlsMode, self_signed_tls, self_signed_mutual_tls, certificate_authority_tls,
  certificate_authority_mutual_tls,
}
use nginx_k8s_loadbalancer.Configuration.Settings.{Settings, WorkQueueSettings}
use nginx_k8s_loadbalancer.Authentication.{
  Crypto, not_pem, build_ca_certificate_pool, new_tls_config,
}

abbrev pub ca_certificate_secret_key : String
ca_certificate_secret_key = "nlk-tls-ca-secret"

abbrev pub client_certificate_secret_key : String
client_certificate_secret_key = "nlk-tls-client-secret"

-- caCertificatePEM, clientCertificatePEM and clientKeyPEM
pub record Pems : Type 0 where
  pub ca_certificate : SecretBytes
  pub client_certificate : SecretBytes
  pub client_key : SecretBytes

pub record TlsConfiguration : Type 0 where
  pub description : String
  pub settings : Settings

-- A Settings literal: the fields that it does not name are zero.
abbrev no_queue : WorkQueueSettings
no_queue = record { name = ""; rate_limiter_base = 0; rate_limiter_max = 0 }

abbrev literal : TlsMode → Option Certificates → Settings
literal mode certificates = record {
  nginx_plus_hosts = [];
  tls_mode = mode;
  certificates = certificates;
  informer = none;
  handler = record { retry_count = 0; threads = 0; work_queue_settings = no_queue };
  synchronizer = record {
    max_milliseconds_jitter = 0;
    min_milliseconds_jitter = 0;
    retry_count = 0;
    threads = 0;
    work_queue_settings = no_queue;
  };
  watcher = record { nginx_ingress_namespace = ""; resync_period = 0 };
}

-- A Certificates literal: the names of the Secrets are not set.
abbrev certificates_of : GoMap (GoMap SecretBytes) → Certificates
certificates_of entries = record {
  certificates = some entries;
  ca_certificate_secret_key = "";
  client_certificate_secret_key = "";
  informer = none;
}

unfoldable pub build_client_certificate_entry : SecretBytes → SecretBytes → GoMap SecretBytes
build_client_certificate_entry key_pem certificate_pem =
    (certificate_key, certificate_pem) ∷ (certificate_key_key, key_pem) ∷ []

unfoldable pub build_ca_certificate_entry : SecretBytes → GoMap SecretBytes
build_ca_certificate_entry certificate_pem = (certificate_key, certificate_pem) ∷ []

module _ (pems : Pems) where
  -- The entry of the CA, then that of the client.
  abbrev both_entries : GoMap (GoMap SecretBytes)
  both_entries =
      (ca_certificate_secret_key, build_ca_certificate_entry pems.ca_certificate)
      ∷ (
        client_certificate_secret_key,
        build_client_certificate_entry pems.client_key pems.client_certificate,
      )
      ∷ []

  abbrev client_entry : GoMap (GoMap SecretBytes)
  client_entry =
      (
        client_certificate_secret_key,
        build_client_certificate_entry pems.client_key pems.client_certificate,
      )
      ∷ []

  unfoldable pub ss_tls_config : Settings
  unfolding build_client_certificate_entry build_ca_certificate_entry
  ss_tls_config = literal self_signed_tls (some (certificates_of both_entries))

  unfoldable pub ss_mtls_config : Settings
  unfolding build_client_certificate_entry build_ca_certificate_entry
  ss_mtls_config = literal self_signed_mutual_tls (some (certificates_of both_entries))

  unfoldable pub ca_tls_config : Settings
  ca_tls_config = literal certificate_authority_tls none

  unfoldable pub ca_mtls_config : Settings
  unfolding build_client_certificate_entry
  ca_mtls_config = literal certificate_authority_mutual_tls (some (certificates_of client_entry))

  unfoldable pub build_config_map : GoMap TlsConfiguration
  unfolding ss_tls_config ss_mtls_config ca_tls_config ca_mtls_config
  build_config_map =
      (
        "ss-tls",
        record {
          description = "Self-signed TLS requires just a CA certificate";
          settings = ss_tls_config;
        },
      )
      ∷ (
        "ss-mtls",
        record {
          description = "Self-signed mTLS requires a CA certificate and a client certificate";
          settings = ss_mtls_config;
        },
      )
      ∷ (
        "ca-tls",
        record { description = "CA TLS requires no certificates"; settings = ca_tls_config },
      )
      ∷ (
        "ca-mtls",
        record { description = "CA mTLS requires a client certificate"; settings = ca_mtls_config },
      )
      ∷ []

-- What is logged of a configuration.
pub record Summary : Type 0 where
  pub description : String
  pub root_ca_count : ℕ
  pub certificate_count : ℕ

-- A nil pool counts as none.
abbrev count_roots : {Cert : Type 0} → Option (List Cert) → ℕ
count_roots none = 0
count_roots (some pool) = length pool

-- `if err != nil { panic(err) }`
abbrev must : {A : Type 0} → Result A → Result A
must (ok a) = ok a
must (err e) = panic e
must (panic p) = panic p

module _ {Cert KeyPair : Type 0} (crypto : Crypto Cert KeyPair) where
  -- The loop of main, in the order in which it happens to visit the map.
  unfoldable pub build_all : GoMap TlsConfiguration → Result (List Summary)
  build_all [] = ok []
  build_all ((name, c) ∷ rest) = do
    config ← must (new_tls_config crypto c.settings)
    later ← build_all rest
    ok (
        record {
          description = c.description;
          root_ca_count = count_roots config.root_cas;
          certificate_count = length config.certificates;
        }
        ∷ later)

  -- The Secret of the CA is read under the empty name, and not found.
  ss_tls-not_pem :
      (pems : Pems)
      → crypto.pem_decode [] ≡ none
      → new_tls_config crypto (ss_tls_config pems) ≡ err not_pem
  unfolding new_tls_config ss_tls_config build_ca_certificate_pool get_ca_certificate entry lookup
  ss_tls-not_pem pems nothing = rw nothing refl

  then_panics :
      {A B C : Type 0} (r : Result A) (rest : Result B) (f : A → B → Result C) (p : String)
      → rest ≡ panic p
      → (q : String) × ((must r >>= λ a. rest >>= λ b. f a b) ≡ panic q)
  then_panics (ok a) rest f p panics = (p, rw panics refl)
  then_panics (err e) rest f p panics = (e, refl)
  then_panics (panic q) rest f p panics = (q, refl)

  -- Whatever the loop does before it, it panics at the configuration for self-signed TLS.
  build_all-ss_tls :
      (order : GoMap TlsConfiguration) (pems : Pems) (name text : String)
      → crypto.pem_decode [] ≡ none
      → Member (name, record { description = text; settings = ss_tls_config pems }) order
      → (p : String) × (build_all order ≡ panic p)
  unfolding build_all
  build_all-ss_tls [] pems name text nothing member = absurd member
  build_all-ss_tls ((k, c) ∷ rest) pems name text nothing (inl here) =
      let settings_of : String × TlsConfiguration → Settings = λ x. x.1.settings in
      let same : c.settings ≡ ss_tls_config pems = ap settings_of (sym here) in
      (not_pem, rw (ap (new_tls_config crypto) same ∙ ss_tls-not_pem pems nothing) refl)
  build_all-ss_tls ((k, c) ∷ rest) pems name text nothing (inr later) =
      let (p, panics) = build_all-ss_tls rest pems name text nothing later in
      then_panics (new_tls_config crypto c.settings) (build_all rest) _ p panics

-- The harness of the TLS configurations always panics, in whatever order it visits its map and whatever
-- the texts of the certificates, provided that no PEM block is found in no bytes: its settings do
-- not say which Secret has the CA's certificate, which is read as empty, and not decoded.
pub build_all-panics :
    {Cert KeyPair : Type 0} (crypto : Crypto Cert KeyPair) (pems : Pems)
    (order : GoMap TlsConfiguration)
    → crypto.pem_decode [] ≡ none
    → ((entry : String × TlsConfiguration)
        → Member entry (build_config_map pems)
        → Member entry order)
    → (p : String) × (build_all crypto order ≡ panic p)
unfolding build_config_map
build_all-panics crypto pems order nothing visits =
    build_all-ss_tls crypto order pems _ _ nothing (visits _ (inl refl))
