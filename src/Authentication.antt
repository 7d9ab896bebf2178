-- ===== src/Authentication.antt =====
-- internal/authentication/factory.go: the tls.Config for the configured mode. Decoding PEM, parsing
-- certificates and checking key pairs are functions of crypto/tls, crypto/x509 and encoding/pem;
-- they are a record of functions over abstract certificates and key pairs.
pub mod Modes
pub mod Panics
use nginx_k8s_loadbalancer.Base.{ℕ, String, Bool, true, false, Option, none, some, List, [], ◌∷◌}
use nginx_k8s_loadbalancer.Text.{◌⧺◌}
use nginx_k8s_loadbalancer.Result.{
  Error, Result, ok, err, panic, ◌>>=◌, Reply, replied, refused, answered,
}
use nginx_k8s_loadbalancer.Core.{SecretBytes}
use nginx_k8s_loadbalancer.Certification.{Certificates, get_ca_certificate, get_client_certificate}
use nginx_k8s_loadbalancer.Configuration.TlsModes.{
  TlsMode, no_tls, certificate_authority_tls, certificate_authority_mutual_tls, self_signed_tls,
  self_signed_mutual_tls, other, to_string,
}
use nginx_k8s_loadbalancer.Configuration.Settings.{Settings}

pub record Crypto (Cert KeyPair : Type 0) : Type 0 where
  -- pem.Decode: the bytes of the first block, or nil
  pub pem_decode : List ℕ → Option (List ℕ)
  -- x509.ParseCertificate
  pub parse_certificate : List ℕ → Reply Cert
  -- tls.X509KeyPair(certPEMBlock, keyPEMBlock)
  pub x509_key_pair : List ℕ → List ℕ → Reply KeyPair

-- tls.ClientAuthType: the zero value, and RequireAndVerifyClientCert
pub data ClientAuth : Type 0 where
  no_client_cert require_and_verify_client_cert : ClientAuth

-- tls.Config: the fields that are set. `none` for the root CAs is a nil pool: the host's own.
pub record TlsConfig (Cert KeyPair : Type 0) : Type 0 where
  pub insecure_skip_verify : Bool
  pub root_cas : Option (List Cert)
  pub client_auth : ClientAuth
  pub certificates : List KeyPair

abbrev pub parsing_failed : Error → Error
parsing_failed e = "error parsing certificate: " ⧺ e

abbrev pub not_pem : Error
not_pem = "failed to decode PEM block containing CA certificate"

-- A method call on a nil *Certificates.
abbrev pub or_nil : Option Certificates → Result Certificates
or_nil none = panic "nil pointer dereference"
or_nil (some c) = ok c

module _ {Cert KeyPair : Type 0} where
  unfoldable pub build_basic_tls_config : Bool → TlsConfig Cert KeyPair
  build_basic_tls_config skip_verify = record {
    insecure_skip_verify = skip_verify;
    root_cas = none;
    client_auth = no_client_cert;
    certificates = [];
  }

module _ {Cert KeyPair : Type 0} (crypto : Crypto Cert KeyPair) where
  unfoldable pub build_certificates : SecretBytes → SecretBytes → Result KeyPair
  build_certificates private_key_pem certificate_pem =
      answered (λ e. e) (crypto.x509_key_pair certificate_pem.bytes private_key_pem.bytes)

  abbrev pool_of : Option (List ℕ) → Result (List Cert)
  pool_of none = err not_pem
  pool_of (some block) = do
    cert ← answered parsing_failed (crypto.parse_certificate block)
    ok (cert ∷ [])

  unfoldable pub build_ca_certificate_pool : SecretBytes → Result (List Cert)
  build_ca_certificate_pool ca_cert = pool_of (crypto.pem_decode ca_cert.bytes)

  unfoldable pub build_self_signed_tls_config :
      Option Certificates → Result (TlsConfig Cert KeyPair)
  unfolding build_ca_certificate_pool
  build_self_signed_tls_config certificates = do
    c ← or_nil certificates
    pool ← build_ca_certificate_pool (get_ca_certificate c)
    ok (record {
      insecure_skip_verify = false;
      root_cas = some pool;
      client_auth = no_client_cert;
      certificates = [];
    })

  unfoldable pub build_self_signed_mtls_config :
      Option Certificates → Result (TlsConfig Cert KeyPair)
  unfolding build_ca_certificate_pool build_certificates
  build_self_signed_mtls_config certificates = do
    c ← or_nil certificates
    pool ← build_ca_certificate_pool (get_ca_certificate c)
    pair ← build_certificates (get_client_certificate c).0 (get_client_certificate c).1
    ok (record {
      insecure_skip_verify = false;
      root_cas = some pool;
      client_auth = require_and_verify_client_cert;
      certificates = pair ∷ [];
    })

  unfoldable pub build_ca_tls_config : Option Certificates → Result (TlsConfig Cert KeyPair)
  unfolding build_certificates
  build_ca_tls_config certificates = do
    c ← or_nil certificates
    pair ← build_certificates (get_client_certificate c).0 (get_client_certificate c).1
    ok (record {
      insecure_skip_verify = false;
      root_cas = none;
      client_auth = no_client_cert;
      certificates = pair ∷ [];
    })

  -- The switch of NewTlsConfig.
  config_for : TlsMode → Option Certificates → Result (TlsConfig Cert KeyPair)
  unfolding build_basic_tls_config build_self_signed_tls_config build_self_signed_mtls_config
      build_ca_tls_config
  config_for no_tls certificates = ok (build_basic_tls_config true)
  config_for self_signed_tls certificates = build_self_signed_tls_config certificates
  config_for self_signed_mutual_tls certificates = build_self_signed_mtls_config certificates
  config_for certificate_authority_tls certificates = ok (build_basic_tls_config false)
  config_for certificate_authority_mutual_tls certificates = build_ca_tls_config certificates
  config_for (other z) certificates = err ("unknown TLS mode: " ⧺ to_string (other z))

  unfoldable pub new_tls_config : Settings → Result (TlsConfig Cert KeyPair)
  unfolding config_for
  new_tls_config settings = config_for settings.tls_mode settings.certificates
