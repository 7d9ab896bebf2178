-- ===== src/Authentication/Panics.antt =====
-- Making a TLS configuration does not panic once the certificates are made.
use nginx_k8s_loadbalancer.Base.{◌≡◌, Option, none, some, List, ℕ}
use nginx_k8s_loadbalancer.Result.{
  Error, Result, ok, err, panic, Reply, replied, refused, answered, ◌>>=◌,
}
use nginx_k8s_loadbalancer.Exec.Rules.{NoPanic}
use nginx_k8s_loadbalancer.Core.{SecretBytes}
use nginx_k8s_loadbalancer.Certification.{Certificates}
use nginx_k8s_loadbalancer.Configuration.TlsModes.{
  TlsMode, no_tls, certificate_authority_tls, certificate_authority_mutual_tls, self_signed_tls,
  self_signed_mutual_tls, other,
}
use nginx_k8s_loadbalancer.Configuration.Settings.{Settings}
use nginx_k8s_loadbalancer.Authentication.{
  Crypto, config_for, new_tls_config, build_certificates, build_ca_certificate_pool, pool_of,
}

bind-NoPanic :
    {A B : Type 0} (r : Result A) (f : A → Result B)
    → NoPanic r
    → ((a : A) → NoPanic (f a))
    → NoPanic (r >>= f)
bind-NoPanic (ok a) f h k = k a
bind-NoPanic (err e) f h k = tt
bind-NoPanic (panic p) f h k = h

answered-NoPanic : {A : Type 0} (f : Error → Error) (r : Reply A) → NoPanic (answered f r)
answered-NoPanic f (replied a) = tt
answered-NoPanic f (refused e) = tt

module _ {Cert KeyPair : Type 0} (crypto : Crypto Cert KeyPair) where
  pool_of-NoPanic : (block : Option (List ℕ)) → NoPanic (pool_of crypto block)
  pool_of-NoPanic none = tt
  pool_of-NoPanic (some block) =
      bind-NoPanic (answered _ (crypto.parse_certificate block)) _
        (answered-NoPanic _ (crypto.parse_certificate block)) (λ c. tt)

  pool-NoPanic : (b : SecretBytes) → NoPanic (build_ca_certificate_pool crypto b)
  unfolding build_ca_certificate_pool
  pool-NoPanic b = pool_of-NoPanic (crypto.pem_decode b.bytes)

  pair-NoPanic : (key cert : SecretBytes) → NoPanic (build_certificates crypto key cert)
  unfolding build_certificates
  pair-NoPanic key cert = answered-NoPanic _ (crypto.x509_key_pair cert.bytes key.bytes)

  config_for-NoPanic : (m : TlsMode) (c : Certificates) → NoPanic (config_for crypto m (some c))
  unfolding config_for
  config_for-NoPanic no_tls c = tt
  config_for-NoPanic certificate_authority_tls c = tt
  config_for-NoPanic certificate_authority_mutual_tls c =
      bind-NoPanic (build_certificates crypto _ _) _ (pair-NoPanic _ _) (λ p. tt)
  config_for-NoPanic self_signed_tls c =
      bind-NoPanic (build_ca_certificate_pool crypto _) _ (pool-NoPanic _) (λ p. tt)
  config_for-NoPanic self_signed_mutual_tls c =
      bind-NoPanic (build_ca_certificate_pool crypto _) _ (pool-NoPanic _)
        (λ p. bind-NoPanic (build_certificates crypto _ _) _ (pair-NoPanic _ _) (λ q. tt))
  config_for-NoPanic (other z) c = tt

  pub new_tls_config-NoPanic :
      (s : Settings) (c : Certificates)
      → s.certificates ≡ some c
      → NoPanic (new_tls_config crypto s)
  unfolding new_tls_config
  new_tls_config-NoPanic s c made = rw made (config_for-NoPanic s.tls_mode c)
