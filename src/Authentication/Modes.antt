-- ===== src/Authentication/Modes.antt =====
-- What each TLS mode asks of the other side and offers to it.
use nginx_k8s_loadbalancer.Base.{
  ℕ, ◌≡◌, refl, sym, ap, ◌∙◌, subst, ◌↔◌, Bool, true, false, Option, none, some, List, [], ◌∷◌,
  arith, Option-cases, inl, inr,
}
use nginx_k8s_loadbalancer.Result.{ok, replied, Reply-cases, >>=-eq-ok, ok-injective}
use nginx_k8s_loadbalancer.Certification.{Certificates, get_ca_certificate, get_client_certificate}
use nginx_k8s_loadbalancer.Configuration.TlsModes.{
  TlsMode, no_tls, certificate_authority_tls, certificate_authority_mutual_tls, self_signed_tls,
  self_signed_mutual_tls, other,
}
use nginx_k8s_loadbalancer.Configuration.Settings.{Settings}
use nginx_k8s_loadbalancer.Authentication.{
  Crypto, TlsConfig, build_basic_tls_config, build_self_signed_tls_config,
  build_self_signed_mtls_config, build_ca_tls_config, build_ca_certificate_pool, build_certificates,
  config_for, new_tls_config,
}

-- The modes that trust a CA of their own, and those that show a certificate.
abbrev pub HasOwnCa : TlsMode → Type 0
HasOwnCa self_signed_tls = Unit
HasOwnCa self_signed_mutual_tls = Unit
HasOwnCa _ = ⊥

abbrev pub IsMutual : TlsMode → Type 0
IsMutual certificate_authority_mutual_tls = Unit
IsMutual self_signed_mutual_tls = Unit
IsMutual _ = ⊥

-- The CA pool holds the certificate that the CA Secret's PEM block parses to.
pub record IsPoolOf {Cert KeyPair : Type 0} (crypto : Crypto Cert KeyPair) (c : Certificates)
    (pool : Option (List Cert)) : Type 0 where
  pub block : List ℕ
  pub cert : Cert
  pub decoded : crypto.pem_decode (get_ca_certificate c).bytes ≡ some block
  pub parsed : crypto.parse_certificate block ≡ replied cert
  pub pooled : pool ≡ some (cert ∷ [])

-- The key pair is that of the client Secret's certificate and key, in this order.
pub record IsPairOf {Cert KeyPair : Type 0} (crypto : Crypto Cert KeyPair) (c : Certificates)
    (pairs : List KeyPair) : Type 0 where
  pub pair : KeyPair
  pub checked :
      crypto.x509_key_pair (get_client_certificate c).1.bytes (get_client_certificate c).0.bytes
      ≡ replied pair
  pub shown : pairs ≡ pair ∷ []

-- What the configuration for a mode is, once it is made.
pub record IsConfigFor {Cert KeyPair : Type 0} (crypto : Crypto Cert KeyPair) (m : TlsMode)
    (c : Certificates) (cfg : TlsConfig Cert KeyPair) : Type 0 where
  pub skips : (cfg.insecure_skip_verify ≡ true) ↔ (m ≡ no_tls)
  pub own_ca : HasOwnCa m → IsPoolOf crypto c cfg.root_cas
  pub host_ca : ¬ HasOwnCa m → cfg.root_cas ≡ none
  pub client_pair : IsMutual m → IsPairOf crypto c cfg.certificates
  pub no_pair : ¬ IsMutual m → cfg.certificates ≡ []

module _ {Cert KeyPair : Type 0} (crypto : Crypto Cert KeyPair) (c : Certificates) where
  pool-eq-ok :
      (pool : List Cert)
      → build_ca_certificate_pool crypto (get_ca_certificate c) ≡ ok pool
      → IsPoolOf crypto c (some pool)
  unfolding build_ca_certificate_pool
  pool-eq-ok pool h = elim (Option-cases (crypto.pem_decode (get_ca_certificate c).bytes)) [
    | inl missing ↦ absurd (ground arith)
    | inr (b, found) ↦ elim (Reply-cases (crypto.parse_certificate b)) [
      | inl (cert, good) ↦ record {
        block = b;
        cert = cert;
        decoded = found;
        parsed = good;
        pooled = ground arith;
      }
      | inr (e, bad) ↦ absurd (ground arith)
    ]
  ]

  pair-eq-ok :
      (pair : KeyPair)
      → build_certificates crypto (get_client_certificate c).0 (get_client_certificate c).1
        ≡ ok pair
      → IsPairOf crypto c (pair ∷ [])
  unfolding build_certificates
  pair-eq-ok pair h = record { pair = pair; checked = ground arith; shown = refl }

  basic-IsConfigFor :
      (m : TlsMode) (skip : Bool)
      → (skip ≡ true) ↔ (m ≡ no_tls)
      → ¬ HasOwnCa m
      → ¬ IsMutual m
      → IsConfigFor crypto m c (build_basic_tls_config skip)
  unfolding build_basic_tls_config
  basic-IsConfigFor m skip iff no_ca one_way = record {
    skips = iff;
    own_ca = λ x. absurd (no_ca x);
    host_ca = λ _. refl;
    client_pair = λ x. absurd (one_way x);
    no_pair = λ _. refl;
  }

  self_signed-IsConfigFor :
      (cfg : TlsConfig Cert KeyPair)
      → build_self_signed_tls_config crypto (some c) ≡ ok cfg
      → IsConfigFor crypto self_signed_tls c cfg
  unfolding build_self_signed_tls_config
  self_signed-IsConfigFor cfg h =
      let (pool, made, e) =
        >>=-eq-ok (build_ca_certificate_pool crypto (get_ca_certificate c)) _ h in
      subst (IsConfigFor crypto self_signed_tls c) (ok-injective e) (record {
        skips = (λ x. cc, λ x. cc);
        own_ca = λ x. pool-eq-ok pool made;
        host_ca = λ x. absurd (x tt);
        client_pair = λ x. absurd x;
        no_pair = λ x. refl;
      })

  self_signed_mutual-IsConfigFor :
      (cfg : TlsConfig Cert KeyPair)
      → build_self_signed_mtls_config crypto (some c) ≡ ok cfg
      → IsConfigFor crypto self_signed_mutual_tls c cfg
  unfolding build_self_signed_mtls_config
  self_signed_mutual-IsConfigFor cfg h =
      let (pool, made, rest) =
        >>=-eq-ok (build_ca_certificate_pool crypto (get_ca_certificate c)) _ h in
      let (pair, checked, e) =
        >>=-eq-ok
          (build_certificates crypto (get_client_certificate c).0 (get_client_certificate c).1) _
          rest in
      subst (IsConfigFor crypto self_signed_mutual_tls c) (ok-injective e) (record {
        skips = (λ x. cc, λ x. cc);
        own_ca = λ x. pool-eq-ok pool made;
        host_ca = λ x. absurd (x tt);
        client_pair = λ x. pair-eq-ok pair checked;
        no_pair = λ x. absurd (x tt);
      })

  mutual-IsConfigFor :
      (cfg : TlsConfig Cert KeyPair)
      → build_ca_tls_config crypto (some c) ≡ ok cfg
      → IsConfigFor crypto certificate_authority_mutual_tls c cfg
  unfolding build_ca_tls_config
  mutual-IsConfigFor cfg h =
      let (pair, checked, e) =
        >>=-eq-ok
          (build_certificates crypto (get_client_certificate c).0 (get_client_certificate c).1) _
          h in
      subst (IsConfigFor crypto certificate_authority_mutual_tls c) (ok-injective e) (record {
        skips = (λ x. cc, λ x. cc);
        own_ca = λ x. absurd x;
        host_ca = λ x. refl;
        client_pair = λ x. pair-eq-ok pair checked;
        no_pair = λ x. absurd (x tt);
      })

  config_for-IsConfigFor :
      (m : TlsMode) (cfg : TlsConfig Cert KeyPair)
      → config_for crypto m (some c) ≡ ok cfg
      → IsConfigFor crypto m c cfg
  unfolding config_for
  config_for-IsConfigFor no_tls cfg h =
      subst (IsConfigFor crypto no_tls c) (ok-injective h)
        (basic-IsConfigFor no_tls true (λ x. refl, λ x. refl) (λ x. x) (λ x. x))
  config_for-IsConfigFor certificate_authority_tls cfg h =
      subst (IsConfigFor crypto certificate_authority_tls c) (ok-injective h)
        (basic-IsConfigFor certificate_authority_tls false (λ x. cc, λ x. cc) (λ x. x) (λ x. x))
  config_for-IsConfigFor certificate_authority_mutual_tls cfg h = mutual-IsConfigFor cfg h
  config_for-IsConfigFor self_signed_tls cfg h = self_signed-IsConfigFor cfg h
  config_for-IsConfigFor self_signed_mutual_tls cfg h = self_signed_mutual-IsConfigFor cfg h
  config_for-IsConfigFor (other z) cfg h = cc

-- A configuration that is made skips the verification of the other side exactly in mode no-tls. In
-- the self-signed modes its root CAs are the one certificate of the CA Secret, in the others the
-- host's; in the mutual modes it shows the key pair of the client Secret, in the others none.
pub new_tls_config-IsConfigFor :
    {Cert KeyPair : Type 0} (crypto : Crypto Cert KeyPair) (s : Settings) (c : Certificates)
    (cfg : TlsConfig Cert KeyPair)
    → s.certificates ≡ some c
    → new_tls_config crypto s ≡ ok cfg
    → IsConfigFor crypto s.tls_mode c cfg
unfolding new_tls_config
new_tls_config-IsConfigFor crypto s c cfg made h =
    config_for-IsConfigFor crypto c s.tls_mode cfg
      (sym (ap (config_for crypto s.tls_mode) made) ∙ h)
