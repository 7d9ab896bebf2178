-- ===== src/Communication/Sharing.antt =====
-- The transport is shared: what the creation of a client writes, all clients use.
use nginx_k8s_loadbalancer.Base.{◌≡◌, refl, ap, ◌∙◌, ◌*◌, [], true, none, some, arith}
use nginx_k8s_loadbalancer.Result.{Error, ok, err}
use nginx_k8s_loadbalancer.Configuration.Settings.{Settings, second}
use nginx_k8s_loadbalancer.Authentication
use nginx_k8s_loadbalancer.Authentication.{Crypto, TlsConfig, no_client_cert}
use nginx_k8s_loadbalancer.Communication.{
  Transports, HttpClient, new_tls_config, new_http_client, config_of, new_headers,
  default_transport,
}

module _ {Cert KeyPair : Type 0} (crypto : Crypto Cert KeyPair) (s : Settings)
    (store : Transports (TlsConfig Cert KeyPair)) where
  transport-new_http_client :
      (a : HttpClient)
      → (new_http_client crypto s store).0 ≡ ok a
      → a.round_tripper.transport ≡ default_transport
  unfolding new_http_client
  transport-new_http_client a made = ground arith

  -- Any client uses the configuration of the client that is made last.
  config_of-new_http_client :
      (a b : HttpClient)
      → a.round_tripper.transport ≡ default_transport
      → (new_http_client crypto s store).0 ≡ ok b
      → (config : TlsConfig Cert KeyPair) × (new_tls_config crypto s ≡ ok config)
        × (config_of a (new_http_client crypto s store).1 ≡ some config)
  unfolding new_http_client
  config_of-new_http_client a b shared made = ground arith

  -- When the factory of TLS configurations returns an error, the caller sees none: the client is
  -- made, and its transport is configured to skip the verification of the server.
  pub new_http_client_unverified :
      (e : Error)
      → Authentication.new_tls_config crypto s ≡ err e
      → (a : HttpClient) × (config : TlsConfig Cert KeyPair) × ((new_http_client crypto s store).0
          ≡ ok a)
        × (config_of a (new_http_client crypto s store).1 ≡ some config)
        × (config.insecure_skip_verify ≡ true)
  unfolding new_http_client
  new_http_client_unverified e failed = (
    record {
      round_tripper = record { headers = new_headers; transport = default_transport };
      timeout = second * 10;
    },
    record {
      insecure_skip_verify = true;
      root_cas = none;
      client_auth = no_client_cert;
      certificates = [];
    },
    ground arith,
    ground arith,
    refl,
  )

-- When a client b is made from settings s' after a client a was made from settings s, both send
-- their requests with the configuration that the settings s' call for.
pub new_http_client_shared :
    {Cert KeyPair : Type 0} (crypto : Crypto Cert KeyPair) (s s' : Settings)
    (store : Transports (TlsConfig Cert KeyPair)) (a b : HttpClient)
    → (new_http_client crypto s store).0 ≡ ok a
    → (new_http_client crypto s' (new_http_client crypto s store).1).0 ≡ ok b
    → (config : TlsConfig Cert KeyPair) × (new_tls_config crypto s' ≡ ok config)
      × (config_of a (new_http_client crypto s' (new_http_client crypto s store).1).1 ≡ some config)
      × (config_of b (new_http_client crypto s' (new_http_client crypto s store).1).1 ≡ some config)
new_http_client_shared crypto s s' store a b first later =
    let middle = (new_http_client crypto s store).1 in
    let at_a = transport-new_http_client crypto s store a first in
    let at_b = transport-new_http_client crypto s' middle b later in
    let (config, made, used) = config_of-new_http_client crypto s' middle a b at_a later in
    let (config', made', used') = config_of-new_http_client crypto s' middle b b at_b later in
    let same : config' ≡ config = cc in (config, made, used, used' ∙ ap some same)
