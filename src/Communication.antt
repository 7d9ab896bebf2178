-- ===== src/Communication.antt =====
-- internal/communication: the HTTP client with which the NGINX Plus API is called.
-- http.DefaultTransport is one shared object: `Transports` is the store of transports by address,
-- and a client holds the address of its transport.
pub mod Requests
pub mod Sharing
use nginx_k8s_loadbalancer.Base.{
  ℕ, zero, ◌*◌, String, true, Option, none, some, List, [], ◌∷◌, nat_eq, if◌then◌else◌,
}
use nginx_k8s_loadbalancer.Text.{split_two}
use nginx_k8s_loadbalancer.Result.{Result, ok, err, panic}
use nginx_k8s_loadbalancer.Exec.{Exec}
use nginx_k8s_loadbalancer.GoMap.{GoMap, lookup, insert, copy}
use nginx_k8s_loadbalancer.Configuration.Settings.{Settings, second}
use nginx_k8s_loadbalancer.Authentication
use nginx_k8s_loadbalancer.Authentication.{Crypto, TlsConfig, no_client_cert}

-- Each transport's TLSClientConfig.
abbrev pub Transports : Type 0 → Type 0
Transports T = ℕ → Option T

-- The address of http.DefaultTransport.
abbrev pub default_transport : ℕ
default_transport = 0

pub record RoundTripper : Type 0 where
  pub headers : List String
  pub transport : ℕ

unfoldable pub new_round_tripper : List String → ℕ → RoundTripper
new_round_tripper headers transport = record { headers = headers; transport = transport }

-- http.Request: its headers, and all else that is copied as it is
pub record Request (R : Type 0) : Type 0 where
  pub header : GoMap (List String)
  pub rest : R

-- A configured header is cut at its first colon; one with no colon is left out.
abbrev set_header : List String → GoMap (List String) → GoMap (List String)
set_header (key ∷ value ∷ more) header = insert key (value ∷ []) header
set_header _ header = header

unfoldable pub set_headers : List String → GoMap (List String) → GoMap (List String)
set_headers [] header = header
set_headers (s ∷ headers) header = set_headers headers (set_header (split_two b':' s) header)

-- The request that RoundTrip hands to the wrapped RoundTripper: a copy with the headers set.
unfoldable pub new_request : {R : Type 0} → RoundTripper → Request R → Request R
unfolding set_headers
new_request rt req = record {
  header = set_headers rt.headers (copy req.header []);
  rest = req.rest;
}

-- RoundTrip, over the wrapped RoundTripper `send`
unfoldable pub round_trip : {R A : Type 0} → (Request R → A) → RoundTripper → Request R → A
unfolding new_request
round_trip send rt req = send (new_request rt req)

-- http.Client; the timeout is in nanoseconds.
pub record HttpClient : Type 0 where
  pub round_tripper : RoundTripper
  pub timeout : ℕ

unfoldable pub new_headers : List String
new_headers = "Content-Type: application/json" ∷ "Accept: application/json" ∷ []

-- NewTransport writes the configuration into the shared transport and returns that transport.
unfoldable pub new_transport : {T : Type 0} → T → Transports T → ℕ × Transports T
new_transport config store =
    (default_transport, λ a. if nat_eq a default_transport then some config else store a)

module _ {Cert KeyPair : Type 0} (crypto : Crypto Cert KeyPair) where
  -- An error is logged, and replaced by a configuration that verifies nothing.
  abbrev or_unverified : Result (TlsConfig Cert KeyPair) → Result (TlsConfig Cert KeyPair)
  or_unverified (ok config) = ok config
  or_unverified (err e) = ok (record {
    insecure_skip_verify = true;
    root_cas = none;
    client_auth = no_client_cert;
    certificates = [];
  })
  or_unverified (panic p) = panic p

  unfoldable pub new_tls_config : Settings → Result (TlsConfig Cert KeyPair)
  new_tls_config settings = or_unverified (Authentication.new_tls_config crypto settings)

  abbrev with_config :
      Result (TlsConfig Cert KeyPair) → Exec (Transports (TlsConfig Cert KeyPair)) HttpClient
  with_config (ok config) store =
      let (transport, store') = new_transport config store in
      (
        ok (record {
          round_tripper = new_round_tripper new_headers transport;
          timeout = second * 10;
        }),
        store',
      )
  with_config (err e) store = (err e, store)
  with_config (panic p) store = (panic p, store)

  unfoldable pub new_http_client : Settings → Exec (Transports (TlsConfig Cert KeyPair)) HttpClient
  unfolding new_tls_config new_transport new_round_tripper new_headers
  new_http_client settings = with_config (new_tls_config settings)

-- The TLS configuration that a request of the client is made with, at the time of the request.
abbrev pub config_of : {T : Type 0} → HttpClient → Transports T → Option T
config_of client store = store client.round_tripper.transport
