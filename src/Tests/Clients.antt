-- ===== src/Tests/Clients.antt =====
-- Runs of the factories of TLS configurations, HTTP clients and border clients, and their theorems
-- at them.
use nginx_k8s_loadbalancer.Certification.{get_ca_certificate, get_client_certificate}
use nginx_k8s_loadbalancer.Base.{
  ℕ, String, ◌≡◌, ◌↔◌, ◌⊎◌, refl, none, some, true, false, List, [], ◌∷◌, ◌==◌, if◌then◌else◌,
}
use nginx_k8s_loadbalancer.Result.{ok, err}
use nginx_k8s_loadbalancer.GoMap.{lookup}
use nginx_k8s_loadbalancer.Text.Decimal.{pos}
use nginx_k8s_loadbalancer.GoMap.Laws.{HasDistinctKeys}
use nginx_k8s_loadbalancer.Configuration.TlsModes.{no_tls, self_signed_mutual_tls, other, to_string}
use nginx_k8s_loadbalancer.Authentication
use nginx_k8s_loadbalancer.Authentication.{TlsConfig, require_and_verify_client_cert}
use nginx_k8s_loadbalancer.Authentication.Modes.{IsConfigFor, new_tls_config-IsConfigFor}
use nginx_k8s_loadbalancer.Communication.{
  Transports, HttpClient, Request, new_http_client, new_tls_config, config_of, new_headers,
  new_request, new_round_tripper,
}
use nginx_k8s_loadbalancer.Communication.Requests.{json, new_request-header}
use nginx_k8s_loadbalancer.Communication.Sharing.{
  new_http_client_shared, new_http_client_unverified,
}
use nginx_k8s_loadbalancer.Application.{
  nginx, stream, http, new_border_client, client_type_nginx_stream, client_type_nginx_http,
  NginxClientInterface,
}
use nginx_k8s_loadbalancer.Application.Laws.{new_border_client_iff}
use nginx_k8s_loadbalancer.Tests.Fixtures.{
  sample_crypto, sample_certificates, settings_in, sample_api,
}

abbrev Config : Type 0
Config = TlsConfig (List ℕ) (List ℕ × List ℕ)

abbrev mutual_config : Config
mutual_config = record {
  insecure_skip_verify = false;
  root_cas = some ((11 ∷ []) ∷ []);
  client_auth = require_and_verify_client_cert;
  certificates = (2 ∷ [], 3 ∷ []) ∷ [];
}

made_mutual :
    Authentication.new_tls_config sample_crypto (settings_in self_signed_mutual_tls)
    ≡ ok mutual_config
unfolding Authentication.new_tls_config get_ca_certificate lookup get_client_certificate
made_mutual = refl

new_tls_config-IsConfigFor_example :
    IsConfigFor sample_crypto self_signed_mutual_tls sample_certificates mutual_config
new_tls_config-IsConfigFor_example =
    new_tls_config-IsConfigFor sample_crypto (settings_in self_signed_mutual_tls)
      sample_certificates mutual_config refl made_mutual

abbrev no_transports : Transports Config
no_transports a = none

abbrev after : Transports Config
after = (new_http_client sample_crypto (settings_in self_signed_mutual_tls) no_transports).1

abbrev sample_client : HttpClient
sample_client = record {
  round_tripper = record { headers = new_headers; transport = 0 };
  timeout = 10000000000;
}

made_first :
    (new_http_client sample_crypto (settings_in self_signed_mutual_tls) no_transports).0
    ≡ ok sample_client
unfolding new_http_client Authentication.new_tls_config get_ca_certificate lookup
made_first = refl

made_later : (new_http_client sample_crypto (settings_in no_tls) after).0 ≡ ok sample_client
unfolding new_http_client Authentication.new_tls_config
made_later = refl

new_http_client_shared_example :
    (config : Config) × (new_tls_config sample_crypto (settings_in no_tls) ≡ ok config)
    × (config_of sample_client (new_http_client sample_crypto (settings_in no_tls) after).1
        ≡ some config)
    × (config_of sample_client (new_http_client sample_crypto (settings_in no_tls) after).1
        ≡ some config)
new_http_client_shared_example =
    new_http_client_shared sample_crypto (settings_in self_signed_mutual_tls) (settings_in no_tls)
      no_transports sample_client sample_client made_first made_later

unknown_mode :
    Authentication.new_tls_config sample_crypto (settings_in (other (pos 9)))
    ≡ err "unknown TLS mode: "
unfolding Authentication.new_tls_config to_string
unknown_mode = refl

new_http_client_unverified_example :
    (a : HttpClient) × (config : Config) × ((new_http_client sample_crypto
        (settings_in (other (pos 9)))
        no_transports).0
      ≡ ok a)
    × (config_of a (new_http_client sample_crypto (settings_in (other (pos 9))) no_transports).1
        ≡ some config)
    × (config.insecure_skip_verify ≡ true)
new_http_client_unverified_example =
    new_http_client_unverified sample_crypto (settings_in (other (pos 9))) no_transports
      "unknown TLS mode: " unknown_mode

abbrev sample_request : Request String
sample_request = record { header = ("Accept", "*/*" ∷ []) ∷ ("Host", "a" ∷ []) ∷ []; rest = "body" }

distinct_headers : HasDistinctKeys sample_request.header
unfolding lookup
distinct_headers = (refl, (refl, tt))

new_request-header_example :
    (lookup "Host" (new_request (new_round_tripper new_headers 0) sample_request).header ≡ (
      if "Accept" == "Host"
      then some json
      else if "Content-Type" == "Host"
      then some json
      else lookup "Host" sample_request.header))
    × ((new_request (new_round_tripper new_headers 0) sample_request).rest ≡ sample_request.rest)
new_request-header_example = new_request-header 0 sample_request "Host" distinct_headers

new_border_client_iff_example :
    (new_border_client "stream" (nginx sample_api) ≡ (some (stream sample_api), none)) ↔ (
      (c : NginxClientInterface (List String)) × (nginx sample_api ≡ nginx c)
      × ((("stream" ≡ client_type_nginx_stream) × (some (stream sample_api) ≡ some (stream c)))
          ⊎ (("stream" ≡ client_type_nginx_http) × (some (stream sample_api) ≡ some (http c)))))
new_border_client_iff_example =
    new_border_client_iff "stream" (nginx sample_api) (some (stream sample_api))
