-- ===== src/Tests/Fixtures.antt =====
-- The data of the tests: a Service with two ports that are ours and one that is not, on two nodes.
use nginx_k8s_loadbalancer.Base.{ℕ, String, Option, none, some, List, [], ◌∷◌}
use nginx_k8s_loadbalancer.Text.Decimal.{pos}
use nginx_k8s_loadbalancer.Certification.{Certificates}
use nginx_k8s_loadbalancer.Configuration.TlsModes.{TlsMode, no_tls}
use nginx_k8s_loadbalancer.Configuration.Settings.{Settings, new_settings}
use nginx_k8s_loadbalancer.Authentication.{Crypto}
use nginx_k8s_loadbalancer.Result.{replied}
use nginx_k8s_loadbalancer.Application.{NginxClientInterface}
use nginx_k8s_loadbalancer.Core.{
  ServicePort, Service, EventType, updated, deleted, Event, UpstreamServer, ServerUpdateEvent,
}

abbrev pub tea_port : ServicePort
tea_port = record { name = "nlk-tea"; node_port = pos 30080 }

abbrev pub admin_port : ServicePort
admin_port = record { name = "admin"; node_port = pos 30081 }

abbrev pub dns_port : ServicePort
dns_port = record { name = "nlk-dns"; node_port = pos 30053 }

abbrev pub sample_service : Service
sample_service = record {
  ports = tea_port ∷ admin_port ∷ dns_port ∷ [];
  annotations = some (("nginxinc.io/nlk-dns", "stream") ∷ []);
}

abbrev pub event_of : EventType → Event
event_of t = record {
  event_type = t;
  service = sample_service;
  previous_service = none;
  node_ips = "10.0.0.1" ∷ "10.0.0.2" ∷ [];
}

abbrev pub update_of : EventType → String → String → List UpstreamServer → ServerUpdateEvent
update_of t client_type name servers = record {
  client_type = client_type;
  id = "";
  nginx_host = "";
  event_type = t;
  upstream_name = name;
  upstream_servers = servers;
}

abbrev pub server : String → UpstreamServer
server host = record { host = host }

abbrev pub sample_deletions : List ServerUpdateEvent
sample_deletions =
    update_of deleted "http" "tea" (server "10.0.0.1:30080" ∷ [])
    ∷ update_of deleted "http" "tea" (server "10.0.0.2:30080" ∷ [])
    ∷ update_of deleted "stream" "dns" (server "10.0.0.1:30053" ∷ [])
    ∷ update_of deleted "stream" "dns" (server "10.0.0.2:30053" ∷ [])
    ∷ []

abbrev pub sample_updates : List ServerUpdateEvent
sample_updates =
    update_of updated "http" "tea" (server "10.0.0.1:30080" ∷ server "10.0.0.2:30080" ∷ [])
    ∷ update_of updated "stream" "dns" (server "10.0.0.1:30053" ∷ server "10.0.0.2:30053" ∷ [])
    ∷ []

abbrev pub sample_certificates : Certificates
sample_certificates = record {
  certificates = some (
      ("nlk-ca", ("tls.crt", record { bytes = 1 ∷ 11 ∷ [] }) ∷ [])
      ∷ (
        "nlk-client",
        ("tls.crt", record { bytes = 2 ∷ [] }) ∷ ("tls.key", record { bytes = 3 ∷ [] }) ∷ [],
      )
      ∷ []);
  ca_certificate_secret_key = "nlk-ca";
  client_certificate_secret_key = "nlk-client";
  informer = none;
}

-- The default settings, in a mode, with two hosts and the certificates.
abbrev pub settings_in : TlsMode → Settings
settings_in mode = record new_settings {
  nginx_plus_hosts = "https://10.1.1.4:9000/api" ∷ "https://10.1.1.5:9000/api" ∷ [];
  tls_mode = mode;
  certificates = some sample_certificates;
}

-- A PEM block is all bytes but the first; parsing and pairing keep the bytes.
abbrev decode : List ℕ → Option (List ℕ)
decode [] = none
decode (b ∷ bytes) = some bytes

abbrev pub sample_crypto : Crypto (List ℕ) (List ℕ × List ℕ)
sample_crypto = record {
  pem_decode = decode;
  parse_certificate = λ block. replied block;
  x509_key_pair = λ certificate key. replied (certificate, key);
}

abbrev pub sample_settings : Settings
sample_settings = settings_in no_tls

-- An API whose world is the list of the calls it got; it refuses deletions.
abbrev pub sample_api : NginxClientInterface (List String)
sample_api = record {
  delete_stream_server = λ upstream host w. (some "no such server", host ∷ w);
  update_stream_servers = λ upstream servers w.
      (record { added = servers; deleted = []; updated = []; error = none }, upstream ∷ w);
  delete_http_server = λ upstream host w. (some "no such server", host ∷ w);
  update_http_servers = λ upstream servers w.
      (record { added = servers; deleted = []; updated = []; error = none }, upstream ∷ w);
}
