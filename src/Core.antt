-- ===== src/Core.antt =====
-- internal/core: the events that the parts exchange, and SecretBytes. Of the Kubernetes objects the
-- fields that the program reads are kept.
use nginx_k8s_loadbalancer.Base.{ℕ, String, Option, List}
use nginx_k8s_loadbalancer.Text.Decimal.{ℤ}
use nginx_k8s_loadbalancer.GoMap.{GoMap}

-- v1.ServicePort
pub record ServicePort : Type 0 where
  pub name : String
  pub node_port : ℤ

-- v1.Service: `Spec.Ports` and `Annotations`, a map that may be nil
pub record Service : Type 0 where
  pub ports : List ServicePort
  pub annotations : Option (GoMap String)

-- `other` is an int that none of the constants names.
pub data EventType : Type 0 where
  created updated deleted : EventType
  other : ℤ → EventType

pub record Event : Type 0 where
  pub event_type : EventType
  pub service : Service
  pub previous_service : Option Service
  pub node_ips : List String

unfoldable pub new_event : EventType → Service → Option Service → List String → Event
new_event t service previous_service node_ips = record {
  event_type = t;
  service = service;
  previous_service = previous_service;
  node_ips = node_ips;
}

pub record UpstreamServer : Type 0 where
  pub host : String

unfoldable pub new_upstream_server : String → UpstreamServer
new_upstream_server host = record { host = host }

pub record ServerUpdateEvent : Type 0 where
  pub client_type : String
  pub id : String
  pub nginx_host : String
  pub event_type : EventType
  pub upstream_name : String
  pub upstream_servers : List UpstreamServer

unfoldable pub new_server_update_event :
    EventType → String → String → List UpstreamServer → ServerUpdateEvent
new_server_update_event t upstream_name client_type upstream_servers = record {
  client_type = client_type;
  id = "";
  nginx_host = "";
  event_type = t;
  upstream_name = upstream_name;
  upstream_servers = upstream_servers;
}

unfoldable pub with_id_and_host : ServerUpdateEvent → String → String → ServerUpdateEvent
with_id_and_host event id nginx_host = record {
  client_type = event.client_type;
  id = id;
  nginx_host = nginx_host;
  event_type = event.event_type;
  upstream_name = event.upstream_name;
  upstream_servers = event.upstream_servers;
}

abbrev name_of : EventType → String
name_of created = "Created"
name_of updated = "Updated"
name_of deleted = "Deleted"
name_of (other n) = "Unknown"

unfoldable pub type_name : ServerUpdateEvent → String
type_name e = name_of e.event_type

-- core.SecretBytes, a []byte
pub record SecretBytes : Type 0 where
  pub bytes : List ℕ

-- SecretBytes.String
unfoldable pub secret_string : SecretBytes → String
secret_string sb = "[REDACTED]"

-- SecretBytes.MarshalJSON; json.Marshal quotes a text that needs no escapes.
unfoldable pub secret_json : SecretBytes → String
secret_json sb = "\"[REDACTED]\""
