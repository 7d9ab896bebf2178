-- ===== src/Translation.antt =====
-- internal/translation/translator.go: a Service's event becomes the updates of the upstreams.
pub mod Relation
pub mod Counts
pub mod Hosts
use nginx_k8s_loadbalancer.Base.{String, Option, none, some, List, [], ◌∷◌, ◌++◌, if◌then◌else◌}
use nginx_k8s_loadbalancer.Text.{◌⧺◌, has_prefix, slice_from}
use nginx_k8s_loadbalancer.Text.Decimal.{format}
use nginx_k8s_loadbalancer.Result.{Result, ok, or_panic, ◌>>=◌}
use nginx_k8s_loadbalancer.GoMap.{GoMap, lookup}
use nginx_k8s_loadbalancer.Core.{
  ServicePort, EventType, created, updated, deleted, other, Event, UpstreamServer,
  new_upstream_server, ServerUpdateEvent, new_server_update_event,
}
use nginx_k8s_loadbalancer.Configuration.Constants.{nlk_prefix, port_annotation_prefix}
use nginx_k8s_loadbalancer.Application.{client_type_nginx_http}

unfoldable pub filter_ports : List ServicePort → List ServicePort
filter_ports [] = []
filter_ports (port ∷ ports) =
    let rest = filter_ports ports in if has_prefix port.name nlk_prefix then port ∷ rest else rest

-- name[4:]
unfoldable pub fix_ingress_name : String → Result String
fix_ingress_name name = or_panic (slice_from 4 name) "slice bounds out of range"

unfoldable pub host_of : String → ServicePort → String
host_of node_ip port = node_ip ⧺ ":" ⧺ format port.node_port

unfoldable pub build_upstream_servers : List String → ServicePort → List UpstreamServer
unfolding host_of new_upstream_server
build_upstream_servers [] port = []
build_upstream_servers (node_ip ∷ node_ips) port =
    new_upstream_server (host_of node_ip port) ∷ build_upstream_servers node_ips port

-- The value of a key of a map that may be nil.
abbrev pub lookup_in : String → Option (GoMap String) → Option String
lookup_in key none = none
lookup_in key (some annotations) = lookup key annotations

abbrev pub or_default : Option String → String → String
or_default none default = default
or_default (some found) default = found

unfoldable pub get_client_type : String → Option (GoMap String) → String
get_client_type port_name annotations =
    or_default (lookup_in (port_annotation_prefix ⧺ "/" ⧺ port_name) annotations)
      client_type_nginx_http

-- The loop over the servers of a Deleted event: an event for each of them.
unfoldable pub single_server_events : String → String → List UpstreamServer → List ServerUpdateEvent
unfolding new_server_update_event
single_server_events name client_type [] = []
single_server_events name client_type (server ∷ servers) =
    new_server_update_event deleted name client_type (server ∷ [])
    ∷ single_server_events name client_type servers

-- The switch on the event's type, for one port.
unfoldable pub events_for :
    EventType → String → String → List UpstreamServer → List ServerUpdateEvent
unfolding new_server_update_event single_server_events
events_for created name client_type servers =
    new_server_update_event created name client_type servers ∷ []
events_for updated name client_type servers =
    new_server_update_event updated name client_type servers ∷ []
events_for deleted name client_type servers = single_server_events name client_type servers
events_for (other n) name client_type servers = []

unfoldable pub build_server_update_events :
    List ServicePort → Event → Result (List ServerUpdateEvent)
build_server_update_events [] event = ok []
build_server_update_events (port ∷ ports) event = do
  name ← fix_ingress_name port.name
  let servers = build_upstream_servers event.node_ips port
  let client_type = get_client_type port.name event.service.annotations
  later ← build_server_update_events ports event
  ok (events_for event.event_type name client_type servers ++ later)

unfoldable pub translate : Event → Result (List ServerUpdateEvent)
translate event = build_server_update_events (filter_ports event.service.ports) event
