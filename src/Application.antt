-- ===== src/Application.antt =====
-- internal/application: the border clients, which send an event's servers to one NGINX Plus host.
-- The NGINX Plus client is not part of the repository: it is a record of functions over a state `W`
-- of the world outside, and each of its calls may change that state.
pub mod Laws
pub mod Upstreams
use nginx_k8s_loadbalancer.Base.{String, Option, none, some, List, [], ◌∷◌, ◌==◌, if◌then◌else◌}
use nginx_k8s_loadbalancer.Text.{◌⧺◌}
use nginx_k8s_loadbalancer.Result.{Error, Result, ok, err, panic, returned}
use nginx_k8s_loadbalancer.Exec.{Exec}
use nginx_k8s_loadbalancer.Core.{UpstreamServer, ServerUpdateEvent}

abbrev pub client_type_nginx_stream : String
client_type_nginx_stream = "stream"

abbrev pub client_type_nginx_http : String
client_type_nginx_http = "http"

-- nginxClient.UpstreamServer and nginxClient.StreamUpstreamServer: the one field that is set
pub record HttpUpstreamServer : Type 0 where
  pub server : String

pub record StreamUpstreamServer : Type 0 where
  pub server : String

-- What UpdateHTTPServers and UpdateStreamServers return.
pub record Updated (S : Type 0) : Type 0 where
  pub added : List S
  pub deleted : List S
  pub updated : List S
  pub error : Option Error

pub record NginxClientInterface (W : Type 0) : Type 0 where
  pub delete_stream_server : String → String → W → Option Error × W
  pub update_stream_servers :
      String → List StreamUpstreamServer → W → Updated StreamUpstreamServer × W
  pub delete_http_server : String → String → W → Option Error × W
  pub update_http_servers : String → List HttpUpstreamServer → W → Updated HttpUpstreamServer × W

-- A value of type interface{}: it implements NginxClientInterface, or it prints as a text.
pub data AnyClient (W : Type 0) : Type 0 where
  nginx : NginxClientInterface W → AnyClient W
  other : String → AnyClient W

-- The types that implement application.Interface.
pub data BorderClient (W : Type 0) : Type 0 where
  http : NginxClientInterface W → BorderClient W
  stream : NginxClientInterface W → BorderClient W
  null : BorderClient W

-- The two results of a factory: a client, or nil, and an error, or nil.
abbrev pub Made : Type 0 → Type 0
Made W = Option (BorderClient W) × Option Error

unfoldable pub as_http_server : UpstreamServer → HttpUpstreamServer
as_http_server s = record { server = s.host }

unfoldable pub as_http_servers : List UpstreamServer → List HttpUpstreamServer
unfolding as_http_server
as_http_servers [] = []
as_http_servers (s ∷ servers) = as_http_server s ∷ as_http_servers servers

unfoldable pub as_stream_server : UpstreamServer → StreamUpstreamServer
as_stream_server s = record { server = s.host }

unfoldable pub as_stream_servers : List UpstreamServer → List StreamUpstreamServer
unfolding as_stream_server
as_stream_servers [] = []
as_stream_servers (s ∷ servers) = as_stream_server s ∷ as_stream_servers servers

abbrev pub not_a_client : String → Error
not_a_client shown = "expected a NginxClientInterface, got a " ⧺ shown

abbrev pub update_failed : Error → Error
update_failed e = "error occurred updating the nginx+ upstream server: " ⧺ e

abbrev pub delete_failed : Error → Error
delete_failed e = "error occurred deleting the nginx+ upstream server: " ⧺ e

abbrev pub unknown_client_type : String → Error
unknown_client_type t = "unknown border client type: " ⧺ t

abbrev pub out_of_range : String
out_of_range = "index out of range"

-- event.UpstreamServers[0].Host
abbrev first_host : List UpstreamServer → Result String
first_host [] = panic out_of_range
first_host (s ∷ servers) = ok s.host

module _ {W : Type 0} where
  unfoldable pub new_nginx_http_border_client : AnyClient W → Made W
  new_nginx_http_border_client (nginx c) = (some (http c), none)
  new_nginx_http_border_client (other shown) = (none, some (not_a_client shown))

  unfoldable pub new_nginx_stream_border_client : AnyClient W → Made W
  new_nginx_stream_border_client (nginx c) = (some (stream c), none)
  new_nginx_stream_border_client (other shown) = (none, some (not_a_client shown))

  unfoldable pub new_null_border_client : Made W
  new_null_border_client = (some null, none)

  unfoldable pub new_border_client : String → AnyClient W → Made W
  unfolding new_nginx_http_border_client new_nginx_stream_border_client new_null_border_client
  new_border_client client_type c =
      if client_type == client_type_nginx_stream
      then new_nginx_stream_border_client c
      else if client_type == client_type_nginx_http
      then new_nginx_http_border_client c
      else (new_null_border_client.0, some (unknown_client_type client_type))

  http_update : NginxClientInterface W → ServerUpdateEvent → Exec W Unit
  unfolding as_http_servers
  http_update c event w =
      let (u, w') =
        c.update_http_servers event.upstream_name (as_http_servers event.upstream_servers) w in
      (returned update_failed u.error, w')

  stream_update : NginxClientInterface W → ServerUpdateEvent → Exec W Unit
  unfolding as_stream_servers
  stream_update c event w =
      let (u, w') =
        c.update_stream_servers event.upstream_name (as_stream_servers event.upstream_servers) w in
      (returned update_failed u.error, w')

  -- The deletion of one server, once its host is known.
  abbrev delete_by : (String → W → Option Error × W) → Result String → Exec W Unit
  delete_by call (ok host) w = let (e, w') = call host w in (returned delete_failed e, w')
  delete_by call (err e) w = (err e, w)
  delete_by call (panic p) w = (panic p, w)

  http_delete : NginxClientInterface W → ServerUpdateEvent → Exec W Unit
  http_delete c event =
      delete_by (c.delete_http_server event.upstream_name) (first_host event.upstream_servers)

  stream_delete : NginxClientInterface W → ServerUpdateEvent → Exec W Unit
  stream_delete c event =
      delete_by (c.delete_stream_server event.upstream_name) (first_host event.upstream_servers)

  -- borderClient.Update and borderClient.Delete, dispatched on the client's type
  unfoldable pub update : BorderClient W → ServerUpdateEvent → Exec W Unit
  unfolding http_update stream_update
  update (http c) event w = http_update c event w
  update (stream c) event w = stream_update c event w
  update null event w = (ok tt, w)

  unfoldable pub delete : BorderClient W → ServerUpdateEvent → Exec W Unit
  unfolding http_delete stream_delete
  delete (http c) event w = http_delete c event w
  delete (stream c) event w = stream_delete c event w
  delete null event w = (ok tt, w)
