-- ===== src/Application/Upstreams.antt =====
-- What NGINX Plus serves: for each instance, kind of upstream and upstream, its servers. The tables
-- of NGINX Plus are not part of the repository: that a call of its client library writes them as the
-- documentation of the API says is a record of laws.
pub mod Writes
use nginx_k8s_loadbalancer.Base.{
  String, ◌≡◌, ◌≢◌, ◌⊎◌, inl, inr, ◌↔◌, none, List, map, Member, Bool-cases, ◌==◌, eq_iff, arith,
}
use nginx_k8s_loadbalancer.Base.Insertion.{Inserted}
use nginx_k8s_loadbalancer.Core.{ServerUpdateEvent}
use nginx_k8s_loadbalancer.Application.{
  NginxClientInterface, HttpUpstreamServer, StreamUpstreamServer,
}

-- How NGINX Plus and its client name things: the instance that answers at the URL of an API, since
-- several URLs may reach one; and a server as the API lists it, since a port may be added to it.
pub record Naming : Type 0 where
  pub instance_at : String → String
  pub listed_as : String → String

-- An upstream of one kind, "http" or "stream", of an instance.
pub record Target : Type 0 where
  pub instance_name : String
  pub kind : String
  pub upstream : String

-- The upstream that a change is for.
unfoldable pub target_of : Naming → ServerUpdateEvent → Target
target_of naming e = record {
  instance_name = naming.instance_at e.nginx_host;
  kind = e.client_type;
  upstream = e.upstream_name;
}

pub Target-cases : (s t : Target) → (s ≡ t) ⊎ (s ≢ t)
Target-cases s t = elim (Bool-cases (s.instance_name == t.instance_name)) [
  | inr h ↦ inr (λ e. ground (arith, eq_iff s.instance_name t.instance_name))
  | inl h ↦ elim (Bool-cases (s.kind == t.kind)) [
    | inr k ↦ inr (λ e. ground (arith, eq_iff s.kind t.kind))
    | inl k ↦ elim (Bool-cases (s.upstream == t.upstream)) [
      | inr u ↦ inr (λ e. ground (arith, eq_iff s.upstream t.upstream))
      | inl u ↦ inl (
          ground (
            arith,
            eq_iff s.instance_name t.instance_name,
            eq_iff s.kind t.kind,
            eq_iff s.upstream t.upstream,
          ))
    ]
  ]
]

-- The servers of a change, as the API lists them.
abbrev pub servers_of : Naming → ServerUpdateEvent → List String
servers_of naming e = map (λ s. naming.listed_as s.host) e.upstream_servers

-- The servers of each upstream, in a state of the world outside.
abbrev pub Table : Type 0
Table = Target → List String

-- A call about one upstream writes no other, whatever comes of it.
abbrev pub WritesOnly : Target → Table → Table → Type 0
WritesOnly target before after = (t : Target) → t ≢ target → after t ≡ before t

abbrev pub at : String → String → String → Target
at instance_name kind upstream = record {
  instance_name = instance_name;
  kind = kind;
  upstream = upstream;
}

-- The same servers, in any order and any number of times.
abbrev pub SameServers : List String → List String → Type 0
SameServers l l' = (x : String) → Member x l ↔ Member x l'

-- The calls of a client for one host. "UpdateHTTPServers updates the servers of the upstream": those
-- of the list that it lacks are added, those that are not on the list are removed, so that it has the
-- servers of the list, in an order that is not told. "DeleteHTTPServer removes the server from the HTTP
-- upstream", one of that name. A call that fails may have done a part of its work.
pub record IsApiOf {W : Type 0} (naming : Naming) (serves : W → Table) (host : String)
    (api : NginxClientInterface W) : Type 0 where
  pub sets_http :
      (upstream : String) (servers : List HttpUpstreamServer) (w : W)
      → (api.update_http_servers upstream servers w).0.error ≡ none
      → SameServers
          (serves
            (api.update_http_servers upstream servers w).1
            (at (naming.instance_at host) "http" upstream))
          (map (λ s. naming.listed_as s.server) servers)
  pub sets_stream :
      (upstream : String) (servers : List StreamUpstreamServer) (w : W)
      → (api.update_stream_servers upstream servers w).0.error ≡ none
      → SameServers
          (serves
            (api.update_stream_servers upstream servers w).1
            (at (naming.instance_at host) "stream" upstream))
          (map (λ s. naming.listed_as s.server) servers)
  pub deletes_http :
      (upstream server : String) (w : W)
      → (api.delete_http_server upstream server w).0 ≡ none
      → Inserted
          (naming.listed_as server)
          (serves
            (api.delete_http_server upstream server w).1
            (at (naming.instance_at host) "http" upstream))
          (serves w (at (naming.instance_at host) "http" upstream))
  pub deletes_stream :
      (upstream server : String) (w : W)
      → (api.delete_stream_server upstream server w).0 ≡ none
      → Inserted
          (naming.listed_as server)
          (serves
            (api.delete_stream_server upstream server w).1
            (at (naming.instance_at host) "stream" upstream))
          (serves w (at (naming.instance_at host) "stream" upstream))
  pub sets_one_http :
      (upstream : String) (servers : List HttpUpstreamServer) (w : W)
      → WritesOnly
          (at (naming.instance_at host) "http" upstream)
          (serves w)
          (serves (api.update_http_servers upstream servers w).1)
  pub sets_one_stream :
      (upstream : String) (servers : List StreamUpstreamServer) (w : W)
      → WritesOnly
          (at (naming.instance_at host) "stream" upstream)
          (serves w)
          (serves (api.update_stream_servers upstream servers w).1)
  pub deletes_one_http :
      (upstream server : String) (w : W)
      → WritesOnly
          (at (naming.instance_at host) "http" upstream)
          (serves w)
          (serves (api.delete_http_server upstream server w).1)
  pub deletes_one_stream :
      (upstream server : String) (w : W)
      → WritesOnly
          (at (naming.instance_at host) "stream" upstream)
          (serves w)
          (serves (api.delete_stream_server upstream server w).1)
