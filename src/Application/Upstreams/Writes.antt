-- ===== src/Application/Upstreams/Writes.antt =====
-- What the border clients write to the tables of NGINX Plus.
use nginx_k8s_loadbalancer.Base.{
  String, ◌≡◌, refl, ap, subst, Option, none, some, List, [], ◌∷◌, map, arith,
}
use nginx_k8s_loadbalancer.Base.Insertion.{Inserted}
use nginx_k8s_loadbalancer.Result.{Error, Result, ok, returned}
use nginx_k8s_loadbalancer.Core.{UpstreamServer, ServerUpdateEvent}
use nginx_k8s_loadbalancer.Application
use nginx_k8s_loadbalancer.Application.{
  NginxClientInterface, BorderClient, http, stream, null, update_failed, delete_failed, delete_by,
  first_host, as_http_servers, as_stream_servers,
}
use nginx_k8s_loadbalancer.Application.Upstreams.{
  Naming, Target, target_of, at, Table, SameServers, WritesOnly, IsApiOf,
}

-- The border client for a change: it speaks to the change's host, about upstreams of its kind.
abbrev pub IsClientFor :
    {W : Type 0} → Naming → (W → Table) → ServerUpdateEvent → BorderClient W → Type 0
IsClientFor naming serves e (http api) =
    (e.client_type ≡ "http") × IsApiOf naming serves e.nginx_host api
IsClientFor naming serves e (stream api) =
    (e.client_type ≡ "stream") × IsApiOf naming serves e.nginx_host api
IsClientFor naming serves e null = ⊥

-- What each kind of change should do.
pub record Sets (naming : Naming) (target : Target) (servers : List UpstreamServer)
    (result : Result (Unit {0})) (before after : Table) : Type 0 where
  pub writes_only : WritesOnly target before after
  pub set : result ≡ ok tt → SameServers (after target) (map (λ s. naming.listed_as s.host) servers)

pub record Removes (naming : Naming) (target : Target) (servers : List UpstreamServer)
    (result : Result (Unit {0})) (before after : Table) : Type 0 where
  pub writes_only : WritesOnly target before after
  pub removed :
      result ≡ ok tt
      → (s : UpstreamServer) × (rest : List UpstreamServer) × (servers ≡ s ∷ rest)
        × Inserted (naming.listed_as s.host) (after target) (before target)

target_of-eq-at :
    (naming : Naming) (e : ServerUpdateEvent) (kind : String)
    → e.client_type ≡ kind
    → target_of naming e ≡ at (naming.instance_at e.nginx_host) kind e.upstream_name
unfolding target_of
target_of-eq-at naming e kind same =
    ap (λ k. at (naming.instance_at e.nginx_host) k e.upstream_name) same

returned-eq-ok : (f : Error → Error) (o : Option Error) → returned f o ≡ ok tt → o ≡ none
returned-eq-ok f none h = refl
returned-eq-ok f (some x) h = absurd (ground arith)

hosts-as_http_servers :
    (f : String → String) (servers : List UpstreamServer)
    → map (λ s. f s.server) (as_http_servers servers) ≡ map (λ s. f s.host) servers
unfolding as_http_servers
hosts-as_http_servers f [] = refl
hosts-as_http_servers f (s ∷ servers) = ap (λ l. f s.host ∷ l) (hosts-as_http_servers f servers)

hosts-as_stream_servers :
    (f : String → String) (servers : List UpstreamServer)
    → map (λ s. f s.server) (as_stream_servers servers) ≡ map (λ s. f s.host) servers
unfolding as_stream_servers
hosts-as_stream_servers f [] = refl
hosts-as_stream_servers f (s ∷ servers) = ap (λ l. f s.host ∷ l) (hosts-as_stream_servers f servers)

-- The call for the first of the servers, if there is one.
delete_by-Removes :
    {W : Type 0} (naming : Naming) (serves : W → Table) (target : Target)
    (call : String → W → Option Error × W) (w : W) (servers : List UpstreamServer)
    → ((host : String) → WritesOnly target (serves w) (serves (call host w).1))
    → ((host : String)
        → (call host w).0 ≡ none
        → Inserted (naming.listed_as host) (serves (call host w).1 target) (serves w target))
    → Removes naming target servers
        (delete_by call (first_host servers) w).0
        (serves w)
        (serves (delete_by call (first_host servers) w).1)
delete_by-Removes naming serves target call w [] only one = record {
  writes_only = λ t ne. refl;
  removed = λ h. absurd (ground arith);
}
delete_by-Removes naming serves target call w (s ∷ servers) only one = record {
  writes_only = only s.host;
  removed = λ h. (s, servers, refl, one s.host (returned-eq-ok delete_failed _ h));
}

module _ {W : Type 0} (naming : Naming) (serves : W → Table) (e : ServerUpdateEvent) (w : W) where
  pub update-Sets :
      (b : BorderClient W)
      → IsClientFor naming serves e b
      → Sets naming
          (target_of naming e)
          e.upstream_servers
          (Application.update b e w).0
          (serves w)
          (serves (Application.update b e w).1)
  unfolding Application.update
  update-Sets (http api) (kind, laws) =
      let servers = as_http_servers e.upstream_servers in
      rw (target_of-eq-at naming e "http" kind) (record {
        writes_only = laws.sets_one_http e.upstream_name servers w;
        set = λ h.
            subst (SameServers _) (hosts-as_http_servers naming.listed_as e.upstream_servers)
              (laws.sets_http e.upstream_name servers w (returned-eq-ok update_failed _ h));
      })
  update-Sets (stream api) (kind, laws) =
      let servers = as_stream_servers e.upstream_servers in
      rw (target_of-eq-at naming e "stream" kind) (record {
        writes_only = laws.sets_one_stream e.upstream_name servers w;
        set = λ h.
            subst (SameServers _) (hosts-as_stream_servers naming.listed_as e.upstream_servers)
              (laws.sets_stream e.upstream_name servers w (returned-eq-ok update_failed _ h));
      })
  update-Sets null h = absurd h

  pub delete-Removes :
      (b : BorderClient W)
      → IsClientFor naming serves e b
      → Removes naming
          (target_of naming e)
          e.upstream_servers
          (Application.delete b e w).0
          (serves w)
          (serves (Application.delete b e w).1)
  unfolding Application.delete
  delete-Removes (http api) (kind, laws) = rw (target_of-eq-at naming e "http" kind) (
      delete_by-Removes naming serves (at (naming.instance_at e.nginx_host) "http" e.upstream_name)
        (api.delete_http_server e.upstream_name) w e.upstream_servers
        (λ host. laws.deletes_one_http e.upstream_name host w)
        (λ host. laws.deletes_http e.upstream_name host w))
  delete-Removes (stream api) (kind, laws) = rw (target_of-eq-at naming e "stream" kind) (
      delete_by-Removes naming serves
        (at (naming.instance_at e.nginx_host) "stream" e.upstream_name)
        (api.delete_stream_server e.upstream_name) w e.upstream_servers
        (λ host. laws.deletes_one_stream e.upstream_name host w)
        (λ host. laws.deletes_stream e.upstream_name host w))
  delete-Removes null h = absurd h
