-- ===== src/Synchronization/Upstreams.antt =====
-- What the handling of a change should do to the tables of NGINX Plus.
pub mod Shows
use nginx_k8s_loadbalancer.Base.{String, ◌≡◌, List, ◌∷◌, map}
use nginx_k8s_loadbalancer.Base.Insertion.{Inserted}
use nginx_k8s_loadbalancer.Text.Decimal.{ℤ}
use nginx_k8s_loadbalancer.Result.{Result, ok, replied}
use nginx_k8s_loadbalancer.Core.{deleted, other, UpstreamServer, ServerUpdateEvent}
use nginx_k8s_loadbalancer.Communication.{Transports, HttpClient}
use nginx_k8s_loadbalancer.Application.{NginxClientInterface, nginx}
use nginx_k8s_loadbalancer.Application.Upstreams.{
  Naming, target_of, servers_of, Table, SameServers, WritesOnly, IsApiOf,
}
use nginx_k8s_loadbalancer.Synchronization.World.{NginxPlus}
use nginx_k8s_loadbalancer.Synchronization.Delivery.Calls.{IsUpdate}

-- NewNginxClient asks the host for the versions of its API, and writes nothing.
pub record ServesUpstreams {T W : Type 0} (plus : NginxPlus T W) : Type 0 where
  pub naming : Naming
  pub serves : W → Table
  pub reached :
      (host : String) (client : HttpClient) (t : Transports T) (w o : W)
      (api : NginxClientInterface W)
      → plus.new_nginx_client host client t w ≡ (replied (nginx api), o)
      → IsApiOf naming serves host api
  pub only_asks :
      (host : String) (client : HttpClient) (t : Transports T) (w : W)
      → serves (plus.new_nginx_client host client t w).1 ≡ serves w

-- What the handling of a change should do to the tables: an addition or a change sets the servers of
-- the upstream, a deletion takes one server out of it, and nothing else is written. After a failure
-- the upstream itself may be in any state.
pub record Delivers (naming : Naming) (e : ServerUpdateEvent) (result : Result (Unit {0}))
    (before after : Table) : Type 0 where
  pub writes_only : WritesOnly (target_of naming e) before after
  pub set :
      result ≡ ok tt
      → IsUpdate e.event_type
      → SameServers (after (target_of naming e)) (servers_of naming e)
  pub removed :
      result ≡ ok tt
      → e.event_type ≡ deleted
      → (s : UpstreamServer) × (rest : List UpstreamServer) × (e.upstream_servers ≡ s ∷ rest)
        × Inserted
            (naming.listed_as s.host)
            (after (target_of naming e))
            (before (target_of naming e))
  pub ignored :
      (n : ℤ) → e.event_type ≡ other n → after (target_of naming e) ≡ before (target_of naming e)
