-- ===== src/Synchronization/Delivery/Calls.antt =====
-- Which call of the NGINX Plus API an event makes.
use nginx_k8s_loadbalancer.Base.{
  ◌≡◌, refl, ap, ◌∙◌, ◌↔◌, inl, inr, Option, none, some, List, [], ◌∷◌, map,
}
use nginx_k8s_loadbalancer.Result.{Error, ok, wrapped, returned, replied}
use nginx_k8s_loadbalancer.Core.{
  EventType, created, updated, deleted, other, UpstreamServer, ServerUpdateEvent,
}
use nginx_k8s_loadbalancer.Configuration.Settings.{Settings}
use nginx_k8s_loadbalancer.Authentication.{Crypto, TlsConfig}
use nginx_k8s_loadbalancer.Communication.{Transports, HttpClient, new_http_client}
use nginx_k8s_loadbalancer.Application
use nginx_k8s_loadbalancer.Application.{
  NginxClientInterface, HttpUpstreamServer, StreamUpstreamServer, Updated, AnyClient, nginx,
  BorderClient, http, stream, update_failed, delete_failed, new_border_client, as_http_servers,
  as_stream_servers, client_type_nginx_http, client_type_nginx_stream,
}
use nginx_k8s_loadbalancer.Application.Laws.{new_border_client_iff}
use nginx_k8s_loadbalancer.Synchronization.World.{World, NginxPlus}
use nginx_k8s_loadbalancer.Synchronization.Delivery.{
  build_border_client, handle_created_updated_event, handle_deleted_event, dispatch, handle_event,
  nginx_client, updating_failed, deleting_failed,
}

-- A call: its error, and the world outside after it.
abbrev pub Call : Type 0 → Type 0
Call W = W → Option Error × W

abbrev pub error_of : {S W : Type 0} → Updated S × W → Option Error × W
error_of (u, w) = (u.error, w)

-- An addition or a change of a Service.
abbrev pub IsUpdate : EventType → Type 0
IsUpdate created = Unit
IsUpdate updated = Unit
IsUpdate deleted = ⊥
IsUpdate (other n) = ⊥

-- The call that an event asks for: of its two kinds of upstreams, all servers of an upstream are set, or
-- one is deleted.
pub data Asks {W : Type 0} (api : NginxClientInterface W) (e : ServerUpdateEvent)
    : Call W → Type 0 where
  sets_http :
      e.client_type ≡ "http"
      → IsUpdate e.event_type
      → Asks api e (λ w. error_of (
          api.update_http_servers e.upstream_name
            (map (λ s. record { server = s.host }) e.upstream_servers)
            w))
  sets_stream :
      e.client_type ≡ "stream"
      → IsUpdate e.event_type
      → Asks api e (λ w. error_of (
          api.update_stream_servers e.upstream_name
            (map (λ s. record { server = s.host }) e.upstream_servers)
            w))
  deletes_http :
      (s : UpstreamServer) (rest : List UpstreamServer)
      → e.client_type ≡ "http"
      → e.event_type ≡ deleted
      → e.upstream_servers ≡ s ∷ rest
      → Asks api e (api.delete_http_server e.upstream_name s.host)
  deletes_stream :
      (s : UpstreamServer) (rest : List UpstreamServer)
      → e.client_type ≡ "stream"
      → e.event_type ≡ deleted
      → e.upstream_servers ≡ s ∷ rest
      → Asks api e (api.delete_stream_server e.upstream_name s.host)

as_http_servers-eq-map :
    (servers : List UpstreamServer)
    → as_http_servers servers ≡ map (λ s. record { server = s.host }) servers
unfolding as_http_servers
as_http_servers-eq-map [] = refl
as_http_servers-eq-map (s ∷ servers) =
    ap (λ rest. record { server = s.host } ∷ rest) (as_http_servers-eq-map servers)

as_stream_servers-eq-map :
    (servers : List UpstreamServer)
    → as_stream_servers servers ≡ map (λ s. record { server = s.host }) servers
unfolding as_stream_servers
as_stream_servers-eq-map [] = refl
as_stream_servers-eq-map (s ∷ servers) =
    ap (λ rest. record { server = s.host } ∷ rest) (as_stream_servers-eq-map servers)

module _ {Cert KeyPair W Q : Type 0} (crypto : Crypto Cert KeyPair)
    (plus : NginxPlus (TlsConfig Cert KeyPair) W) (settings : Settings) (e : ServerUpdateEvent)
    (w : World Q (TlsConfig Cert KeyPair) W) where
  -- The event comes to this outcome of the call.
  abbrev pub Comes : Option Error × W → Transports (TlsConfig Cert KeyPair) → Type 0
  Comes (failure, outside) t =
      (((handle_event crypto plus settings e w).0 ≡ ok tt) ↔ (failure ≡ none))
      × ((handle_event crypto plus settings e w).1 ≡ record w { transports = t; outside = outside })

  returned-Comes :
      (f g : Error → Error) (outcome : Option Error × W) (t : Transports (TlsConfig Cert KeyPair))
      → handle_event crypto plus settings e w
        ≡ (wrapped f (returned g outcome.0), record w { transports = t; outside = outcome.1 })
      → Comes outcome t
  returned-Comes f g (none, o) t same = ((λ h. refl, λ h. ap (λ r. r.0) same), ap (λ r. r.1) same)
  returned-Comes f g (some x, o) t same = ((λ h. absurd (cc), λ h. absurd (cc)), ap (λ r. r.1) same)

  dispatch-IsUpdate :
      (ty : EventType)
      → IsUpdate ty
      → dispatch crypto plus settings ty e w ≡ handle_created_updated_event crypto plus settings e w
  unfolding dispatch
  dispatch-IsUpdate created h = refl
  dispatch-IsUpdate updated h = refl
  dispatch-IsUpdate deleted h = absurd h
  dispatch-IsUpdate (other n) h = absurd h

  dispatch-deleted :
      (ty : EventType)
      → ty ≡ deleted
      → dispatch crypto plus settings ty e w ≡ handle_deleted_event crypto plus settings e w
  unfolding dispatch
  dispatch-deleted ty h = rw h refl

  module _ (client : HttpClient) (t : Transports (TlsConfig Cert KeyPair))
      (made : new_http_client crypto settings w.transports ≡ (ok client, t))
      (api : NginxClientInterface W) (o : W)
      (reached : plus.new_nginx_client e.nginx_host client t w.outside
        ≡ (replied (nginx api), o)) where
    built :
        (b : BorderClient W)
        → new_border_client e.client_type (nginx api) ≡ (some b, none)
        → build_border_client crypto plus settings e w
          ≡ (ok b, record w { transports = t; outside = o })
    unfolding build_border_client nginx_client
    built b h = rw made (rw reached (rw h refl))

    updates :
        (b : BorderClient W)
        → new_border_client e.client_type (nginx api) ≡ (some b, none)
        → IsUpdate e.event_type
        → handle_event crypto plus settings e w ≡ (
          wrapped (updating_failed e.client_type) (Application.update b e o).0,
          record w { transports = t; outside = (Application.update b e o).1 },
        )
    unfolding handle_event handle_created_updated_event
    updates b h kind = dispatch-IsUpdate e.event_type kind ∙ rw (built b h) refl

    deletes :
        (b : BorderClient W)
        → new_border_client e.client_type (nginx api) ≡ (some b, none)
        → e.event_type ≡ deleted
        → handle_event crypto plus settings e w ≡ (
          wrapped (deleting_failed e.client_type) (Application.delete b e o).0,
          record w { transports = t; outside = (Application.delete b e o).1 },
        )
    unfolding handle_event handle_deleted_event
    deletes b h kind = dispatch-deleted e.event_type kind ∙ rw (built b h) refl

    http_client :
        e.client_type ≡ "http"
        → new_border_client e.client_type (nginx api) ≡ (some (http api), none)
    http_client kind =
        (new_border_client_iff e.client_type (nginx api) (some (http api))).1
          (api, refl, inr (kind, refl))

    stream_client :
        e.client_type ≡ "stream"
        → new_border_client e.client_type (nginx api) ≡ (some (stream api), none)
    stream_client kind =
        (new_border_client_iff e.client_type (nginx api) (some (stream api))).1
          (api, refl, inl (kind, refl))

    Asks-Comes : (call : Call W) → Asks api e call → Comes (call o) t
    unfolding Application.update Application.delete
    Asks-Comes call (sets_http kind ty) =
        returned-Comes (updating_failed e.client_type) update_failed _ t (
          updates (http api) (http_client kind) ty
          ∙ rw (as_http_servers-eq-map e.upstream_servers) refl)
    Asks-Comes call (sets_stream kind ty) =
        returned-Comes (updating_failed e.client_type) update_failed _ t (
          updates (stream api) (stream_client kind) ty
          ∙ rw (as_stream_servers-eq-map e.upstream_servers) refl)
    Asks-Comes call (deletes_http s rest kind ty named) =
        returned-Comes (deleting_failed e.client_type) delete_failed _ t
          (deletes (http api) (http_client kind) ty ∙ rw named refl)
    Asks-Comes call (deletes_stream s rest kind ty named) =
        returned-Comes (deleting_failed e.client_type) delete_failed _ t
          (deletes (stream api) (stream_client kind) ty ∙ rw named refl)

-- Once the HTTP client is made and NGINX Plus is reached at the event's host, the handling of a change
-- makes the one call of the API that it asks for, and changes nothing else outside: for an added or
-- changed Service the servers of the upstream are set to those of the event, for a deleted one the
-- first of the event's servers is deleted, in the upstream of its name and of the kind that its
-- client type names; and the handling succeeds exactly when the call does.
pub handle_event-Asks :
    {Cert KeyPair W Q : Type 0} (crypto : Crypto Cert KeyPair)
    (plus : NginxPlus (TlsConfig Cert KeyPair) W) (settings : Settings) (e : ServerUpdateEvent)
    (w : World Q (TlsConfig Cert KeyPair) W) (client : HttpClient)
    (t : Transports (TlsConfig Cert KeyPair)) (api : NginxClientInterface W) (o : W) (call : Call W)
    → new_http_client crypto settings w.transports ≡ (ok client, t)
    → plus.new_nginx_client e.nginx_host client t w.outside ≡ (replied (nginx api), o)
    → Asks api e call
    → (((handle_event crypto plus settings e w).0 ≡ ok tt) ↔ ((call o).0 ≡ none))
      × ((handle_event crypto plus settings e w).1
          ≡ record w { transports = t; outside = (call o).1 })
handle_event-Asks crypto plus settings e w client t api o call made reached asks =
    Asks-Comes crypto plus settings e w client t made api o reached call asks
