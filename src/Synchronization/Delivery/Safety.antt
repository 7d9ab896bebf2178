-- ===== src/Synchronization/Delivery/Safety.antt =====
-- Handling an event does not panic, if the certificates are made and a deletion names a server.
use nginx_k8s_loadbalancer.Base.{
  String, ◌≡◌, ◌≢◌, refl, some, List, [], ◌∷◌, arith, inl, inr, List-cases,
}
use nginx_k8s_loadbalancer.Exec.{wrap}
use nginx_k8s_loadbalancer.Exec.Rules.{NoPanic, wrapped-NoPanic, bind-NoPanic}
use nginx_k8s_loadbalancer.Core.{
  EventType, created, updated, deleted, other, UpstreamServer, ServerUpdateEvent,
}
use nginx_k8s_loadbalancer.Certification.{Certificates}
use nginx_k8s_loadbalancer.Configuration.Settings.{Settings}
use nginx_k8s_loadbalancer.Authentication.{Crypto, TlsConfig}
use nginx_k8s_loadbalancer.Authentication.Panics.{new_tls_config-NoPanic}
use nginx_k8s_loadbalancer.Communication.{Transports, HttpClient, new_http_client}
use nginx_k8s_loadbalancer.Application.{AnyClient, new_border_client}
use nginx_k8s_loadbalancer.Application.Laws.{update-NoPanic, delete-NoPanic}
use nginx_k8s_loadbalancer.Synchronization.World.{World, NginxPlus, on_transports}
use nginx_k8s_loadbalancer.Synchronization.Delivery.{
  usable, nginx_client, build_border_client, handle_created_updated_event, handle_deleted_event,
  dispatch, handle_event, border_client_failed, http_client_failed,
}

module _ {Cert KeyPair : Type 0} (crypto : Crypto Cert KeyPair) (settings : Settings) where
  http-NoPanic :
      (c : Certificates) (t : Transports (TlsConfig Cert KeyPair))
      → settings.certificates ≡ some c
      → NoPanic (new_http_client crypto settings t).0
  unfolding new_http_client
  http-NoPanic c t made = ground (arith, new_tls_config-NoPanic crypto settings c made)

usable-NoPanic :
    {W : Type 0} (client_type : String) (a : AnyClient W)
    → NoPanic (usable (new_border_client client_type a))
unfolding new_border_client
usable-NoPanic client_type a = ground arith

module _ {Cert KeyPair W Q : Type 0} (crypto : Crypto Cert KeyPair)
    (plus : NginxPlus (TlsConfig Cert KeyPair) W) (settings : Settings)
    (w : World Q (TlsConfig Cert KeyPair) W) where
  nginx_client-NoPanic :
      (host : String) (http : HttpClient)
      → NoPanic (nginx_client crypto plus settings host http w).0
  unfolding nginx_client
  nginx_client-NoPanic host http = ground arith

module _ {Cert KeyPair W Q : Type 0} (crypto : Crypto Cert KeyPair)
    (plus : NginxPlus (TlsConfig Cert KeyPair) W) (settings : Settings) (c : Certificates)
    (made : settings.certificates ≡ some c) (e : ServerUpdateEvent)
    (w : World Q (TlsConfig Cert KeyPair) W) where
  build-NoPanic : NoPanic (build_border_client crypto plus settings e w).0
  unfolding build_border_client
  build-NoPanic =
      let w' : World Q (TlsConfig Cert KeyPair) W =
        (wrap http_client_failed (on_transports (new_http_client crypto settings)) w).1 in
      bind-NoPanic (wrap http_client_failed (on_transports (new_http_client crypto settings))) _ w
        (wrapped-NoPanic _ _ (http-NoPanic crypto settings c w.transports made))
        (λ http _.
          bind-NoPanic (nginx_client crypto plus settings e.nginx_host http) _ _
            (nginx_client-NoPanic crypto plus settings w' e.nginx_host http)
            (λ ngx _. usable-NoPanic e.client_type ngx))

  updating-NoPanic : NoPanic (handle_created_updated_event crypto plus settings e w).0
  unfolding handle_created_updated_event
  updating-NoPanic =
      bind-NoPanic (wrap border_client_failed (build_border_client crypto plus settings e)) _ w
        (wrapped-NoPanic _ _ build-NoPanic) (λ b _. wrapped-NoPanic _ _ (update-NoPanic b e _))

  deleting-NoPanic :
      (s : UpstreamServer) (rest : List UpstreamServer)
      → e.upstream_servers ≡ s ∷ rest
      → NoPanic (handle_deleted_event crypto plus settings e w).0
  unfolding handle_deleted_event
  deleting-NoPanic s rest named =
      bind-NoPanic (wrap border_client_failed (build_border_client crypto plus settings e)) _ w
        (wrapped-NoPanic _ _ build-NoPanic)
        (λ b _. wrapped-NoPanic _ _ (delete-NoPanic b e _ s rest named))

  dispatch-NoPanic :
      (ty : EventType)
      → (ty ≡ deleted → e.upstream_servers ≢ [])
      → NoPanic (dispatch crypto plus settings ty e w).0
  unfolding dispatch
  dispatch-NoPanic created h = updating-NoPanic
  dispatch-NoPanic updated h = updating-NoPanic
  dispatch-NoPanic deleted h = elim (List-cases e.upstream_servers) [
    | inl empty ↦ absurd (h refl empty)
    | inr (s, rest, named) ↦ deleting-NoPanic s rest named
  ]
  dispatch-NoPanic (other n) h = tt

-- Once the certificates are made, handling an event does not panic, whatever the API server answers
-- and whatever the TLS settings, provided that an event of type Deleted names at least one server.
pub handle_event-NoPanic :
    {Cert KeyPair W Q : Type 0} (crypto : Crypto Cert KeyPair)
    (plus : NginxPlus (TlsConfig Cert KeyPair) W) (settings : Settings) (c : Certificates)
    (e : ServerUpdateEvent) (w : World Q (TlsConfig Cert KeyPair) W)
    → settings.certificates ≡ some c
    → (e.event_type ≡ deleted → e.upstream_servers ≢ [])
    → NoPanic (handle_event crypto plus settings e w).0
unfolding handle_event
handle_event-NoPanic crypto plus settings c e w made named =
    dispatch-NoPanic crypto plus settings c made e w e.event_type named
