-- ===== src/Synchronization/Delivery/Frame.antt =====
-- Handling an event leaves the queue and the addresses alone; it changes only the shared transports
-- and the world outside.
use nginx_k8s_loadbalancer.Base.{ℕ, ◌≡◌, refl}
use nginx_k8s_loadbalancer.Exec.{wrap}
use nginx_k8s_loadbalancer.Exec.Rules.{bind_frame}
use nginx_k8s_loadbalancer.Core.{EventType, created, updated, deleted, other, ServerUpdateEvent}
use nginx_k8s_loadbalancer.Configuration.Settings.{Settings}
use nginx_k8s_loadbalancer.Authentication.{Crypto, TlsConfig}
use nginx_k8s_loadbalancer.Communication.{new_http_client}
use nginx_k8s_loadbalancer.Synchronization.World.{World, NginxPlus, on_transports}
use nginx_k8s_loadbalancer.Synchronization.Delivery.{
  nginx_client, build_border_client, handle_created_updated_event, handle_deleted_event, dispatch,
  handle_event, border_client_failed, http_client_failed,
}

-- The parts that the handlers of events do not write.
abbrev pub kept : {Q T W : Type 0} → World Q T W → Q × ℕ
kept w = (w.queue, w.next)

module _ {Cert KeyPair W Q : Type 0} (crypto : Crypto Cert KeyPair)
    (plus : NginxPlus (TlsConfig Cert KeyPair) W) (settings : Settings) (e : ServerUpdateEvent)
    (w : World Q (TlsConfig Cert KeyPair) W) where
  build_frame : kept (build_border_client crypto plus settings e w).1 ≡ kept w
  unfolding build_border_client nginx_client
  build_frame =
      let w' : World Q (TlsConfig Cert KeyPair) W =
        (wrap http_client_failed (on_transports (new_http_client crypto settings)) w).1 in
      bind_frame kept (wrap http_client_failed (on_transports (new_http_client crypto settings))) _
        w refl
        (λ http.
          bind_frame kept (nginx_client crypto plus settings e.nginx_host http) _ w' refl
            (λ ngx. refl))

  updating_frame : kept (handle_created_updated_event crypto plus settings e w).1 ≡ kept w
  unfolding handle_created_updated_event
  updating_frame =
      bind_frame kept (wrap border_client_failed (build_border_client crypto plus settings e)) _ w
        build_frame (λ b. refl)

  deleting_frame : kept (handle_deleted_event crypto plus settings e w).1 ≡ kept w
  unfolding handle_deleted_event
  deleting_frame =
      bind_frame kept (wrap border_client_failed (build_border_client crypto plus settings e)) _ w
        build_frame (λ b. refl)

  dispatch_frame : (ty : EventType) → kept (dispatch crypto plus settings ty e w).1 ≡ kept w
  unfolding dispatch
  dispatch_frame created = updating_frame
  dispatch_frame updated = updating_frame
  dispatch_frame deleted = deleting_frame
  dispatch_frame (other n) = refl

  -- Handling an event leaves the queue and the next free address as they were, whatever comes of it.
  pub handle_event_frame : kept (handle_event crypto plus settings e w).1 ≡ kept w
  unfolding handle_event
  handle_event_frame = dispatch_frame e.event_type
