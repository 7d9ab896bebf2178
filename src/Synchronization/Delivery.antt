-- ===== src/Synchronization/Delivery.antt =====
-- buildBorderClient and the event handlers of internal/synchronization/synchronizer.go.
pub mod Safety
pub mod Frame
pub mod Calls
pub mod Upstreams
use nginx_k8s_loadbalancer.Base.{String, Option, none, some}
use nginx_k8s_loadbalancer.Text.{◌⧺◌}
use nginx_k8s_loadbalancer.Result.{
  Error, Result, ok, err, panic, wrapped, Reply, replied, refused, answered,
}
use nginx_k8s_loadbalancer.Exec.{Exec, ◌>>=◌, ◌>>◌, pure, lift, wrap}
use nginx_k8s_loadbalancer.Core.{EventType, created, updated, deleted, other, ServerUpdateEvent}
use nginx_k8s_loadbalancer.Configuration.Settings.{Settings}
use nginx_k8s_loadbalancer.Authentication.{Crypto, TlsConfig}
use nginx_k8s_loadbalancer.Communication.{HttpClient, new_http_client}
use nginx_k8s_loadbalancer.Application
use nginx_k8s_loadbalancer.Application.{AnyClient, BorderClient, Made, new_border_client}
use nginx_k8s_loadbalancer.Synchronization.World.{World, NginxPlus, on_transports, on_outside}

abbrev pub http_client_failed : Error → Error
http_client_failed e = "error creating HTTP client: " ⧺ e

abbrev pub nginx_client_failed : Error → Error
nginx_client_failed e = "error creating Nginx Plus client: " ⧺ e

abbrev pub border_client_failed : Error → Error
border_client_failed e = "error occurred creating the border client: " ⧺ e

abbrev pub updating_failed : String → Error → Error
updating_failed client_type e =
    "error occurred updating the " ⧺ client_type ⧺ " upstream servers: " ⧺ e

abbrev pub deleting_failed : String → Error → Error
deleting_failed client_type e =
    "error occurred deleting the " ⧺ client_type ⧺ " upstream servers: " ⧺ e

-- What a caller makes of the two results: it looks at the error first, and calls a method on the
-- client if there is none.
abbrev pub usable : {W : Type 0} → Made W → Result (BorderClient W)
usable (client, some e) = err e
usable (some client, none) = ok client
usable (none, none) = panic "nil pointer dereference"

module _ {Cert KeyPair W Q : Type 0} (crypto : Crypto Cert KeyPair)
    (plus : NginxPlus (TlsConfig Cert KeyPair) W) (settings : Settings) where
  abbrev answer :
      World Q (TlsConfig Cert KeyPair) W
      → Reply (AnyClient W) × W
      → Result (AnyClient W) × World Q (TlsConfig Cert KeyPair) W
  answer w (r, o) = (answered nginx_client_failed r, record w { outside = o })

  nginx_client : String → HttpClient → Exec (World Q (TlsConfig Cert KeyPair) W) (AnyClient W)
  nginx_client host client w = answer w (plus.new_nginx_client host client w.transports w.outside)

  unfoldable pub build_border_client :
      ServerUpdateEvent → Exec (World Q (TlsConfig Cert KeyPair) W) (BorderClient W)
  unfolding nginx_client
  build_border_client event = do
    http ← wrap http_client_failed (on_transports (new_http_client crypto settings))
    ngx ← nginx_client event.nginx_host http
    lift (usable (new_border_client event.client_type ngx))

  unfoldable pub handle_created_updated_event :
      ServerUpdateEvent → Exec (World Q (TlsConfig Cert KeyPair) W) Unit
  unfolding build_border_client
  handle_created_updated_event event = do
    client ← wrap border_client_failed (build_border_client event)
    wrap (updating_failed event.client_type) (on_outside (Application.update client event))

  unfoldable pub handle_deleted_event :
      ServerUpdateEvent → Exec (World Q (TlsConfig Cert KeyPair) W) Unit
  unfolding build_border_client
  handle_deleted_event event = do
    client ← wrap border_client_failed (build_border_client event)
    wrap (deleting_failed event.client_type) (on_outside (Application.delete client event))

  dispatch : EventType → ServerUpdateEvent → Exec (World Q (TlsConfig Cert KeyPair) W) Unit
  unfolding handle_created_updated_event handle_deleted_event
  dispatch created event w = handle_created_updated_event event w
  dispatch updated event w = handle_created_updated_event event w
  dispatch deleted event w = handle_deleted_event event w
  dispatch (other n) event w = (ok tt, w)

  unfoldable pub handle_event : ServerUpdateEvent → Exec (World Q (TlsConfig Cert KeyPair) W) Unit
  unfolding dispatch
  handle_event event = dispatch event.event_type event
