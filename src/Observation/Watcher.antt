-- ===== src/Observation/Watcher.antt =====
-- internal/observation/watcher.go. The handler is the interface that the watcher is given; a callback
-- runs against the cluster as it is at that moment.
pub mod Nodes
pub mod Callbacks
use nginx_k8s_loadbalancer.Context.{Context, background, cancelled, Outcome, waits, returns}
use nginx_k8s_loadbalancer.Base.{
  ℕ, ◌+◌, String, Bool, true, false, Option, none, some, List, [], ◌∷◌, ◌++◌, ◌==◌, if◌then◌else◌,
}
use nginx_k8s_loadbalancer.Text.{◌⧺◌}
use nginx_k8s_loadbalancer.Result.{
  Error, Result, ok, err, panic, ◌>>=◌, wrapped, answered, returned,
}
use nginx_k8s_loadbalancer.Exec.{Exec}
use nginx_k8s_loadbalancer.GoMap.{lookup}
use nginx_k8s_loadbalancer.Core.{Service, EventType, created, updated, deleted, Event, new_event}
use nginx_k8s_loadbalancer.Kubernetes.{NodeAddress, Node, Object, Informer, Resource, Cluster}
use nginx_k8s_loadbalancer.Configuration.Settings.{Settings}
use nginx_k8s_loadbalancer.WorkQueue.{Ref}

-- observation.HandlerInterface, as far as the watcher calls it, over the handler's state.
pub record HandlerInterface (H : Type 0) : Type 0 where
  pub add_rate_limited_event : Ref Event → H → H
  pub shut_down : H → H

-- The watcher, the state of its handler, and the next free address.
pub record WatcherState (H : Type 0) : Type 0 where
  pub informer : Option Informer
  pub handler : H
  pub next : ℕ

abbrev pub control_plane_label : String
control_plane_label = "node-role.kubernetes.io/control-plane"

abbrev pub internal_ip : String
internal_ip = "InternalIP"

abbrev is_missing : Option String → Bool
is_missing none = true
is_missing (some label) = false

unfoldable pub not_control_plane_node : Node → Bool
not_control_plane_node node = is_missing (lookup control_plane_label node.labels)

-- The inner loop, over the addresses of a node.
unfoldable pub internal_ips : List NodeAddress → List String
internal_ips [] = []
internal_ips (a ∷ addresses) =
    let rest = internal_ips addresses in
    if a.address_type == internal_ip then a.address ∷ rest else rest

-- The outer loop, over the nodes.
unfoldable pub worker_ips : List Node → List String
unfolding not_control_plane_node internal_ips
worker_ips [] = []
worker_ips (node ∷ nodes) =
    let rest = worker_ips nodes in
    if not_control_plane_node node then internal_ips node.addresses ++ rest else rest

unfoldable pub retrieve_node_ips : Cluster → Result (List String)
unfolding worker_ips
retrieve_node_ips cluster = do nodes ← answered (λ e. e) cluster.list_nodes; ok (worker_ips nodes)

-- obj.(*v1.Service), which panics on anything else
unfoldable pub as_service : Object → Result Service
as_service (Object.service s) = ok s
as_service _ = panic "interface conversion"

module _ {H : Type 0} (handler : HandlerInterface H) where
  -- A new pointer to the event, queued.
  abbrev send : Result Event → Exec (WatcherState H) Unit
  send (ok e) w = (
    ok tt,
    record w {
      handler = handler.add_rate_limited_event (record { address = w.next; value = e }) w.handler;
      next = w.next + 1;
    },
  )
  send (err e) w = (err e, w)
  send (panic p) w = (panic p, w)

  -- An error is logged, and the callback returns.
  abbrev with_node_ips :
      Result (List String) → (List String → Result Event) → Exec (WatcherState H) Unit
  with_node_ips (ok node_ips) event w = send (event node_ips) w
  with_node_ips (err e) event w = (ok tt, w)
  with_node_ips (panic p) event w = (panic p, w)

  unfoldable pub build_event_handler_for_add : Cluster → Object → Exec (WatcherState H) Unit
  unfolding as_service new_event
  build_event_handler_for_add cluster obj =
      with_node_ips (retrieve_node_ips cluster)
        (λ node_ips. as_service obj >>= λ s. ok (new_event created s none node_ips))

  unfoldable pub build_event_handler_for_delete : Cluster → Object → Exec (WatcherState H) Unit
  unfolding as_service new_event
  build_event_handler_for_delete cluster obj =
      with_node_ips (retrieve_node_ips cluster)
        (λ node_ips. as_service obj >>= λ s. ok (new_event deleted s none node_ips))

  unfoldable pub build_event_handler_for_update :
      Cluster → Object → Object → Exec (WatcherState H) Unit
  unfolding as_service new_event
  build_event_handler_for_update cluster previous obj =
      with_node_ips (retrieve_node_ips cluster) (λ node_ips. as_service obj >>= λ s.
      as_service previous >>= λ before. ok (new_event updated s (some before) node_ips))

unfoldable pub build_informer : Settings → Informer
build_informer settings = record {
  namespace = settings.watcher.nginx_ingress_namespace;
  resource = Resource.services;
}

abbrev pub adding_failed : Error → Error
adding_failed e = "error occurred adding event handlers: " ⧺ e

abbrev pub initialization_failed : Error → Error
initialization_failed e = "initialization error: " ⧺ e

unfoldable pub initialize_event_listeners : Cluster → Informer → Result (Unit {0})
initialize_event_listeners cluster informer =
    returned adding_failed (cluster.add_event_handler informer)

module _ {H : Type 0} where
  unfoldable pub initialize : Settings → Cluster → Exec (WatcherState H) Unit
  unfolding build_informer initialize_event_listeners
  initialize settings cluster w = (
    wrapped initialization_failed (initialize_event_listeners cluster (build_informer settings)),
    record w { informer = some (build_informer settings) },
  )

  -- `defer w.handler.ShutDown()`
  abbrev shut_down_handler : HandlerInterface H → WatcherState H → WatcherState H
  shut_down_handler handler w = record w { handler = handler.shut_down w.handler }

  -- Once the informer has synced, Watch waits for the end of the context; it shuts the handler down
  -- when it returns, with an error or with none.
  abbrev watch_synced : HandlerInterface H → Context → Bool → Exec (WatcherState H) Outcome
  watch_synced handler ctx false w =
      (err "error occurred waiting for the cache to sync", shut_down_handler handler w)
  watch_synced handler background true w = (ok waits, w)
  watch_synced handler cancelled true w = (ok returns, shut_down_handler handler w)

  abbrev watch_informer :
      HandlerInterface H → Cluster → Context → Option Informer → Exec (WatcherState H) Outcome
  watch_informer handler cluster ctx none w =
      (err "error: Initialize must be called before Watch", w)
  watch_informer handler cluster ctx (some informer) w =
      watch_synced handler ctx (cluster.wait_for_cache_sync informer) w

  -- The context is that of the settings.
  unfoldable pub watch : HandlerInterface H → Cluster → Context → Exec (WatcherState H) Outcome
  watch handler cluster ctx w = watch_informer handler cluster ctx w.informer w
