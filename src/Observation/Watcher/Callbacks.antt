-- ===== src/Observation/Watcher/Callbacks.antt =====
-- When the callbacks panic, and what they queue.
use nginx_k8s_loadbalancer.Context.{Context, background, cancelled, wait}
use nginx_k8s_loadbalancer.Base.{String, ◌≡◌, refl, ◌↔◌, none, some, List, arith, true, ◌+◌}
use nginx_k8s_loadbalancer.Result.{Error, Result, ok, panic, replied, refused}
use nginx_k8s_loadbalancer.Core.{Service, created, updated, deleted, Event}
use nginx_k8s_loadbalancer.Kubernetes.{Node, Object, Informer, Cluster}
use nginx_k8s_loadbalancer.Observation.Watcher.{
  HandlerInterface, WatcherState, retrieve_node_ips, build_event_handler_for_add,
  build_event_handler_for_delete, build_event_handler_for_update, watch,
}

-- A call of one of the three callbacks.
pub data Notice : Type 0 where
  added removed : Object → Notice
  changed : Object → Object → Notice

unfoldable pub notify :
    {H : Type 0}
    → HandlerInterface H
    → Cluster
    → Notice
    → WatcherState H
    → Result (Unit {0}) × WatcherState H
unfolding build_event_handler_for_add build_event_handler_for_delete build_event_handler_for_update
notify handler cluster (added obj) w = build_event_handler_for_add handler cluster obj w
notify handler cluster (removed obj) w = build_event_handler_for_delete handler cluster obj w
notify handler cluster (changed old obj) w =
    build_event_handler_for_update handler cluster old obj w

-- The Event that a notice of a Service stands for.
pub data Announces (ips : List String) : Notice → Event → Type 0 where
  announces_new :
      (s : Service)
      → Announces ips
          (added (Object.service s))
          (record { event_type = created; service = s; previous_service = none; node_ips = ips })
  announces_gone :
      (s : Service)
      → Announces ips
          (removed (Object.service s))
          (record { event_type = deleted; service = s; previous_service = none; node_ips = ips })
  announces_change :
      (old s : Service)
      → Announces ips (changed (Object.service old) (Object.service s)) (record {
        event_type = updated;
        service = s;
        previous_service = some old;
        node_ips = ips;
      })

module _ {H : Type 0} (handler : HandlerInterface H) (cluster : Cluster) (w : WatcherState H) where
  -- When the addresses of the nodes are known, the callback on a Service hands the handler exactly
  -- one event, at a new address, that has the type of the notice, the Service, the Service before a
  -- change, and these addresses.
  pub notify-Announces :
      (ips : List String) (n : Notice) (e : Event)
      → retrieve_node_ips cluster ≡ ok ips
      → Announces ips n e
      → notify handler cluster n w ≡ (
        ok tt,
        record w {
          handler =
              handler.add_rate_limited_event (record { address = w.next; value = e }) w.handler;
          next = w.next + 1;
        },
      )
  unfolding notify
  notify-Announces ips n e known (announces_new s) = rw known refl
  notify-Announces ips n e known (announces_gone s) = rw known refl
  notify-Announces ips n e known (announces_change old s) = rw known refl

  -- A callback whose list of nodes is refused is lost, whatever the object: it returns and queues
  -- nothing.
  pub notify-refused :
      (n : Notice) (e : Error)
      → cluster.list_nodes ≡ refused e
      → notify handler cluster n w ≡ (ok tt, w)
  unfolding notify retrieve_node_ips
  notify-refused (added obj) e failed = rw failed refl
  notify-refused (removed obj) e failed = rw failed refl
  notify-refused (changed old obj) e failed = rw failed refl

  -- The deletion of a Service that the informer missed arrives as a DeletedFinalStateUnknown: unless
  -- the nodes cannot be listed, the callback panics, and queues nothing.
  pub notify-deleted_final_state_unknown :
      (nodes : List Node) (key : String)
      → cluster.list_nodes ≡ replied nodes
      → notify handler cluster (removed (Object.deleted_final_state_unknown key)) w
        ≡ (panic "interface conversion", w)
  unfolding notify retrieve_node_ips
  notify-deleted_final_state_unknown nodes key listed = rw listed refl

  -- Watch has no error exactly when Initialize made an informer and its cache syncs; then it waits for
  -- the end of the context.
  pub watch_iff :
      (ctx : Context)
      → ((watch handler cluster ctx w).0 ≡ ok (wait ctx))
        ↔ ((i : Informer) × (w.informer ≡ some i) × (cluster.wait_for_cache_sync i ≡ true))
  unfolding watch
  watch_iff background = (λ h. ground arith, λ h. ground arith)
  watch_iff cancelled = (λ h. ground arith, λ h. ground arith)
