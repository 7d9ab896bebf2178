-- ===== src/Tests/Observer.antt =====
-- Runs of the handler and of the watcher, and their theorems at them.
use nginx_k8s_loadbalancer.GoMap.{lookup}
use nginx_k8s_loadbalancer.Base.{
  Member, ◌<◌, String, ◌≡◌, ◌↔◌, ◌⊎◌, refl, none, some, true, false, List, [], ◌∷◌,
}
use nginx_k8s_loadbalancer.Result.{ok, panic, replied, refused}
use nginx_k8s_loadbalancer.Core.{updated, deleted, Event, ServerUpdateEvent}
use nginx_k8s_loadbalancer.Kubernetes.{Node, Object, Resource, Cluster}
use nginx_k8s_loadbalancer.WorkQueue.{WorkQueue, Ref}
use nginx_k8s_loadbalancer.Translation.Relation.{Translates, translate-Translates}
use nginx_k8s_loadbalancer.Synchronization.World.{World}
use nginx_k8s_loadbalancer.Synchronization.Queueing.FanOut.{FansOut, fan_out_event_to_hosts-FansOut}
use nginx_k8s_loadbalancer.Synchronization.Queueing.Enqueued.{Enqueued}
use nginx_k8s_loadbalancer.Synchronization.Worker.{returned}
use nginx_k8s_loadbalancer.Observation.Handler.{
  SynchronizerInterface, HandlerState, handle_next_event, add_rate_limited_event,
}
use nginx_k8s_loadbalancer.Observation.Handler.Handover.{AcceptsAll, handle_next_event-Translates}
use nginx_k8s_loadbalancer.Observation.Handler.Backoff.{start, num_requeues-add_rate_limited_event}
use nginx_k8s_loadbalancer.Observation.Watcher.{HandlerInterface, WatcherState, retrieve_node_ips}
use nginx_k8s_loadbalancer.Observation.Watcher.Nodes.{IsWorkerIp, retrieve_node_ips_iff}
use nginx_k8s_loadbalancer.Observation.Watcher.Callbacks.{
  removed, changed, notify, announces_change, notify-Announces, notify-deleted_final_state_unknown,
}
use nginx_k8s_loadbalancer.Probation
use nginx_k8s_loadbalancer.Probation.{
  Response, HealthServer, respond, new_health_server, respond_iff,
}
use nginx_k8s_loadbalancer.Pipeline.{
  synchronizer, synchronizer-AcceptsAll, handle_next_event-Enqueued,
}
use nginx_k8s_loadbalancer.Tests.Fixtures.{sample_settings, event_of, sample_service}
use nginx_k8s_loadbalancer.Tests.Queues.{Waiting, sample_queue, sample_queue-CountsRequeues}
use nginx_k8s_loadbalancer.Tests.Synchronizer.{Config, sample_world, jitter}

abbrev pub sample_event : Ref Event
sample_event = record { address = 5; value = event_of deleted }

abbrev event_queue : WorkQueue (Ref Event)
event_queue = sample_queue

abbrev change_queue : WorkQueue (Ref ServerUpdateEvent)
change_queue = sample_queue

abbrev sample_handler :
    HandlerState (Waiting Event) (World (Waiting ServerUpdateEvent) Config (List String))
sample_handler = record {
  event_queue = record { items = sample_event ∷ []; count = λ a. 1 };
  synchronizer = sample_world;
}

abbrev rest_of_queue : Waiting Event
rest_of_queue = record { items = []; count = λ a. 1 }

abbrev sample_synchronizer :
    SynchronizerInterface (World (Waiting ServerUpdateEvent) Config (List String))
sample_synchronizer = synchronizer change_queue sample_settings

accepting : AcceptsAll sample_synchronizer
accepting = synchronizer-AcceptsAll change_queue sample_settings jitter

handle_next_event-Translates_example :
    (es : List ServerUpdateEvent) × (s' : World (Waiting ServerUpdateEvent) Config (List String))
    × Translates (event_of deleted) sample_service.ports es
    × (sample_synchronizer.add_events es sample_world ≡ (ok tt, s'))
    × (handle_next_event event_queue sample_settings sample_synchronizer sample_handler
        ≡ returned true (record { event_queue = rest_of_queue; synchronizer = s' }))
handle_next_event-Translates_example =
    handle_next_event-Translates event_queue sample_settings sample_synchronizer accepting
      sample_event rest_of_queue sample_handler refl

handle_next_event-Enqueued_example :
    (es : List ServerUpdateEvent) × (rs : List (Ref ServerUpdateEvent)) × (w' : World
      (Waiting ServerUpdateEvent)
      Config
      (List String))
    × Translates (event_of deleted) sample_service.ports es
    × FansOut es sample_settings.nginx_plus_hosts rs
    × Enqueued change_queue sample_settings.synchronizer.min_milliseconds_jitter
        sample_settings.synchronizer.max_milliseconds_jitter rs sample_world.queue w'.queue
    × (handle_next_event event_queue sample_settings sample_synchronizer sample_handler
        ≡ returned true (record { event_queue = rest_of_queue; synchronizer = w' }))
handle_next_event-Enqueued_example =
    handle_next_event-Enqueued event_queue change_queue sample_settings sample_event rest_of_queue
      sample_handler jitter refl

abbrev after_adding :
    HandlerState (Waiting Event) (World (Waiting ServerUpdateEvent) Config (List String))
after_adding = add_rate_limited_event event_queue sample_event sample_handler

num_requeues-add_rate_limited_event_example :
    0 < event_queue.num_requeues sample_event after_adding.event_queue
num_requeues-add_rate_limited_event_example =
    num_requeues-add_rate_limited_event event_queue sample_queue-CountsRequeues sample_settings
      sample_synchronizer accepting sample_event sample_handler after_adding (start after_adding)

one_server :
    Translates (event_of deleted) sample_service.ports (translate-Translates (event_of deleted)).0
one_server = (translate-Translates (event_of deleted)).2

abbrev queued_changes : List (Ref ServerUpdateEvent)
queued_changes =
    (fan_out_event_to_hosts-FansOut sample_settings (translate-Translates (event_of deleted)).0
      sample_world).0

abbrev pub nodes : List Node
nodes =
    record {
      labels = [];
      addresses =
          record { address_type = "ExternalIP"; address = "34.1.1.1" }
          ∷ record { address_type = "InternalIP"; address = "10.0.0.1" }
          ∷ [];
    }
    ∷ record {
      labels = ("node-role.kubernetes.io/control-plane", "") ∷ [];
      addresses = record { address_type = "InternalIP"; address = "10.0.0.9" } ∷ [];
    }
    ∷ []

abbrev pub sample_cluster : Cluster
sample_cluster = record {
  get_config_map = λ namespace name. refused "not found";
  list_nodes = replied nodes;
  add_event_handler = λ i. none;
  wait_for_cache_sync = λ i. true;
}

abbrev offline_cluster : Cluster
offline_cluster = record {
  get_config_map = λ namespace name. refused "timeout";
  list_nodes = refused "timeout";
  add_event_handler = λ i. none;
  wait_for_cache_sync = λ i. false;
}

-- A handler whose state is the list of the events it got.
abbrev pub recording : HandlerInterface (List (Ref Event))
recording = record { add_rate_limited_event = λ e h. e ∷ h; shut_down = λ h. [] }

abbrev pub sample_watcher : WatcherState (List (Ref Event))
sample_watcher = record {
  informer = some (record { namespace = "nginx-ingress"; resource = Resource.services });
  handler = [];
  next = 40;
}

retrieve_node_ips_iff_example :
    (ips : List String) × (retrieve_node_ips sample_cluster ≡ ok ips)
    × ((ip : String) → Member ip ips ↔ IsWorkerIp ip nodes)
retrieve_node_ips_iff_example = retrieve_node_ips_iff sample_cluster nodes refl

one_node : retrieve_node_ips sample_cluster ≡ ok ("10.0.0.1" ∷ [])
unfolding retrieve_node_ips lookup
one_node = refl

abbrev sample_change : Event
sample_change = record {
  event_type = updated;
  service = sample_service;
  previous_service = some sample_service;
  node_ips = "10.0.0.1" ∷ [];
}

notify-Announces_example :
    notify recording sample_cluster
      (changed (Object.service sample_service) (Object.service sample_service))
      sample_watcher
    ≡ (
      ok tt,
      record sample_watcher {
        handler = record { address = 40; value = sample_change } ∷ [];
        next = 41;
      },
    )
notify-Announces_example =
    notify-Announces recording sample_cluster sample_watcher ("10.0.0.1" ∷ [])
      (changed (Object.service sample_service) (Object.service sample_service)) sample_change
      one_node (announces_change sample_service sample_service)

notify-deleted_final_state_unknown_example :
    notify recording sample_cluster
      (removed (Object.deleted_final_state_unknown "cafe/tea"))
      sample_watcher
    ≡ (panic "interface conversion", sample_watcher)
notify-deleted_final_state_unknown_example =
    notify-deleted_final_state_unknown recording sample_cluster sample_watcher nodes "cafe/tea" refl

abbrev probe_answer : Response
probe_answer = record { status = 200; body = "OK" }

respond_iff_example :
    (respond "/readyz" new_health_server ≡ none)
    × ((respond "/readyz" (Probation.start new_health_server) ≡ some probe_answer) ↔ (
        ((◌≡◌ {A = String} "/readyz" "/livez")
          ⊎ ((◌≡◌ {A = String} "/readyz" "/readyz") ⊎ (◌≡◌ {A = String} "/readyz" "/startupz")))
        × (◌≡◌ {A = Response} probe_answer (record { status = 200; body = "OK" }))))
    × ((stopped : HealthServer) × (Probation.stop (Probation.start new_health_server) ≡ ok stopped)
        × (respond "/readyz" stopped ≡ none))
    × (Probation.stop new_health_server ≡ panic "nil pointer dereference")
respond_iff_example = respond_iff "/readyz" probe_answer
