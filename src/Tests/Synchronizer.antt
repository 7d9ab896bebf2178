-- ===== src/Tests/Synchronizer.antt =====
-- Runs of the synchronizer, and its theorems at them.
use nginx_k8s_loadbalancer.Base.{
  inl, inr, ◌⊎◌, subst, sym, ℕ, ◌*◌, ◌≤◌, ◌<◌, String, ◌≡◌, ◌≢◌, ◌↔◌, some, refl, none, some, List,
  [], ◌∷◌, arith, ltb, if◌then◌else◌,
}
use nginx_k8s_loadbalancer.Result.{ok, replied}
use nginx_k8s_loadbalancer.Core.{deleted, ServerUpdateEvent}
use nginx_k8s_loadbalancer.Configuration.Settings.{new_settings}
use nginx_k8s_loadbalancer.Authentication
use nginx_k8s_loadbalancer.Authentication.{TlsConfig}
use nginx_k8s_loadbalancer.Application.{nginx}
use nginx_k8s_loadbalancer.WorkQueue.{WorkQueue, Ref}
use nginx_k8s_loadbalancer.Synchronization.Random.{
  Random, random_milliseconds, random_milliseconds_bounds,
}
use nginx_k8s_loadbalancer.Synchronization.World.{World, NginxPlus}
use nginx_k8s_loadbalancer.Synchronization.Queueing.{fan_out_event_to_hosts, add_events}
use nginx_k8s_loadbalancer.Synchronization.Queueing.FanOut.{
  FansOut, Made, fan_out_event_to_hosts-FansOut,
}
use nginx_k8s_loadbalancer.Synchronization.Queueing.Enqueued.{Enqueued, add_events-Enqueued}
use nginx_k8s_loadbalancer.Synchronization.Delivery.{handle_event}
use nginx_k8s_loadbalancer.Communication.{Transports, HttpClient, new_http_client}
use nginx_k8s_loadbalancer.Synchronization.Delivery.Calls.{deletes_http, handle_event-Asks}
use nginx_k8s_loadbalancer.Synchronization.Worker.{with_retry, worker, crashed, waits, stopped}
use nginx_k8s_loadbalancer.Synchronization.Drain.{owes, worker-Drains}
use nginx_k8s_loadbalancer.Synchronization.Survival.{IsSafe, worker-ne-crashed}
use nginx_k8s_loadbalancer.Synchronization.Retries.{
  Failing, fresh, failed, delayed, with_retry-Failing,
}
use nginx_k8s_loadbalancer.Tests.Fixtures.{
  sample_crypto, sample_settings, sample_certificates, sample_api, sample_updates, sample_deletions,
  update_of, server,
}
use nginx_k8s_loadbalancer.Tests.Queues.{
  Waiting, sample_holding, sample_backlog, sample_queue, sample_queue-CountsRequeues,
}

abbrev pub Config : Type 0
Config = TlsConfig (List ℕ) (List ℕ × List ℕ)

abbrev pub sample_plus : NginxPlus Config (List String)
sample_plus = record {
  new_nginx_client = λ host client t w. (replied (nginx sample_api), host ∷ w);
}

abbrev sample_random : Random
sample_random = record { draw = λ n. n * 7; drawn = 3 }

abbrev empty_queue : Waiting ServerUpdateEvent
empty_queue = record { items = []; count = λ a. 0 }

abbrev pub sample_world : World (Waiting ServerUpdateEvent) Config (List String)
sample_world = record {
  queue = empty_queue;
  random = sample_random;
  next = 100;
  transports = λ a. none;
  outside = [];
}

abbrev sample_ref : Ref ServerUpdateEvent
sample_ref = record {
  address = 7;
  value = record (update_of deleted "http" "tea" (server "10.0.0.1:30080" ∷ [])) {
    nginx_host = "https://10.1.1.4:9000/api";
  };
}

pub jitter :
    sample_settings.synchronizer.min_milliseconds_jitter
    < sample_settings.synchronizer.max_milliseconds_jitter
unfolding new_settings
jitter = omega arith

retries : 1 ≤ sample_settings.synchronizer.retry_count
unfolding new_settings
retries = omega arith

random_milliseconds_bounds_example :
    (ms : ℕ) × (random_milliseconds 250 750 sample_random
      ≡ (ok ms, record sample_random { drawn = 4 }))
    × (250 ≤ ms)
    × (ms < 750)
random_milliseconds_bounds_example = random_milliseconds_bounds 250 750 sample_random (omega arith)

fan_out_event_to_hosts-FansOut_example :
    (rs : List (Ref ServerUpdateEvent)) × (w' : World
      (Waiting ServerUpdateEvent)
      Config
      (List String))
    × (fan_out_event_to_hosts sample_settings sample_deletions sample_world ≡ (ok rs, w'))
    × FansOut sample_deletions sample_settings.nginx_plus_hosts rs
    × Made sample_world w' rs
fan_out_event_to_hosts-FansOut_example =
    fan_out_event_to_hosts-FansOut sample_settings sample_deletions sample_world

add_events-Enqueued_example :
    (rs : List (Ref ServerUpdateEvent)) × (w' : World
      (Waiting ServerUpdateEvent)
      Config
      (List String))
    × (add_events sample_queue sample_settings sample_updates sample_world ≡ (ok tt, w'))
    × FansOut sample_updates sample_settings.nginx_plus_hosts rs
    × Enqueued sample_queue sample_settings.synchronizer.min_milliseconds_jitter
        sample_settings.synchronizer.max_milliseconds_jitter rs empty_queue w'.queue
add_events-Enqueued_example =
    add_events-Enqueued sample_queue sample_settings jitter sample_updates sample_world

abbrev queue_of_events : WorkQueue (Ref ServerUpdateEvent)
queue_of_events = sample_queue

first_try : Failing queue_of_events sample_settings sample_ref 1 (
    with_retry queue_of_events sample_settings
      (some "refused")
      sample_ref
      (queue_of_events.add_after sample_ref 300 empty_queue))
first_try = failed "refused" (delayed sample_ref 300 (fresh empty_queue refl))

abbrev queue_once : Waiting ServerUpdateEvent
queue_once =
    with_retry queue_of_events sample_settings (some "refused") sample_ref
      (queue_of_events.add_after sample_ref 300 empty_queue)

with_retry-Failing_example :
    with_retry queue_of_events sample_settings (some "refused") sample_ref queue_once ≡ (
      if ltb 1 sample_settings.synchronizer.retry_count
      then queue_of_events.add_rate_limited sample_ref queue_once
      else queue_of_events.forget sample_ref queue_once)
with_retry-Failing_example =
    with_retry-Failing queue_of_events sample_queue-CountsRequeues sample_settings sample_ref 1
      queue_once "refused" first_try retries

named : sample_ref.value.event_type ≡ deleted → sample_ref.value.upstream_servers ≢ []
named h = λ e. cc

abbrev busy_world : World (Waiting ServerUpdateEvent) Config (List String)
busy_world = record sample_world { queue = record { items = sample_ref ∷ []; count = λ a. 0 } }

busy-IsSafe : IsSafe queue_of_events sample_holding busy_world.queue
busy-IsSafe r (inl e) =
    subst
      (λ (s : Ref ServerUpdateEvent). s.value.event_type ≡ deleted → s.value.upstream_servers ≢ [])
      (sym e) named
busy-IsSafe r (inr nothing) = absurd nothing

worker-ne-crashed_example :
    worker sample_crypto sample_plus queue_of_events sample_settings 20 busy_world
    ≢ crashed "index out of range" busy_world
worker-ne-crashed_example =
    worker-ne-crashed sample_crypto sample_plus queue_of_events sample_holding sample_settings
      sample_certificates 20 busy_world busy_world "index out of range" refl busy-IsSafe

-- The queue owes at most 7 turns: one event, and five retries.
enough_turns :
    owes queue_of_events sample_queue-CountsRequeues sample_backlog sample_settings busy_world.queue
    < 20
unfolding new_settings
enough_turns = omega arith

worker-Drains_example :
    (w' : World (Waiting ServerUpdateEvent) Config (List String)) × (((worker sample_crypto
            sample_plus queue_of_events sample_settings 20 busy_world
          ≡ waits w')
        × (w'.queue.items ≡ []))
      ⊎ (worker sample_crypto sample_plus queue_of_events sample_settings 20 busy_world
          ≡ stopped w'))
worker-Drains_example =
    worker-Drains sample_crypto sample_plus queue_of_events sample_queue-CountsRequeues
      sample_backlog sample_holding sample_settings sample_certificates 20 busy_world refl
      busy-IsSafe enough_turns

-- The client that the sample settings give, and its transports.
abbrev sample_client : HttpClient
sample_client = record {
  round_tripper = record {
    headers = "Content-Type: application/json" ∷ "Accept: application/json" ∷ [];
    transport = 0;
  };
  timeout = 10000000000;
}

abbrev sample_transports : Transports Config
sample_transports = (new_http_client sample_crypto sample_settings sample_world.transports).1

client_made :
    new_http_client sample_crypto sample_settings sample_world.transports
    ≡ (ok sample_client, sample_transports)
unfolding new_http_client new_settings Authentication.new_tls_config
client_made = refl

-- The API is called for the deletion of the tea server, and refuses it.
handle_event-Asks_example :
    (((handle_event sample_crypto sample_plus sample_settings sample_ref.value sample_world).0
        ≡ ok tt)
      ↔ ((sample_api.delete_http_server "tea" "10.0.0.1:30080" []).0 ≡ none))
    × ((handle_event sample_crypto sample_plus sample_settings sample_ref.value sample_world).1
        ≡ record sample_world {
          transports = sample_transports;
          outside = "10.0.0.1:30080" ∷ "https://10.1.1.4:9000/api" ∷ [];
        })
handle_event-Asks_example =
    handle_event-Asks sample_crypto sample_plus sample_settings sample_ref.value sample_world
      sample_client sample_transports sample_api ("https://10.1.1.4:9000/api" ∷ []) _ client_made
      refl (deletes_http (server "10.0.0.1:30080") [] refl refl refl)
