-- ===== src/Tests/System.antt =====
-- A run of the whole program: an Event on its way to NGINX Plus, beside changes of the settings and of
-- the Secrets.
use nginx_k8s_loadbalancer.GoMap.{lookup}
use nginx_k8s_loadbalancer.Configuration.TlsModes.{tls_mode_map}
use nginx_k8s_loadbalancer.Configuration.Startup
use nginx_k8s_loadbalancer.Configuration.Settings.{is_our_config, validate_tls_mode}
use nginx_k8s_loadbalancer.Base.{Acc, ◌≡◌, refl, none, List, [], ◌∷◌}
use nginx_k8s_loadbalancer.Result.{ok}
use nginx_k8s_loadbalancer.Context.{waits}
use nginx_k8s_loadbalancer.Certification.Runs as SecretRuns
use nginx_k8s_loadbalancer.Certification.Noticed.{unnoticed}
use nginx_k8s_loadbalancer.Core.{Event, ServerUpdateEvent}
use nginx_k8s_loadbalancer.Kubernetes.{Object}
use nginx_k8s_loadbalancer.KubernetesClient.{build_kubernetes_client}
use nginx_k8s_loadbalancer.WorkQueue.{WorkQueue, Ref}
use nginx_k8s_loadbalancer.Observation.Watcher.Callbacks.{added, announces_new}
use nginx_k8s_loadbalancer.Observation.Watcher.{retrieve_node_ips}
use nginx_k8s_loadbalancer.Observation.Watcher
use nginx_k8s_loadbalancer.Main.{run}
use nginx_k8s_loadbalancer.System.{Action, noticed, State, steps}
use nginx_k8s_loadbalancer.System.Invariant.{IsSound}
use nginx_k8s_loadbalancer.System.Safety.{Possible, ended, announced}
use nginx_k8s_loadbalancer.System.Rest.{Follows, Acc-Follows}
use nginx_k8s_loadbalancer.System.Rest.Reached.{IsAtRest, Leads, here, Leads-IsAtRest}
use nginx_k8s_loadbalancer.System.Start.{IsIdle, run-steps-IsSound}
use nginx_k8s_loadbalancer.Tests.Fixtures.{sample_crypto, sample_service}
use nginx_k8s_loadbalancer.Tests.Queues.{
  sample_backlog, sample_queue-CountsRequeues, sample_queue, sample_holding,
}
use nginx_k8s_loadbalancer.Tests.Synchronizer.{sample_plus, sample_world}
use nginx_k8s_loadbalancer.Tests.Observer.{recording, sample_cluster}
use nginx_k8s_loadbalancer.Tests.Program.{blank, sample_library}

abbrev pub event_queue : WorkQueue (Ref Event)
event_queue = sample_queue

abbrev pub change_queue : WorkQueue (Ref ServerUpdateEvent)
change_queue = sample_queue

-- The running program just after its start.
abbrev pub idle : State sample_crypto sample_plus event_queue change_queue
idle = record {
  process = (run sample_library recording [] blank).1.process;
  watcher = record {
    informer = none;
    handler = record {
      event_queue = record { items = []; count = λ a. 0 };
      synchronizer = sample_world;
    };
    next = 0;
  };
  handling = [];
  sending = [];
}

-- Only Events of one Service are expected.
abbrev pub AboutSample : Event → Type 0
AboutSample e = e.service ≡ sample_service

pub listed : retrieve_node_ips sample_cluster ≡ ok ("10.0.0.1" ∷ [])
unfolding retrieve_node_ips lookup
listed = refl

pub started : (run sample_library recording [] blank).0 ≡ ok waits
unfolding run build_kubernetes_client Startup.initialize SecretRuns.calls is_our_config
    validate_tls_mode lookup tls_mode_map Watcher.initialize Watcher.watch
started = refl

idle-IsIdle : IsIdle {events = event_queue} {wq = change_queue} sample_holding sample_holding idle
idle-IsIdle = record {
  no_event = λ e there. there;
  no_change = λ r there. there;
  no_event_in_work = refl;
  no_change_in_work = refl;
}

-- The program once a Service was noticed.
abbrev one_notice : List Action
one_notice = noticed sample_cluster (added (Object.service sample_service)) ∷ []

abbrev noticed_state : State sample_crypto sample_plus event_queue change_queue
noticed_state = (steps sample_crypto sample_plus event_queue change_queue one_notice idle).1

one_notice-Possible : Possible AboutSample [] one_notice []
one_notice-Possible =
    announced sample_cluster (added (Object.service sample_service)) ("10.0.0.1" ∷ []) _ listed
      (announces_new sample_service) refl (ended [])

noticed_state-IsSound :
    IsSound {events = event_queue} {wq = change_queue} sample_holding sample_holding AboutSample []
      noticed_state
noticed_state-IsSound =
    (run-steps-IsSound sample_library recording blank sample_crypto sample_plus event_queue
      change_queue sample_holding sample_holding AboutSample [] [] [] one_notice idle (unnoticed [])
      started refl idle-IsIdle one_notice-Possible).1

Acc-Follows_example :
    Acc (λ s' s. Follows sample_crypto sample_plus event_queue change_queue s s') noticed_state
Acc-Follows_example =
    Acc-Follows sample_crypto sample_plus event_queue change_queue sample_queue-CountsRequeues
      sample_backlog sample_backlog sample_holding sample_holding AboutSample [] noticed_state
      noticed_state-IsSound

Leads-IsAtRest_example :
    (s' : State sample_crypto sample_plus event_queue change_queue) × Leads sample_crypto
      sample_plus event_queue change_queue noticed_state s'
    × IsAtRest sample_crypto sample_plus event_queue change_queue sample_backlog sample_backlog s'
    × IsSound {events = event_queue} {wq = change_queue} sample_holding sample_holding AboutSample
        [] s'
Leads-IsAtRest_example =
    Leads-IsAtRest sample_crypto sample_plus event_queue change_queue sample_queue-CountsRequeues
      sample_backlog sample_backlog sample_holding sample_holding AboutSample [] noticed_state
      noticed_state noticed_state-IsSound (here noticed_state)
