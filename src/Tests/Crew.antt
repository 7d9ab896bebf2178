-- ===== src/Tests/Crew.antt =====
-- A run of the whole program, with its threads: an Event on its way to NGINX Plus, beside changes of the
-- settings and of the Secrets.
use nginx_k8s_loadbalancer.Base.{◌≤◌, ◌≡◌, refl, List, [], ◌∷◌, length}
use nginx_k8s_loadbalancer.Result.{ok}
use nginx_k8s_loadbalancer.Core.{Event, ServerUpdateEvent}
use nginx_k8s_loadbalancer.Kubernetes.{Object, secret}
use nginx_k8s_loadbalancer.Certification.Runs as SecretRuns
use nginx_k8s_loadbalancer.Configuration.Settings.Runs as ConfigRuns
use nginx_k8s_loadbalancer.WorkQueue.{Ref}
use nginx_k8s_loadbalancer.Observation.Watcher.Callbacks.{added, announces_new}
use nginx_k8s_loadbalancer.Observation.Handler
use nginx_k8s_loadbalancer.Synchronization.Worker
use nginx_k8s_loadbalancer.System.{Action, noticed, configured, certified, watch_ended, steps}
use nginx_k8s_loadbalancer.System.Invariant.{IsSound}
use nginx_k8s_loadbalancer.Certification.Noticed.{adds, unnoticed, noticed}
use nginx_k8s_loadbalancer.System.Safety.{
  Possible, ended, turned, reconfigured, secret_noticed, announced,
}
use nginx_k8s_loadbalancer.System.Crew.{
  Move, called, handler_turn, synchronizer_turn, CrewState, seen_as, moves,
}
use nginx_k8s_loadbalancer.System.Crew.Calls.{Holds}
use nginx_k8s_loadbalancer.System.Crew.Runs.{Realizes, calls, moves-Realized}
use nginx_k8s_loadbalancer.System.Crew.Safety.{run-moves-IsSound}
use nginx_k8s_loadbalancer.Tests.Fixtures.{sample_crypto, sample_service}
use nginx_k8s_loadbalancer.Tests.Queues.{sample_holding}
use nginx_k8s_loadbalancer.Tests.Secrets.{stranger}
use nginx_k8s_loadbalancer.Tests.Synchronizer.{sample_plus}
use nginx_k8s_loadbalancer.Tests.Observer.{recording, sample_cluster}
use nginx_k8s_loadbalancer.Tests.Program.{blank, sample_library}
use nginx_k8s_loadbalancer.Tests.System.{
  event_queue, change_queue, idle, AboutSample, listed, started,
}

abbrev waiting_crew : CrewState sample_crypto sample_plus event_queue change_queue
waiting_crew = record {
  process = idle.process;
  watcher = idle.watcher;
  handlers = Handler.run idle.process.settings;
  synchronizers = Worker.run idle.process.settings;
}

abbrev sample_moves : List Move
sample_moves =
    called (noticed sample_cluster (added (Object.service sample_service))) tt
    ∷ handler_turn 0
    ∷ called (certified (SecretRuns.added (secret stranger))) tt
    ∷ handler_turn 0
    ∷ synchronizer_turn 0
    ∷ called (configured (ConfigRuns.removed Object.other)) tt
    ∷ synchronizer_turn 0
    ∷ called watch_ended tt
    ∷ []

sample-Possible : Possible AboutSample [] (calls sample_moves) ("other" ∷ [])
sample-Possible =
    announced sample_cluster (added (Object.service sample_service)) ("10.0.0.1" ∷ []) _ listed
      (announces_new sample_service) refl
      (secret_noticed (SecretRuns.added (secret stranger)) (adds stranger) (
        reconfigured (ConfigRuns.removed Object.other)
          (turned watch_ended tt (ended ("other" ∷ [])))))

run-moves-IsSound_example :
    ((moves sample_crypto sample_plus event_queue change_queue sample_moves waiting_crew).0 ≡ ok tt)
    × (handling : List (Ref Event)) × (sending : List (Ref ServerUpdateEvent)) × Holds sample_crypto
        sample_plus event_queue change_queue
        (moves sample_crypto sample_plus event_queue change_queue sample_moves waiting_crew).1
        handling
        sending
    × IsSound {events = event_queue} {wq = change_queue} sample_holding sample_holding AboutSample
        ("other" ∷ [])
        (seen_as sample_crypto sample_plus event_queue change_queue
          (moves sample_crypto sample_plus event_queue change_queue sample_moves waiting_crew).1
          handling
          sending)
    × (length handling ≤ waiting_crew.process.settings.handler.threads)
    × (length sending ≤ waiting_crew.process.settings.synchronizer.threads)
run-moves-IsSound_example =
    run-moves-IsSound sample_library recording blank sample_crypto sample_plus event_queue
      change_queue sample_holding sample_holding AboutSample [] [] ("other" ∷ []) sample_moves
      waiting_crew (unnoticed []) started refl refl refl (λ e there. there) (λ r there. there)
      sample-Possible

moves-Realized_example :
    (actions : List Action) × (handling : List (Ref Event)) × (sending : List
      (Ref ServerUpdateEvent))
    × Realizes sample_moves actions
    × (steps sample_crypto sample_plus event_queue change_queue actions
          (seen_as sample_crypto sample_plus event_queue change_queue waiting_crew [] [])
        ≡ (
          (moves sample_crypto sample_plus event_queue change_queue sample_moves waiting_crew).0,
          seen_as sample_crypto sample_plus event_queue change_queue
              (moves sample_crypto sample_plus event_queue change_queue sample_moves waiting_crew).1
              handling
              sending,
        ))
    × Holds sample_crypto sample_plus event_queue change_queue
        (moves sample_crypto sample_plus event_queue change_queue sample_moves waiting_crew).1
        handling
        sending
    × (length handling ≤ waiting_crew.process.settings.handler.threads)
    × (length sending ≤ waiting_crew.process.settings.synchronizer.threads)
moves-Realized_example =
    moves-Realized sample_crypto sample_plus event_queue change_queue waiting_crew.process.settings
      waiting_crew sample_moves refl refl
