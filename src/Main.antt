-- ===== src/Main.antt =====
-- cmd/nginx-loadbalancer-kubernetes/main.go: main and run, which is the first goroutine. The goroutines that
-- run starts are modelled in their own modules, and side by side in System.
use nginx_k8s_loadbalancer.Base.{
  ℕ, String, ◌≡◌, refl, ap, ◌⊎◌, inl, inr, Bool-cases, Option, some, Option-cases, List, [],
}
use nginx_k8s_loadbalancer.Text.{◌⧺◌}
use nginx_k8s_loadbalancer.Result.{Error, Result, ok, err, wrapped}
use nginx_k8s_loadbalancer.Context.{
  background, Outcome, waits, then_wait, Exit, exited, waiting, exit_of,
}
use nginx_k8s_loadbalancer.Certification.Runs as SecretRuns
use nginx_k8s_loadbalancer.Certification.Known.{Knows}
use nginx_k8s_loadbalancer.Certification.Noticed.{KnownAfter}
use nginx_k8s_loadbalancer.Exec.{Exec, ◌>>=◌, ◌>>◌, lift, wrap, pure}
use nginx_k8s_loadbalancer.Exec.Rules.{NoPanic-cases}
use nginx_k8s_loadbalancer.Kubernetes.{Cluster}
use nginx_k8s_loadbalancer.KubernetesClient.{
  ClientLibrary, build_kubernetes_client, build_kubernetes_client-Located,
}
use nginx_k8s_loadbalancer.Configuration.Settings.{WorkQueueSettings, Process, new_settings}
use nginx_k8s_loadbalancer.Configuration.Settings.Runs.{IsReady}
use nginx_k8s_loadbalancer.Configuration.Startup
use nginx_k8s_loadbalancer.Configuration.Startup.Ready.{initialize-IsInitialized}
use nginx_k8s_loadbalancer.Observation.Watcher
use nginx_k8s_loadbalancer.Probation
use nginx_k8s_loadbalancer.Probation.{HealthServer, new_health_server}
use nginx_k8s_loadbalancer.Observation.Watcher.{HandlerInterface, WatcherState}

-- What a queue is built with: the base and the limit of its rate limiter, and its name.
pub record QueueOptions : Type 0 where
  pub rate_limiter_base : ℕ
  pub rate_limiter_max : ℕ
  pub name : String

unfoldable pub build_work_queue : WorkQueueSettings → QueueOptions
build_work_queue settings = record {
  rate_limiter_base = settings.rate_limiter_base;
  rate_limiter_max = settings.rate_limiter_max;
  name = settings.name;
}

-- What run builds.
pub record Program (H : Type 0) : Type 0 where
  pub process : Process
  pub synchronizer_queue : Option QueueOptions
  pub handler_queue : Option QueueOptions
  pub watcher : WatcherState H
  pub probes : Option HealthServer

abbrev client_failed : Error → Error
client_failed e = "error building a Kubernetes client: " ⧺ e

abbrev settings_failed : Error → Error
settings_failed e = "error occurred initializing settings: " ⧺ e

abbrev watcher_failed : Error → Error
watcher_failed e = "error occurred initializing the watcher: " ⧺ e

abbrev watching_failed : Error → Error
watching_failed e = "error occurred watching for events: " ⧺ e

module _ {H : Type 0} where
  abbrev put_process : Program H → Result (Unit {0}) × Process → Result (Unit {0}) × Program H
  put_process p (r, q) = (r, record p { process = q })

  abbrev put_watcher : {A : Type 0} → Program H → Result A × WatcherState H → Result A × Program H
  put_watcher p (r, w) = (r, record p { watcher = w })

  abbrev make_settings : Exec (Program H) Unit
  make_settings p = (ok tt, record p { process = record p.process { settings = new_settings } })

  abbrev initialize_settings : Cluster → List SecretRuns.Callback → Exec (Program H) Unit
  initialize_settings cluster callbacks p =
      put_process p (Startup.initialize cluster callbacks p.process)

  -- Both queues are built with the synchronizer's settings.
  unfoldable pub make_queues : Exec (Program H) Unit
  unfolding build_work_queue
  make_queues p = (
    ok tt,
    record p {
      synchronizer_queue =
          some (build_work_queue p.process.settings.synchronizer.work_queue_settings);
      handler_queue = some (build_work_queue p.process.settings.synchronizer.work_queue_settings);
    },
  )

  abbrev initialize_watcher : Cluster → Exec (Program H) Unit
  initialize_watcher cluster p =
      put_watcher p (Watcher.initialize p.process.settings cluster p.watcher)

  abbrev start_probes : Exec (Program H) Unit
  start_probes p = (ok tt, record p { probes = some (Probation.start new_health_server) })

  abbrev watch_events : HandlerInterface H → Cluster → Exec (Program H) Outcome
  watch_events handler cluster p =
      put_watcher p (Watcher.watch handler cluster background p.watcher)

  -- The cluster is the one that the client speaks to; the callbacks are those that the goroutine of the
  -- certificates makes while the settings are initialized. The context is context.Background.
  unfoldable pub run :
      {Config : Type 0}
      → ClientLibrary Config
      → HandlerInterface H
      → List SecretRuns.Callback
      → Exec (Program H) Outcome
  unfolding make_queues
  run library handler callbacks = do
    cluster ← lift (wrapped client_failed (build_kubernetes_client library))
    make_settings
    wrap settings_failed (initialize_settings cluster callbacks)
    make_queues
    wrap watcher_failed (initialize_watcher cluster)
    start_probes
    watched ← wrap watching_failed (watch_events handler cluster)
    pure (then_wait background watched)

  -- The exit of the first goroutine; the others are in System.
  unfoldable pub main :
      {Config : Type 0}
      → ClientLibrary Config
      → HandlerInterface H
      → List SecretRuns.Callback
      → Program H
      → Exit × Program H
  main library handler callbacks p =
      let (r, p') = run library handler callbacks p in (exit_of r, p')

-- What holds once run waits, with no error; these Secrets are known, and the handler is this one.
pub record IsStarted {H : Type 0} (known : List String) (handler : H) (p : Program H) : Type 0 where
  pub ready : IsReady p.process
  pub knows : Knows known ready.certificates
  pub synchronizer : p.process.settings.synchronizer ≡ new_settings.synchronizer
  pub synchronizer_queue :
      p.synchronizer_queue
      ≡ some (build_work_queue p.process.settings.synchronizer.work_queue_settings)
  pub handler_queue : p.handler_queue ≡ p.synchronizer_queue
  pub watching : p.watcher.informer ≡ some (Watcher.build_informer p.process.settings)
  pub not_shut_down : p.watcher.handler ≡ handler
  pub probing : p.probes ≡ some (Probation.start new_health_server)

-- run does not panic, whatever the API server answers, as long as the informer of the Secrets changes
-- known ones only: it starts the program and waits for ever, or it returns an error.
pub run-IsStarted :
    {H Config : Type 0} (library : ClientLibrary Config) (handler : HandlerInterface H)
    (callbacks : List SecretRuns.Callback) (known : List String) (p : Program H)
    → KnownAfter [] callbacks known
    → (((run library handler callbacks p).0 ≡ ok waits)
        × IsStarted known p.watcher.handler (run library handler callbacks p).1)
      ⊎ ((e : Error) × ((run library handler callbacks p).0 ≡ err e))
unfolding run Watcher.initialize Watcher.initialize_event_listeners Watcher.watch
    Watcher.build_informer new_settings
run-IsStarted library handler callbacks known p possible =
    elim (NoPanic-cases (build_kubernetes_client library)
      (build_kubernetes_client-Located library).0) [
        | inr (e, failed) ↦ inr (client_failed e, rw failed refl)
        | inl (cluster, made) ↦
            let before : Process = record p.process { settings = new_settings } in
            elim (initialize-IsInitialized cluster callbacks known before possible tt) [
              | inr (e, failed) ↦ inr (settings_failed e, rw made (rw failed refl))
              | inl (done, started) ↦
                  let q : Process = (Startup.initialize cluster callbacks before).1 in
                  elim (Option-cases
                    (cluster.add_event_handler (Watcher.build_informer q.settings))) [
                      | inr (e, failed) ↦ inr (
                        watcher_failed (Watcher.initialization_failed (Watcher.adding_failed e)),
                        rw made (rw done (rw failed refl)),
                      )
                      | inl registered ↦
                          elim (Bool-cases
                            (cluster.wait_for_cache_sync (Watcher.build_informer q.settings))) [
                              | inr never ↦ inr (
                                watching_failed "error occurred waiting for the cache to sync",
                                rw made (rw done (rw registered (rw never refl))),
                              )
                              | inl synced ↦ inl (
                                rw made (rw done (rw registered (rw synced refl))),
                                rw made (
                                    rw done (
                                      rw registered (
                                        rw synced (record {
                                          ready = started.ready;
                                          knows = started.knows;
                                          synchronizer = started.synchronizer;
                                          synchronizer_queue = refl;
                                          handler_queue = refl;
                                          watching = refl;
                                          not_shut_down = refl;
                                          probing = refl;
                                        })))),
                              )
                            ]
                    ]
            ]
      ]

-- The first goroutine of the program does not panic, whatever the API server answers and whatever
-- Secrets the certificates' informer notices meanwhile, as long as it changes known Secrets only: main
-- exits with status 1, or it waits for ever and leaves the work to the other goroutines. Then the
-- settings were initialized, with the certificates made, the Secrets in them that were known when
-- Initialize returned, one of the five TLS modes, and the default settings of the synchronizer; the
-- watcher had its informer on the Services, and its handler was not shut down;
-- the probes were served; and both queues were built with the synchronizer's settings, the handler's
-- settings not being used for its own queue.
pub main-IsStarted :
    {H Config : Type 0} (library : ClientLibrary Config) (handler : HandlerInterface H)
    (callbacks : List SecretRuns.Callback) (known : List String) (p : Program H)
    → KnownAfter [] callbacks known
    → (((main library handler callbacks p).0 ≡ waiting)
        × IsStarted known p.watcher.handler (main library handler callbacks p).1)
      ⊎ ((main library handler callbacks p).0 ≡ exited 1)
unfolding main
main-IsStarted library handler callbacks known p possible =
    elim (run-IsStarted library handler callbacks known p possible) [
      | inl (done, started) ↦ inl (ap exit_of done, started)
      | inr (e, failed) ↦ inr (ap exit_of failed)
    ]
