-- ===== src/Harness/Start.antt =====
-- main and run of cmd/configuration-test-harness/main.go and cmd/certificates-test-harness/main.go: what
-- their first goroutine does, until it waits for ever.
use nginx_k8s_loadbalancer.Base.{String, ◌≡◌, refl, ◌⊎◌, inl, inr, Option-cases, some, List, []}
use nginx_k8s_loadbalancer.Text.{◌⧺◌}
use nginx_k8s_loadbalancer.Result.{Error, Result, ok, err, panic, wrapped}
use nginx_k8s_loadbalancer.Context.{background, Outcome, waits, wait, Exit, exit_of}
use nginx_k8s_loadbalancer.Certification.Runs as SecretRuns
use nginx_k8s_loadbalancer.Certification.Noticed.{KnownAfter}
use nginx_k8s_loadbalancer.Exec.{Exec, ◌>>=◌, ◌>>◌, lift, wrap, pure}
use nginx_k8s_loadbalancer.Exec.Rules.{NoPanic-cases}
use nginx_k8s_loadbalancer.Kubernetes.{Cluster}
use nginx_k8s_loadbalancer.Certification
use nginx_k8s_loadbalancer.Certification.{Certificates, new_certificates}
use nginx_k8s_loadbalancer.Configuration.Settings.{Process, new_settings}
use nginx_k8s_loadbalancer.Configuration.Startup
use nginx_k8s_loadbalancer.Configuration.Startup.Ready.{IsInitialized, initialize-IsInitialized}
use nginx_k8s_loadbalancer.Harness.Client.{
  HomeLibrary, build_kubernetes_client, build_certificates_client, home_client-Located,
}

abbrev pub client_failed : Error → Error
client_failed e = "error building a Kubernetes client: " ⧺ e

abbrev pub configuration_failed : Error → Error
configuration_failed e = "error occurred initializing configuration: " ⧺ e

abbrev pub certificates_failed : Error → Error
certificates_failed e = "error occurred initializing certificates: " ⧺ e

abbrev make_settings : Exec Process Unit
make_settings p = (ok tt, record p { settings = new_settings })

abbrev with_client : Result Cluster → Result Certificates
with_client (ok cluster) =
    wrapped certificates_failed (Certification.initialize cluster new_certificates)
with_client (err e) = err (client_failed e)
with_client (panic p) = panic p

-- `<-ctx.Done(); return nil`, with the certificates left to their goroutine
abbrev waiting_with : Result Certificates → Result Outcome
waiting_with (ok c) = ok (wait background)
waiting_with (err e) = err e
waiting_with (panic p) = panic p

module _ {Config : Type 0} (library : HomeLibrary Config) where
  -- The harness of the configuration, with the callbacks that the goroutine of the certificates makes
  -- while the settings are initialized.
  unfoldable pub run_configuration : List SecretRuns.Callback → Exec Process Outcome
  run_configuration callbacks = do
    cluster ← lift (wrapped client_failed (build_kubernetes_client library))
    make_settings
    wrap configuration_failed (Startup.initialize cluster callbacks)
    pure (wait background)

  -- The harness of the certificates, with the certificates that it makes.
  unfoldable pub run_certificates : Result Certificates
  run_certificates = with_client (build_certificates_client library)

  unfoldable pub main_configuration : List SecretRuns.Callback → Process → Exit × Process
  main_configuration callbacks p = let (r, p') = run_configuration callbacks p in (exit_of r, p')

  unfoldable pub main_certificates : Exit
  main_certificates = exit_of (waiting_with run_certificates)

-- What the harnesses start with: the settings of the configuration's are initialized from the
-- defaults, or there is an error; the certificates' are made, with no Secret and with an informer, or
-- there is an error; neither run panics, whatever the API server answers, as long as the informer of
-- the Secrets changes known ones only.
pub run-IsInitialized :
    {Config : Type 0} (library : HomeLibrary Config) (callbacks : List SecretRuns.Callback)
    (known : List String) (p : Process)
    → KnownAfter [] callbacks known
    → ((((run_configuration library callbacks p).0 ≡ ok waits)
          × IsInitialized known
              (record p { settings = new_settings })
              (run_configuration library callbacks p).1)
        ⊎ ((e : Error) × ((run_configuration library callbacks p).0 ≡ err e)))
      × ((run_certificates library
            ≡ ok (record new_certificates {
              certificates = some [];
              informer = some Certification.build_informer;
            }))
          ⊎ ((e : Error) × (run_certificates library ≡ err e)))
unfolding run_configuration run_certificates build_certificates_client new_settings
    Certification.initialize Certification.initialize_event_handlers
run-IsInitialized library callbacks known p possible =
    elim (NoPanic-cases (build_kubernetes_client library) (home_client-Located library).0) [
      | inr (e, missing) ↦
          (inr (client_failed e, rw missing refl), inr (client_failed e, rw missing refl))
      | inl (cluster, made) ↦ (
        elim (initialize-IsInitialized cluster callbacks known
            (record p { settings = new_settings }) possible tt) [
              | inl (done, started) ↦ inl (rw made (rw done refl), rw made (rw done started))
              | inr (e, refused) ↦ inr (configuration_failed e, rw made (rw refused refl))
            ],
        elim (Option-cases (cluster.add_event_handler Certification.build_informer)) [
          | inl registered ↦ inl (rw made (rw registered refl))
          | inr (e, refused) ↦ inr (
            certificates_failed
                (Certification.handlers_failed (Certification.registering_failed e)),
            rw made (rw refused refl),
          )
        ],
      )
    ]
