-- ===== src/Harness/Client.antt =====
-- buildKubernetesClient of cmd/configuration-test-harness/main.go, which the harness of the
-- certificates has word for word: outside of a cluster, the kubeconfig in the home directory.
use nginx_k8s_loadbalancer.Base.{
  String, ◌≡◌, ◌≢◌, refl, ap, ◌∙◌, ◌↔◌, inl, inr, ◌==◌, if◌then◌else◌, eq_iff, arith, Bool-cases,
}
use nginx_k8s_loadbalancer.Text.{◌⧺◌}
use nginx_k8s_loadbalancer.Result.{
  Error, Result, ok, err, panic, ◌>>=◌, Reply, replied, answered, answered-eq-replied, >>=-eq-ok,
  ok-injective,
}
use nginx_k8s_loadbalancer.Exec.Rules.{NoPanic, answered-NoPanic}
use nginx_k8s_loadbalancer.Kubernetes.{Cluster}
use nginx_k8s_loadbalancer.KubernetesClient.{InCluster, found, not_in_cluster, failed}

-- client-go's functions, and the path of a file in the home directory.
pub record HomeLibrary (Config : Type 0) : Type 0 where
  pub in_cluster_config : InCluster Config
  -- the text of rest.ErrNotInCluster
  pub not_in_cluster_message : Error
  pub build_config_from_flags : String → String → Reply Config
  pub new_for_config : Config → Reply Cluster
  -- homedir.HomeDir, empty if there is none
  pub home_dir : String
  -- filepath.Join(home, ".kube", "config")
  pub kube_config_in : String → String

abbrev pub kubeconfig_failed : Error → Error
kubeconfig_failed e = "error occurred building the kubeconfig: " ⧺ e

abbrev pub no_home : Error → Error
no_home e = "not running in a Cluster: " ⧺ e

abbrev pub cluster_failed : Error → Error
cluster_failed e = "error occurred getting the Cluster config: " ⧺ e

abbrev pub creating_failed : Error → Error
creating_failed e = "error occurred creating a client: " ⧺ e

module _ {Config : Type 0} (library : HomeLibrary Config) where
  abbrev pub config_at_home : Result Config
  config_at_home =
      if library.home_dir == ""
      then err (no_home library.not_in_cluster_message)
      else answered kubeconfig_failed
          (library.build_config_from_flags "" (library.kube_config_in library.home_dir))

  abbrev pub config_from : InCluster Config → Result Config
  config_from (found config) = ok config
  config_from not_in_cluster = config_at_home
  config_from (failed e) = err (cluster_failed e)

  unfoldable pub build_kubernetes_client : Result Cluster
  build_kubernetes_client = do
    config ← config_from library.in_cluster_config
    answered creating_failed (library.new_for_config config)

  -- The function of the same name in cmd/certificates-test-harness/main.go, which has the same lines.
  unfoldable pub build_certificates_client : Result Cluster
  unfolding build_kubernetes_client
  build_certificates_client = build_kubernetes_client

-- Where a configuration comes from: the cluster, or a file in the home directory.
pub data Located {Config : Type 0} (library : HomeLibrary Config) : Config → Type 0 where
  inside : (config : Config) → library.in_cluster_config ≡ found config → Located library config
  at_home :
      (config : Config)
      → library.in_cluster_config ≡ not_in_cluster
      → library.home_dir ≢ ""
      → library.build_config_from_flags "" (library.kube_config_in library.home_dir)
        ≡ replied config
      → Located library config

module _ {Config : Type 0} (library : HomeLibrary Config) where
  config_from-Located :
      (from : InCluster Config) (config : Config)
      → library.in_cluster_config ≡ from
      → config_from library from ≡ ok config
      → Located library config
  config_from-Located (found c) config here h =
      inside config (here ∙ ap (λ x. found x) (ok-injective h))
  config_from-Located not_in_cluster config here h = elim (Bool-cases (library.home_dir == "")) [
    | inl homeless ↦ absurd (ground arith)
    | inr home ↦
        at_home config here (ground (arith, eq_iff library.home_dir ""))
          (answered-eq-replied kubeconfig_failed _ config (ground arith))
  ]
  config_from-Located (failed e) config here h = absurd (ground arith)

  Located-config_from :
      (config : Config)
      → Located library config
      → config_from library library.in_cluster_config ≡ ok config
  Located-config_from config (inside c here) = ap (config_from library) here
  Located-config_from config (at_home c here home built) =
      ap (config_from library) here ∙ ground (arith, built, eq_iff library.home_dir "")

  config_from-NoPanic : (from : InCluster Config) → NoPanic (config_from library from)
  config_from-NoPanic (found config) = tt
  config_from-NoPanic (failed e) = tt
  config_from-NoPanic not_in_cluster = elim (Bool-cases (library.home_dir == "")) [
    | inl homeless ↦ rw homeless tt
    | inr home ↦ rw home (answered-NoPanic _ _)
  ]

  client_or_error-NoPanic :
      (r : Result Config)
      → NoPanic r
      → NoPanic (r >>= λ config. answered creating_failed (library.new_for_config config))
  client_or_error-NoPanic (ok config) fine = answered-NoPanic _ (library.new_for_config config)
  client_or_error-NoPanic (err e) fine = tt
  client_or_error-NoPanic (panic p) fine = fine

-- The harnesses' buildKubernetesClient returns a client exactly when it finds a configuration (that
-- of the cluster it runs in, or outside of one that of the file in the home directory) and a client
-- can be made of it, and then it returns that client; otherwise, as when there is no home directory,
-- it returns an error, and it never panics.
pub home_client-Located :
    {Config : Type 0} (library : HomeLibrary Config)
    → NoPanic (build_kubernetes_client library)
      × ((client : Cluster)
          → (build_kubernetes_client library ≡ ok client) ↔ (
              (config : Config) × Located library config
              × (library.new_for_config config ≡ replied client)))
unfolding build_kubernetes_client
home_client-Located library = (
  client_or_error-NoPanic library (config_from library library.in_cluster_config)
      (config_from-NoPanic library library.in_cluster_config),
  λ client. (
    λ h.
        let (config, computed, made) =
          >>=-eq-ok (config_from library library.in_cluster_config) _ h in
        (
          config,
          config_from-Located library library.in_cluster_config config refl computed,
          answered-eq-replied creating_failed (library.new_for_config config) client made,
        ),
    λ (config, located, made).
        rw (Located-config_from library config located) (ap (answered creating_failed) made),
  ),
)
