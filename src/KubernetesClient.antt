-- ===== src/KubernetesClient.antt =====
-- buildKubernetesClient of cmd/nginx-loadbalancer-kubernetes/main.go. client-go's functions, the
-- environment and the path of the default kubeconfig are parameters.
use nginx_k8s_loadbalancer.Base.{
  String, ◌≡◌, ◌≢◌, refl, sym, ap, ◌∙◌, ◌↔◌, inl, inr, ◌==◌, if◌then◌else◌, eq_iff, arith,
  Bool-cases,
}
use nginx_k8s_loadbalancer.Text.{◌⧺◌}
use nginx_k8s_loadbalancer.Result.{
  Error, Result, ok, err, ◌>>=◌, Reply, replied, Reply-cases, answered, answered-eq-replied,
  ok-injective, >>=-eq-ok,
}
use nginx_k8s_loadbalancer.Exec.Rules.{NoPanic, answered-NoPanic}
use nginx_k8s_loadbalancer.Kubernetes.{Cluster}

-- What rest.InClusterConfig returns: a configuration, the error ErrNotInCluster, or another error.
pub data InCluster (Config : Type 0) : Type 0 where
  found : Config → InCluster Config
  not_in_cluster : InCluster Config
  failed : Error → InCluster Config

pub record ClientLibrary (Config : Type 0) : Type 0 where
  pub in_cluster_config : InCluster Config
  -- clientcmd.BuildConfigFromFlags, of a URL and a path
  pub build_config_from_flags : String → String → Reply Config
  pub new_for_config : Config → Reply Cluster
  -- os.Getenv, empty for a variable that is not set
  pub getenv : String → String
  pub recommended_home_file : String

abbrev pub config_failed : Error → Error
config_failed e = "could not get Kubernetes config: " ⧺ e

abbrev pub in_cluster_failed : Error → Error
in_cluster_failed e = "error occurred getting the in-cluster config: " ⧺ e

abbrev pub new_client_failed : Error → Error
new_client_failed e = "error occurred creating a Kubernetes client: " ⧺ e

module _ {Config : Type 0} (library : ClientLibrary Config) where
  abbrev pub kubeconfig_path : String
  kubeconfig_path =
      if library.getenv "KUBECONFIG" == ""
      then library.recommended_home_file
      else library.getenv "KUBECONFIG"

  abbrev pub config_from : InCluster Config → Result Config
  config_from (found config) = ok config
  config_from not_in_cluster =
      answered config_failed (library.build_config_from_flags "" kubeconfig_path)
  config_from (failed e) = err (in_cluster_failed e)

  unfoldable pub build_kubernetes_client : Result Cluster
  build_kubernetes_client = do
    config ← config_from library.in_cluster_config
    answered new_client_failed (library.new_for_config config)

-- Where a configuration comes from: the cluster that the program runs in; or, outside of one, the file
-- that KUBECONFIG names, or the default file if it names none.
pub data Located {Config : Type 0} (library : ClientLibrary Config) : Config → Type 0 where
  inside : (config : Config) → library.in_cluster_config ≡ found config → Located library config
  named :
      (config : Config)
      → library.in_cluster_config ≡ not_in_cluster
      → library.getenv "KUBECONFIG" ≢ ""
      → library.build_config_from_flags "" (library.getenv "KUBECONFIG") ≡ replied config
      → Located library config
  default :
      (config : Config)
      → library.in_cluster_config ≡ not_in_cluster
      → library.getenv "KUBECONFIG" ≡ ""
      → library.build_config_from_flags "" library.recommended_home_file ≡ replied config
      → Located library config

module _ {Config : Type 0} (library : ClientLibrary Config) where
  path_named :
      library.getenv "KUBECONFIG" ≢ "" → kubeconfig_path library ≡ library.getenv "KUBECONFIG"
  path_named set = ground (arith, eq_iff (library.getenv "KUBECONFIG") "")

  path_default :
      library.getenv "KUBECONFIG" ≡ "" → kubeconfig_path library ≡ library.recommended_home_file
  path_default unset = ground (arith, eq_iff (library.getenv "KUBECONFIG") "")

  -- The answer for a path, at another spelling of it.
  at_path :
      (path other : String) (config : Config)
      → path ≡ other
      → answered config_failed (library.build_config_from_flags "" path) ≡ ok config
      → library.build_config_from_flags "" other ≡ replied config
  at_path path other config same h =
      ap (λ p. library.build_config_from_flags "" p) (sym same)
      ∙ answered-eq-replied config_failed _ config h

  config_from-Located :
      (from : InCluster Config) (config : Config)
      → library.in_cluster_config ≡ from
      → config_from library from ≡ ok config
      → Located library config
  config_from-Located (found c) config here h =
      inside config (here ∙ ap (λ x. found x) (ok-injective h))
  config_from-Located not_in_cluster config here h =
      elim (Bool-cases (library.getenv "KUBECONFIG" == "")) [
        | inl same ↦
            let unset : library.getenv "KUBECONFIG" ≡ "" =
              (eq_iff (library.getenv "KUBECONFIG") "").0 same in
            default config here unset (at_path _ _ config (path_default unset) h)
        | inr differ ↦
            let set : library.getenv "KUBECONFIG" ≢ "" =
              ground (arith, eq_iff (library.getenv "KUBECONFIG") "") in
            named config here set (at_path _ _ config (path_named set) h)
      ]
  config_from-Located (failed e) config here h = absurd (ground arith)

  Located-config_from :
      (config : Config)
      → Located library config
      → config_from library library.in_cluster_config ≡ ok config
  Located-config_from config (inside c here) = ap (config_from library) here
  Located-config_from config (named c here set built) =
      ap (config_from library) here
      ∙ ap (λ p. answered config_failed (library.build_config_from_flags "" p)) (path_named set)
      ∙ ap (answered config_failed) built
  Located-config_from config (default c here unset built) =
      ap (config_from library) here
      ∙ ap (λ p. answered config_failed (library.build_config_from_flags "" p)) (path_default unset)
      ∙ ap (answered config_failed) built

-- buildKubernetesClient returns a client exactly when it finds a configuration (that of the cluster
-- it runs in, or outside of one that of the file that KUBECONFIG names, or of the default file if it
-- names none) and a client can be made of it, and then it returns that client; otherwise it returns
-- an error, and it never panics.
pub build_kubernetes_client-Located :
    {Config : Type 0} (library : ClientLibrary Config)
    → NoPanic (build_kubernetes_client library)
      × ((client : Cluster)
          → (build_kubernetes_client library ≡ ok client) ↔ (
              (config : Config) × Located library config
              × (library.new_for_config config ≡ replied client)))
unfolding build_kubernetes_client
build_kubernetes_client-Located library = (
  build-NoPanic library library.in_cluster_config,
  λ client. (
    λ h.
        let (config, computed, made) =
          >>=-eq-ok (config_from library library.in_cluster_config) _ h in
        (
          config,
          config_from-Located library library.in_cluster_config config refl computed,
          answered-eq-replied new_client_failed (library.new_for_config config) client made,
        ),
    λ (config, located, made).
        rw (Located-config_from library config located) (ap (answered new_client_failed) made),
  ),
)
  where
    build-NoPanic :
        {Config : Type 0} (library : ClientLibrary Config) (from : InCluster Config)
        → NoPanic (
            config_from library from >>= λ config.
            answered new_client_failed (library.new_for_config config))
    build-NoPanic library (found config) = answered-NoPanic _ (library.new_for_config config)
    build-NoPanic library (failed e) = tt
    build-NoPanic library not_in_cluster =
        elim (Reply-cases (library.build_config_from_flags "" (kubeconfig_path library))) [
          | inl (config, built) ↦ rw built (answered-NoPanic _ (library.new_for_config config))
          | inr (e, refuse) ↦ rw refuse tt
        ]
