-- ===== src/Tests/Program.antt =====
-- A run of the program's start, and its theorem at it.
use nginx_k8s_loadbalancer.Base.{String, ◌↔◌, ◌≡◌, ◌⊎◌, none, List, [], ◌∷◌}
use nginx_k8s_loadbalancer.Result.{ok, replied}
use nginx_k8s_loadbalancer.Context.{waiting, exited}
use nginx_k8s_loadbalancer.Core.{Event}
use nginx_k8s_loadbalancer.WorkQueue.{Ref}
use nginx_k8s_loadbalancer.Exec.Rules.{NoPanic}
use nginx_k8s_loadbalancer.Kubernetes.{Cluster}
use nginx_k8s_loadbalancer.KubernetesClient.{
  ClientLibrary, not_in_cluster, Located, build_kubernetes_client, build_kubernetes_client-Located,
}
use nginx_k8s_loadbalancer.Main.{Program, IsStarted, main, main-IsStarted}
use nginx_k8s_loadbalancer.Tests.Config.{
  starting_cluster, first_process, early_callbacks, early-KnownAfter,
}
use nginx_k8s_loadbalancer.Tests.Observer.{recording, sample_watcher}

abbrev pub blank : Program (List (Ref Event))
blank = record {
  process = first_process;
  synchronizer_queue = none;
  handler_queue = none;
  watcher = sample_watcher;
  probes = none;
}

-- Outside of a cluster, with no KUBECONFIG: the configuration is the path of the file.
abbrev pub sample_library : ClientLibrary String
sample_library = record {
  in_cluster_config = not_in_cluster;
  build_config_from_flags = λ url path. replied path;
  new_for_config = λ config. replied starting_cluster;
  getenv = λ variable. "";
  recommended_home_file = "/root/.kube/config";
}

build_kubernetes_client-Located_example :
    NoPanic (build_kubernetes_client sample_library)
    × ((client : Cluster)
        → (build_kubernetes_client sample_library ≡ ok client) ↔ (
            (config : String) × Located sample_library config
            × (sample_library.new_for_config config ≡ replied client)))
build_kubernetes_client-Located_example = build_kubernetes_client-Located sample_library

main-IsStarted_example :
    (((main sample_library recording early_callbacks blank).0 ≡ waiting)
      × IsStarted
          ("other" ∷ [])
          blank.watcher.handler
          (main sample_library recording early_callbacks blank).1)
    ⊎ ((main sample_library recording early_callbacks blank).0 ≡ exited 1)
main-IsStarted_example =
    main-IsStarted sample_library recording early_callbacks ("other" ∷ []) blank early-KnownAfter
