-- ===== src/Tests/Harness.antt =====
-- Runs of the test harnesses, and their theorems at them.
use nginx_k8s_loadbalancer.Base.{String, ◌≡◌, refl}
use nginx_k8s_loadbalancer.Result.{panic, replied}
use nginx_k8s_loadbalancer.KubernetesClient.{not_in_cluster}
use nginx_k8s_loadbalancer.Harness.Client.{HomeLibrary}
use nginx_k8s_loadbalancer.Harness.Pems.{sample_pems}
use nginx_k8s_loadbalancer.Harness.Tls.{build_config_map, build_all, build_all-panics}
use nginx_k8s_loadbalancer.Tests.Config.{starting_cluster}
use nginx_k8s_loadbalancer.Tests.Fixtures.{sample_crypto}

-- Outside of a cluster, with a home directory: the configuration is the path of the file.
abbrev home : HomeLibrary String
home = record {
  in_cluster_config = not_in_cluster;
  not_in_cluster_message = "not in a cluster";
  build_config_from_flags = λ url path. replied path;
  new_for_config = λ config. replied starting_cluster;
  home_dir = "/root";
  kube_config_in = λ dir. "/root/.kube/config";
}

-- The map, in the order in which it was built.
build_all-panics_example :
    (p : String) × (build_all sample_crypto (build_config_map sample_pems) ≡ panic p)
build_all-panics_example =
    build_all-panics sample_crypto sample_pems (build_config_map sample_pems) refl
      (λ entry member. member)
