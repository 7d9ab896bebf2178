-- ===== src/Kubernetes.antt =====
-- What the program reads of the Kubernetes API and of client-go, which are not part of the
-- repository: the fields of the objects, the objects that an informer hands to its callbacks, and
-- the answers of the API server as a record of functions.
use nginx_k8s_loadbalancer.Base.{String, Bool, Option, List}
use nginx_k8s_loadbalancer.Result.{Error, Reply}
use nginx_k8s_loadbalancer.GoMap.{GoMap}
use nginx_k8s_loadbalancer.Core.{Service, SecretBytes}

-- corev1.Secret: `Name` and `Data`
pub record Secret : Type 0 where
  pub name : String
  pub contents : GoMap SecretBytes

-- corev1.ConfigMap: `Name`, `Namespace` and `Data`
pub record ConfigMap : Type 0 where
  pub name : String
  pub namespace : String
  pub contents : GoMap String

-- v1.NodeAddress: its type ("InternalIP", "ExternalIP", …) and the address
pub record NodeAddress : Type 0 where
  pub address_type : String
  pub address : String

-- v1.Node: `Labels` and `Status.Addresses`
pub record Node : Type 0 where
  pub labels : GoMap String
  pub addresses : List NodeAddress

-- The value of type interface{} that a callback receives. A deletion that the informer learnt of
-- too late arrives as a cache.DeletedFinalStateUnknown, which is no pointer to an object.
pub data Object : Type 0 where
  service : Service → Object
  secret : Secret → Object
  config_map : ConfigMap → Object
  deleted_final_state_unknown : String → Object
  other : Object

-- The resource kinds that the program watches.
pub data Resource : Type 0 where
  services secrets config_maps : Resource

-- A shared informer: the namespace and the resource that it watches.
pub record Informer : Type 0 where
  pub namespace : String
  pub resource : Resource

-- The API server and client-go at one moment.
pub record Cluster : Type 0 where
  pub get_config_map : String → String → Reply ConfigMap
  pub list_nodes : Reply (List Node)
  pub add_event_handler : Informer → Option Error
  pub wait_for_cache_sync : Informer → Bool
