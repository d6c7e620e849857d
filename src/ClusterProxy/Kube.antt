-- ===== src/ClusterProxy/Kube.antt =====
-- The Kubernetes API, as far as cluster-proxy/server/main.go uses it: the objects it sends and reads,
-- and the client's calls over the state `W` of the cluster. `Q` is the type of resource quantities.
use balticlsc_platform.Common.{String, ℕ, Bool, List, Option, Error, ◌⊎◌}
use balticlsc_platform.Common.Dict.{Dict}
use balticlsc_platform.Common.Int.{ℤ}
use balticlsc_platform.ClusterProxy.Proto.{CommProtocol}

-- `phase` is the status phase.
pub record Namespace : Type 0 where
  pub name : String
  pub annotations : Dict String
  pub phase : String

pub record PersistentVolumeClaim (Q : Type 0) : Type 0 where
  pub namespace : String
  pub name : String
  pub access_modes : List String
  pub requests : Dict Q
  pub volume_mode : String
  pub storage_class_name : Option String

pub record ConfigMap : Type 0 where
  pub namespace : String
  pub name : String
  pub entries : Dict String

pub record ServicePort : Type 0 where
  pub port : ℤ
  pub protocol : CommProtocol
  pub name : String

pub record Service : Type 0 where
  pub namespace : String
  pub name : String
  pub ports : List ServicePort
  pub selector : Dict String

-- A config map's name with the default mode.
pub record ConfigMapSource : Type 0 where
  pub default_mode : ℕ
  pub name : String

pub record Volume : Type 0 where
  pub name : String
  pub persistent_volume_claim : Option String
  pub config_map : Option ConfigMapSource

pub record VolumeMount : Type 0 where
  pub name : String
  pub mount_path : String
  pub sub_path : String

pub record ContainerPort : Type 0 where
  pub container_port : ℤ
  pub protocol : CommProtocol

pub record EnvVar : Type 0 where
  pub name : String
  pub value : String

pub record PodContainer (Q : Type 0) : Type 0 where
  pub name : String
  pub image : String
  pub ports : List ContainerPort
  pub env : List EnvVar
  pub args : List String
  pub command : List String
  pub volume_mounts : List VolumeMount
  pub limits : Dict Q
  pub requests : Dict Q

-- One required match expression of a node affinity.
pub record NodeSelectorRequirement : Type 0 where
  pub key : String
  pub operator : String
  pub values : List String

pub record DeploymentCondition : Type 0 where
  pub condition_type : String
  pub status : String
  pub message : String

pub record Deployment (Q : Type 0) : Type 0 where
  pub namespace : String
  pub name : String
  pub labels : Dict String
  pub replicas : ℕ
  pub match_labels : Dict String
  pub template_labels : Dict String
  pub affinity : Option NodeSelectorRequirement
  pub containers : List (PodContainer Q)
  pub volumes : List Volume
  pub conditions : List DeploymentCondition

pub record NodeCondition : Type 0 where
  pub condition_type : String
  pub status : String

pub record Node (Q : Type 0) : Type 0 where
  pub name : String
  pub labels : Dict String
  pub kernel_version : String
  pub os_image : String
  pub kubelet_version : String
  pub unschedulable : Bool
  pub capacity : Dict Q
  pub allocatable : Dict Q
  pub conditions : List NodeCondition

-- The package `resource`: `as_int64` is 0 where the quantity does not fit, `value` rounds up.
pub record Quantities (Q : Type 0) : Type 0 where
  pub parse : String → Error ⊎ Q
  pub new_quantity : ℤ → Q
  pub as_int64 : Q → ℤ
  pub value : Q → ℤ
  pub zero_quantity : Q

-- Calls that change one object give an error or none; calls that return an object return one beside
-- the error too. The first text of a namespaced call is the namespace.
pub record Kube (Q W : Type 0) : Type 0 where
  pub create_namespace : Namespace → W → (Namespace × Option Error) × W
  pub get_namespace : String → W → (Namespace × Option Error) × W
  pub delete_namespace : String → W → Option Error × W
  pub create_pvc : String → PersistentVolumeClaim Q → W → Option Error × W
  pub create_config_map : String → ConfigMap → W → Option Error × W
  pub create_service : String → Service → W → Option Error × W
  pub create_deployment : String → Deployment Q → W → Option Error × W
  pub get_deployment : String → String → W → (Deployment Q × Option Error) × W
  pub delete_deployment : String → String → W → Option Error × W
  pub delete_service : String → String → W → Option Error × W
  pub delete_pvc : String → String → W → Option Error × W
  pub delete_config_map : String → String → W → Option Error × W
  pub list_nodes : W → (List (Node Q) × Option Error) × W
  pub get_node : String → W → (Node Q × Option Error) × W
