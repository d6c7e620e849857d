-- ===== src/ClusterProxy/Proto.antt =====
-- The messages of cluster-proxy/proto/clusterproxy.proto that the server reads and writes. A message
-- inside a message may be missing; its getters then give zero values.
use balticlsc_platform.Common.{String, ℕ, Bool, List, Option, none, some}
use balticlsc_platform.Common.Int.{ℤ, pos}

pub data StatusCode : Type 0 where
  active pending error not_found : StatusCode

pub record ClusterStatusResponse : Type 0 where
  pub status : StatusCode
  pub message : String

pub record XWorkspaceQuota : Type 0 where
  pub cpus : ℤ
  pub memory : ℤ
  pub storage : ℤ
  pub gpus : ℤ

pub record XWorkspace : Type 0 where
  pub batch_id : String
  pub quota : Option XWorkspaceQuota

abbrev pub no_quota : XWorkspaceQuota
no_quota = record { cpus = pos 0; memory = pos 0; storage = pos 0; gpus = pos 0 }

abbrev pub quota_of : XWorkspace → XWorkspaceQuota
quota_of w = elim w.quota [ none ↦ no_quota | some q ↦ q ]

-- `BatchId` is the text of its only field.
pub record Module : Type 0 where
  pub batch_id : String
  pub module_id : String

pub record XEnvironmentVariable : Type 0 where
  pub key : String
  pub value : String

pub data CommProtocol : Type 0 where
  tcp udp : CommProtocol

pub record XPortMapping : Type 0 where
  pub container_port : ℕ
  pub published_port : ℕ
  pub protocol : CommProtocol

pub record XVolumeDescription : Type 0 where
  pub size : ℤ
  pub storage_class : String
  pub mount_path : String

pub record XGpuRequest : Type 0 where
  pub gpu_type : String
  pub quantity : ℤ

pub record XResourceRequest : Type 0 where
  pub cpus : ℤ
  pub memory : ℤ
  pub gpus : Option XGpuRequest

pub record XConfigFileDescription : Type 0 where
  pub contents : String
  pub mount_path : String

pub data NetworkScope : Type 0 where
  scope_workspace scope_cluster scope_public : NetworkScope

pub record XBalticModuleBuild : Type 0 where
  pub batch_id : String
  pub module_id : String
  pub image : String
  pub environment_variables : List XEnvironmentVariable
  pub command : String
  pub command_arguments : List String
  pub port_mappings : List XPortMapping
  pub volumes : List XVolumeDescription
  pub resources : Option XResourceRequest
  pub config_files : List XConfigFileDescription
  pub scope : NetworkScope

abbrev pub no_gpus : XGpuRequest
no_gpus = record { gpu_type = ""; quantity = pos 0 }

abbrev pub resources_of : XBalticModuleBuild → XResourceRequest
resources_of m = elim m.resources [
  | none ↦ record { cpus = pos 0; memory = pos 0; gpus = none }
  | some r ↦ r
]

abbrev pub gpus_of : XBalticModuleBuild → XGpuRequest
gpus_of m = elim (resources_of m).gpus [ none ↦ no_gpus | some g ↦ g ]

pub data NodeStatus : Type 0 where
  ready disk_pressure memory_pressure pid_pressure network_unavailable : NodeStatus

pub record XCapacity : Type 0 where
  pub cpus : ℤ
  pub ephemeral_storage : ℤ
  pub memory : ℤ
  pub gpus : ℤ
  pub pods : ℤ

pub record XResourceQuota : Type 0 where
  pub cpu_request : ℤ
  pub cpu_limit : ℤ
  pub memory_request : ℤ
  pub memory_limit : ℤ
  pub persistent_volume_claims : ℤ
  pub storage_request : ℕ

pub record XClusterNode : Type 0 where
  pub name : String
  pub os : String
  pub os_image : String
  pub architecture : String
  pub kernel_version : String
  pub orchestrator_type : String
  pub orchestrator_version : String
  pub gpu_type : String
  pub capacity : XCapacity
  pub allocatable : XCapacity
  pub unschedulable : Bool
  pub status : NodeStatus

pub data ClusterStatus : Type 0 where
  online unreachable : ClusterStatus

pub record XClusterDescription : Type 0 where
  pub cluster_id : String
  pub project_id : String
  pub project_name : String
  pub nodes : List XClusterNode
  pub status : ClusterStatus
  pub limit : Option XResourceQuota
  pub used_limit : Option XResourceQuota
