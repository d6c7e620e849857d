-- ===== src/Tests/Reports.antt =====
-- The theorems about the reports of the cluster proxy at concrete inputs.
use balticlsc_platform.Common.{
  String, ℕ, ◌<◌, ◌*◌, ◌^◌, false, List, [], ◌∷◌, Option, none, some, if◌then◌else◌, ◌==◌, any, ◌≡◌,
  ◌≢◌, ◌⊎◌, ◌↔◌, refl,
}
use balticlsc_platform.Common.Dict
use balticlsc_platform.Common.Dict.{Dict, lookup, insert}
use balticlsc_platform.Common.Int.{pos}
use balticlsc_platform.ClusterProxy.Proto.{Module, active, pending, error}
use balticlsc_platform.ClusterProxy.Kube.{Kube, Node, NodeCondition, DeploymentCondition}
use balticlsc_platform.ClusterProxy.Conf.{get_ns_name_for_batch}
use balticlsc_platform.ClusterProxy.Workspace.{
  prepare_workspace, check_workspace_status, purge_workspace,
}
use balticlsc_platform.ClusterProxy.Run.{claim_bytes}
use balticlsc_platform.ClusterProxy.Dispose.{check_baltic_module_status, dispose_baltic_module}
use balticlsc_platform.ClusterProxy.Restore.{module_of}
use balticlsc_platform.ClusterProxy.Status.{
  OneInvalid, conditions_of, workspace_report, check_workspace_status-found,
  check_workspace_status-error,
}
use balticlsc_platform.ClusterProxy.Reports.{
  is_available, IsReported, check_baltic_module_status-last, check_baltic_module_status-pending,
  handlers-IsReported,
}
use balticlsc_platform.ClusterProxy.Sizes.{claim_bytes-exact}
use balticlsc_platform.ClusterProxy.Description.{describe_node}
use balticlsc_platform.ClusterProxy.Inventory.{status_named, describe_node-status}
use balticlsc_platform.Tests.Memory.{World, memory}
use balticlsc_platform.Tests.Proxy.{quantities, proxy, input, before}

abbrev exceeded : String → Option (List (Dict String))
exceeded text =
    some ((("Type", "ResourceQuotaValidated") ∷ ("Status", "False") ∷ ("Message", text) ∷ []) ∷ [])

-- A cluster whose namespaces exceed their quota and whose deployments are available.
abbrev condition : String → DeploymentCondition
condition status = record { condition_type = "Available"; status = status; message = "m" }

abbrev busy : Kube ℕ World
busy = record memory {
  get_namespace = λ name w. (
    (
      record { name = name; annotations = ("cattle.io/status", "cpu") ∷ []; phase = "Active" },
      none,
    ),
    w,
  );
  get_deployment = λ ns name w.
      let got = memory.get_deployment ns name w in
      ((record got.0.0 { conditions = condition "False" ∷ condition "True" ∷ [] }, none), w);
}

check_workspace_status-found_example :
    (check_workspace_status proxy busy exceeded "b1" before).0 ≡ (
      workspace_report exceeded (busy.get_namespace (get_ns_name_for_batch proxy "b1") before).0.0,
      none,
    )
check_workspace_status-found_example =
    check_workspace_status-found busy proxy exceeded "b1" before refl

check_workspace_status-error_example :
    ((check_workspace_status proxy busy exceeded "b1" before).0.0.status ≡ error) ↔ (
      ((busy.get_namespace (get_ns_name_for_batch proxy "b1") before).0.1 ≢ none)
      ⊎ (((busy.get_namespace (get_ns_name_for_batch proxy "b1") before).0.0.phase ≡ "Active")
          × OneInvalid (
              conditions_of exceeded
                (busy.get_namespace (get_ns_name_for_batch proxy "b1") before).0.0)))
check_workspace_status-error_example = check_workspace_status-error busy proxy exceeded "b1" before

abbrev pub the_module : Module
the_module = module_of input

check_baltic_module_status-last_example :
    (check_baltic_module_status proxy busy the_module before).0
    ≡ (record { status = if "True" == "False" then error else active; message = "m" }, none)
check_baltic_module_status-last_example =
    check_baltic_module_status-last busy proxy the_module before (condition "False" ∷ []) []
      (condition "True") refl refl refl refl

check_baltic_module_status-pending_example :
    ((check_baltic_module_status proxy memory the_module before).0
      ≡ (record { status = pending; message = "pending" }, none))
    ↔ (((memory.get_deployment (get_ns_name_for_batch proxy "b1") "m1" before).0.1 ≡ none)
        × (any is_available
              (memory.get_deployment (get_ns_name_for_batch proxy "b1") "m1" before).0.0.conditions
            ≡ false))
check_baltic_module_status-pending_example =
    check_baltic_module_status-pending memory proxy the_module before

handlers-IsReported_example :
    IsReported (prepare_workspace proxy memory (record { batch_id = "b1"; quota = none }) before).0
    × IsReported (check_workspace_status proxy memory exceeded "b1" before).0
    × IsReported (purge_workspace proxy memory "b1" before).0
    × IsReported (check_baltic_module_status proxy memory the_module before).0
    × IsReported (dispose_baltic_module memory proxy the_module before).0
handlers-IsReported_example =
    handlers-IsReported memory proxy exceeded (record { batch_id = "b1"; quota = none }) the_module
      before

claim_bytes-exact_example :
    (claim_bytes (record { size = pos 2; storage_class = ""; mount_path = "/data" })
      ≡ pos (2 * 1024))
    ↔ (2 < 2 ^ 21)
claim_bytes-exact_example =
    claim_bytes-exact (record { size = pos 2; storage_class = ""; mount_path = "/data" }) 2 refl

abbrev node_condition : String → String → NodeCondition
node_condition t s = record { condition_type = t; status = s }

abbrev pub node : Node ℕ
node = record {
  name = "n1";
  labels = [];
  kernel_version = "";
  os_image = "";
  kubelet_version = "";
  unschedulable = false;
  capacity = ("memory", 3145728) ∷ [];
  allocatable = [];
  conditions = node_condition "MemoryPressure" "True" ∷ node_condition "Ready" "True" ∷ [];
}

describe_node-status_example : (describe_node quantities node node).status ≡ status_named "Ready"
describe_node-status_example =
    describe_node-status quantities node node (node_condition "MemoryPressure" "True" ∷ []) []
      (node_condition "Ready" "True") refl refl refl

stored : Dict.lookup "memory" node.capacity ≡ some 3145728
unfolding lookup
stored = refl
