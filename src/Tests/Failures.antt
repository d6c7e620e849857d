-- ===== src/Tests/Failures.antt =====
-- A run that fails, and the description of a cluster, at concrete inputs.
use balticlsc_platform.Common.{
  String, ℕ, true, List, [], ◌∷◌, map, none, some, ok, ◌≡◌, refl, Result, show_nat,
}
use balticlsc_platform.Common.Dict
use balticlsc_platform.Common.Dict.{Dict, lookup, insert}
use balticlsc_platform.ClusterProxy.Proto.{XClusterNode, XClusterDescription}
use balticlsc_platform.ClusterProxy.Kube.{Kube, Volume, VolumeMount}
use balticlsc_platform.ClusterProxy.Conf.{get_ns_name_for_batch, get_volume_name, get_service_name}
use balticlsc_platform.ClusterProxy.Workspace.{failure}
use balticlsc_platform.ClusterProxy.Run.{
  run_baltic_module, create_volumes, create_config, add_config_files, service_for, volume_claim,
}
use balticlsc_platform.ClusterProxy.Dispose.{dispose_baltic_module}
use balticlsc_platform.ClusterProxy.Cluster.{claim, service, same, listed}
use balticlsc_platform.ClusterProxy.Created.{volume_refs}
use balticlsc_platform.ClusterProxy.FailedRuns.{dispose-run_leaks}
use balticlsc_platform.ClusterProxy.Description.{
  format_quotas, project_quotas, get_cluster_description,
}
use balticlsc_platform.ClusterProxy.Inventory.{get_cluster_description-lists}
use balticlsc_platform.Tests.Memory.{World, exists, memory, memory-IsCluster}
use balticlsc_platform.Tests.Proxy.{quantities, proxy, input}
use balticlsc_platform.Tests.Reports.{node, the_module}
use balticlsc_platform.Tests.Cluster.{rancher_over, no_quotas}

-- Another service has the name of the module.
abbrev taken : World
taken = record { there = λ r. same (service "baltic-b1" "m1") r; volumes = λ _ _. [] }

abbrev ns : String
ns = get_ns_name_for_batch proxy "b1"

abbrev mounts : List VolumeMount
mounts = record { name = "m1-0"; mount_path = "/data"; sub_path = "" } ∷ []

abbrev claims : List Volume
claims = record { name = "m1-0"; persistent_volume_claim = some "m1-0"; config_map = none } ∷ []

abbrev volumes : List Volume
volumes =
    record { name = "m1-0"; persistent_volume_claim = some "m1-0"; config_map = none }
    ∷ record {
      name = "m1";
      persistent_volume_claim = none;
      config_map = some (record { default_mode = 256; name = "m1" });
    }
    ∷ []

abbrev first : Result (List VolumeMount × List Volume) × World
first = create_volumes quantities memory ns "m1" 0 input.volumes [] [] taken

abbrev second : Result (List Volume) × World
second =
    create_config quantities memory ns "m1"
      (add_config_files "m1" 0 input.config_files Dict.empty mounts).0 claims first.1

created : first ≡ (ok (mounts, claims), first.1)
unfolding create_volumes volume_claim get_volume_name show_nat get_ns_name_for_batch
created = refl

configured : second ≡ (ok volumes, second.1)
unfolding create_config add_config_files insert show_nat get_ns_name_for_batch create_volumes
    volume_claim get_volume_name
configured = refl

refused : (memory.create_service ns (service_for ns input) second.1).0 ≡ some "exists"
unfolding create_config add_config_files insert show_nat get_ns_name_for_batch create_volumes
    volume_claim get_volume_name service_for get_service_name
refused = refl

there : listed (claim ns "m1-0") (volume_refs ns volumes) ≡ true
unfolding get_ns_name_for_batch
there = refl

dispose-run_leaks_example :
    ((run_baltic_module quantities memory proxy input taken).0 ≡ ok (failure "exists"))
    × (exists
          (dispose_baltic_module memory proxy the_module
            (run_baltic_module quantities memory proxy input taken).1).1
          (claim ns "m1-0")
        ≡ true)
dispose-run_leaks_example =
    dispose-run_leaks quantities memory exists memory-IsCluster proxy input taken first.1 second.1
      (mounts, claims) volumes "exists" (claim ns "m1-0") refl created configured refused there

abbrev listing : Kube ℕ World
listing = record memory {
  list_nodes = λ w. ((node ∷ [], none), w);
  get_node = λ _ w. ((node, some "gone"), w);
}

unanswered :
    project_quotas quantities listing (rancher_over World) proxy taken
    ≡ (ok (some no_quotas), taken)
unfolding project_quotas
unanswered = refl

get_cluster_description-lists_example :
    (d : XClusterDescription) × ((get_cluster_description quantities listing
        (rancher_over World)
        proxy
        taken).0
      ≡ ok d)
    × (map (λ (n : XClusterNode). n.name) d.nodes ≡ "n1" ∷ [])
    × (d.limit ≡ some (format_quotas quantities no_quotas.project))
    × (d.used_limit ≡ some (format_quotas quantities no_quotas.used))
get_cluster_description-lists_example =
    get_cluster_description-lists quantities listing (rancher_over World) proxy taken taken
      (some no_quotas) unanswered
