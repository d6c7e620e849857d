-- ===== src/Tests/Proxy.antt =====
-- The theorems about the cluster proxy at concrete inputs, over the cluster in memory.
use balticlsc_platform.Common.{ℕ, [], ◌∷◌, none, inr, ok, false, Result, ◌≡◌, refl, show_nat}
use balticlsc_platform.Common.Dict.{insert}
use balticlsc_platform.Common.Int.{pos}
use balticlsc_platform.ClusterProxy.Proto.{XBalticModuleBuild, tcp, scope_cluster, pending}
use balticlsc_platform.ClusterProxy.Kube.{Quantities}
use balticlsc_platform.ClusterProxy.Conf.{
  ClusterProxyConf, Reply, get_ns_name_for_batch, get_volume_name, get_service_name,
}
use balticlsc_platform.ClusterProxy.Run.{
  run_baltic_module, run_steps, create_volumes, create_config, start_module, create_deployment,
  must_parse, run_reply, volume_claim, add_config_files, deployment_for,
}
use balticlsc_platform.ClusterProxy.Dispose.{
  dispose_baltic_module, dispose_in, dispose_volumes, dispose_source, note_error,
}
use balticlsc_platform.ClusterProxy.Cluster.{claim, config, same}
use balticlsc_platform.ClusterProxy.Restore.{module_of, dispose-run_restores}
use balticlsc_platform.Tests.Memory.{World, exists, memory, memory-IsCluster}

abbrev pub quantities : Quantities ℕ
quantities = record {
  parse = λ text. inr 1;
  new_quantity = λ z. 0;
  as_int64 = λ q. pos q;
  value = λ q. pos q;
  zero_quantity = 0;
}

abbrev pub proxy : ClusterProxyConf
proxy = record { cluster_id = "c"; project_id = "p"; project_name = "baltic"; debug = false }

abbrev pub input : XBalticModuleBuild
input = record {
  batch_id = "b1";
  module_id = "m1";
  image = "image";
  environment_variables = [];
  command = "";
  command_arguments = [];
  port_mappings = record { container_port = 80; published_port = 80; protocol = tcp } ∷ [];
  volumes = record { size = pos 2; storage_class = ""; mount_path = "/data" } ∷ [];
  resources = none;
  config_files = record { contents = "x"; mount_path = "/etc/x" } ∷ [];
  scope = scope_cluster;
}

abbrev pub before : World
before = record { there = λ r. same (claim "baltic-b1" "other") r; volumes = λ _ _. [] }

abbrev ran_result : Result Reply × World
ran_result = run_baltic_module quantities memory proxy input before

started : ran_result ≡ (ok (record { status = pending; message = "pending" }, none), ran_result.1)
unfolding run_baltic_module run_steps create_volumes create_config start_module create_deployment
    must_parse run_reply get_ns_name_for_batch volume_claim get_volume_name show_nat
    add_config_files insert
started = refl

disposed : (dispose_baltic_module memory proxy (module_of input) ran_result.1).0.1 ≡ none
unfolding run_baltic_module run_steps create_volumes create_config start_module create_deployment
    must_parse run_reply get_ns_name_for_batch volume_claim get_volume_name show_nat
    add_config_files insert dispose_baltic_module dispose_in dispose_volumes dispose_source
    note_error deployment_for get_service_name
disposed = refl

dispose-run_restores_example :
    exists
      (dispose_baltic_module memory proxy (module_of input) ran_result.1).1
      (config "baltic-b1" "m1")
    ≡ exists before (config "baltic-b1" "m1")
dispose-run_restores_example =
    dispose-run_restores quantities memory exists memory-IsCluster proxy input before ran_result.1
      (record { status = pending; message = "pending" }) started disposed (config "baltic-b1" "m1")
