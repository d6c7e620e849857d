-- ===== src/ClusterProxy/Commands.antt =====
-- cluster-proxy/client/main.go: the command line client. An error here is `log.Fatalf`, which ends
-- the process with the message; printing is left out.
pub mod Total
use balticlsc_platform.Common.{
  String, ◌<>◌, ℕ, List, [], ◌∷◌, Option, none, some, Error, Result, ok, err, panicked, Exec, ◌>>=◌,
  pure, panic, or_fatal,
}
use balticlsc_platform.Common.Dict
use balticlsc_platform.Common.Dict.{Dict}
use balticlsc_platform.Common.Int.{pos}
use balticlsc_platform.ClusterProxy.Proto.{
  XWorkspace, Module, XBalticModuleBuild, XClusterDescription, tcp, scope_cluster,
}
use balticlsc_platform.ClusterProxy.Service.{ClusterProxyService}

abbrev pub bid : String
bid = "123e4567-e89b-12d3-a456-426655440000"

abbrev pub mid : String
mid = "b-344223ab-3344-a223-f223-fff223423553"

abbrev pub workspace : XWorkspace
workspace = record {
  batch_id = bid;
  quota = some (record { cpus = pos 1000; memory = pos 256; storage = pos 10; gpus = pos 1 });
}

abbrev pub baltic_module : XBalticModuleBuild
baltic_module = record {
  batch_id = bid;
  module_id = mid;
  image = "busybox";
  environment_variables =
      record { key = "ModuleManagerPort"; value = "7301" }
      ∷ record { key = "BatchManagerUrl"; value = "https://host.docker.internal:7001" }
      ∷ [];
  command = "/bin/sleep";
  command_arguments = "300" ∷ [];
  port_mappings = record { container_port = 1234; published_port = 8888; protocol = tcp } ∷ [];
  volumes = record { size = pos 1; storage_class = ""; mount_path = "/storage" } ∷ [];
  resources = some (record {
    cpus = pos 100;
    memory = pos 128;
    gpus = some (record { gpu_type = "nvidia-gtx-1080ti"; quantity = pos 0 });
  });
  config_files =
      record { contents = "Lorem Ipsum\nSome more data..."; mount_path = "/conffile1" }
      ∷ record { contents = "Lorem Ipsum2\nSome more data2..."; mount_path = "/conffile2" }
      ∷ [];
  scope = scope_cluster;
}

abbrev pub module_message : Module
module_message = record { batch_id = bid; module_id = mid }

-- How the process ends.
pub data Ending : Type 0 where
  returned : Ending
  exited : ℕ → Ending

-- A command returns an error or none.
abbrev pub Command : Type 0 → Type 0
Command W = Exec W (Option Error)

-- A call whose error is fatal and whose response is printed.
abbrev pub printing : {A W : Type 0} → String → Exec W A → Command W
printing failed call = do r ← or_fatal failed call; pure none

module _ {W : Type 0} (service : ClusterProxyService W) where
  unfoldable pub prepare_workspace : Command W
  prepare_workspace = printing "PrepareWorkspace failed: " (service.prepare_workspace workspace)

  unfoldable pub check_workspace_status : Command W
  check_workspace_status =
      printing "checkWorkspaceStatus failed: " (service.check_workspace_status bid)

  unfoldable pub purge_workspace : Command W
  purge_workspace = printing "purgeWorkspace failed: " (service.purge_workspace bid)

  unfoldable pub run_baltic_module : Command W
  run_baltic_module = printing "RunBalticModule failed: " (service.run_baltic_module baltic_module)

  unfoldable pub check_baltic_module_status : Command W
  check_baltic_module_status =
      printing "checkBalticModuleStatus failed: "
        (service.check_baltic_module_status module_message)

  unfoldable pub dispose_baltic_module : Command W
  dispose_baltic_module =
      printing "disposeBalticModule failed: " (service.dispose_baltic_module module_message)

  -- `marshal_indent` is the error of `json.MarshalIndent`, if any.
  unfoldable pub get_cluster_description : (XClusterDescription → Option Error) → Command W
  get_cluster_description marshal_indent = do
    d ← or_fatal "getClusterDescription failed: " service.get_cluster_description
    pure (marshal_indent d)

-- What a command does with the connected client.
abbrev pub Program : Type 0 → Type 0
Program W = ClusterProxyService W → Command W

module _ {W : Type 0} (marshal_indent : XClusterDescription → Option Error) where
  unfoldable pub commands : Dict (Program W)
  unfolding prepare_workspace check_workspace_status purge_workspace run_baltic_module
      check_baltic_module_status dispose_baltic_module get_cluster_description
  commands =
      ("PrepareWorkspace", prepare_workspace)
      ∷ ("CheckWorkspaceStatus", check_workspace_status)
      ∷ ("PurgeWorkspace", purge_workspace)
      ∷ ("RunBalticModule", run_baltic_module)
      ∷ ("CheckBalticModuleStatus", check_baltic_module_status)
      ∷ ("DisposeBalticModule", dispose_baltic_module)
      ∷ ("GetClusterDescription", λ service. get_cluster_description service marshal_indent)
      ∷ []

  -- `grpc.Dial` connects to an address, and blocks until it has.
  module _ (dial : String → Exec W (ClusterProxyService W)) where
    -- The error of the command is only logged.
    unfoldable pub run_program : String → Program W → Exec W Ending
    run_program addr command = do
      service ← or_fatal "did not connect: " (dial addr)
      e ← command service
      pure returned

    -- The arguments with the name of the program first; the address and the command are read without
    -- a test of their number.
    unfoldable pub main : List String → Exec W Ending
    unfolding run_program commands
    main [] = panic "index out of range"
    main (program ∷ []) = pure (exited 1)
    main (program ∷ addr ∷ []) = panic "index out of range"
    main (program ∷ addr ∷ cmd ∷ more) = elim (Dict.lookup cmd commands) [
      | none ↦ pure (exited 1)
      | some command ↦ run_program addr command
    ]
