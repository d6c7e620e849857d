-- ===== src/ClusterProxy/Service.antt =====
-- The service of cluster-proxy/proto/clusterproxy.proto: its calls, and the handler of
-- cluster-proxy/server/main.go for each.
use balticlsc_platform.Common.{String, List, Option, none, some, Result, ok, err, Exec, ◌>>=◌}
use balticlsc_platform.Common.Dict.{Dict}
use balticlsc_platform.Rancher.Client.{Client}
use balticlsc_platform.ClusterProxy.Proto.{
  ClusterStatusResponse, XWorkspace, Module, XBalticModuleBuild, XClusterDescription,
}
use balticlsc_platform.ClusterProxy.Kube.{Kube, Quantities}
use balticlsc_platform.ClusterProxy.Conf.{ClusterProxyConf, Reply}
use balticlsc_platform.ClusterProxy.Workspace.{
  prepare_workspace, check_workspace_status, purge_workspace,
}
use balticlsc_platform.ClusterProxy.Run.{run_baltic_module}
use balticlsc_platform.ClusterProxy.Dispose.{check_baltic_module_status, dispose_baltic_module}
use balticlsc_platform.ClusterProxy.Description.{get_cluster_description}

-- The service as gRPC passes its calls on, on the side of the server and on that of a client;
-- `BatchId` is the text of its only field. An error stands in place of the response.
pub record ClusterProxyService (W : Type 0) : Type 0 where
  pub prepare_workspace : XWorkspace → Exec W ClusterStatusResponse
  pub check_workspace_status : String → Exec W ClusterStatusResponse
  pub purge_workspace : String → Exec W ClusterStatusResponse
  pub run_baltic_module : XBalticModuleBuild → Exec W ClusterStatusResponse
  pub check_baltic_module_status : Module → Exec W ClusterStatusResponse
  pub dispose_baltic_module : Module → Exec W ClusterStatusResponse
  pub get_cluster_description : Exec W XClusterDescription

abbrev pub response_of : Reply → Result ClusterStatusResponse
response_of (r, none) = ok r
response_of (r, some e) = err e

abbrev pub answered : {W : Type 0} → Reply × W → Result ClusterStatusResponse × W
answered (r, later) = (response_of r, later)

module _ {Q W : Type 0} (quantities : Quantities Q) (kube : Kube Q W) (client : Client W)
    (cattle_conditions : String → Option (List (Dict String))) (proxy : ClusterProxyConf) where
  -- The registered server: the handlers.
  unfoldable pub server : ClusterProxyService W
  server = record {
    prepare_workspace = λ input w. answered (prepare_workspace proxy kube input w);
    check_workspace_status =
        λ id w. answered (check_workspace_status proxy kube cattle_conditions id w);
    purge_workspace = λ id w. answered (purge_workspace proxy kube id w);
    run_baltic_module = λ input. do
      r ← run_baltic_module quantities kube proxy input
      λ w. (response_of r, w);
    check_baltic_module_status = λ m w. answered (check_baltic_module_status proxy kube m w);
    dispose_baltic_module = λ m w. answered (dispose_baltic_module kube proxy m w);
    get_cluster_description = get_cluster_description quantities kube client proxy;
  }
