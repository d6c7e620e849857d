-- ===== src/ClusterProxy/Dispose.antt =====
-- cluster-proxy/server/main.go: `CheckBalticModuleStatus` and `DisposeBalticModule`.
use balticlsc_platform.Common.{
  String, List, [], ◌∷◌, Option, none, some, ◌==◌, if◌then◌else◌, Error,
}
use balticlsc_platform.ClusterProxy.Proto.{ClusterStatusResponse, active, pending, error, Module}
use balticlsc_platform.ClusterProxy.Kube.{
  Kube, ConfigMapSource, Volume, Deployment, DeploymentCondition,
}
use balticlsc_platform.ClusterProxy.Conf.{
  ClusterProxyConf, Reply, get_ns_name_for_batch, get_service_name,
}
use balticlsc_platform.ClusterProxy.Workspace.{failure}

abbrev pub pending_response : ClusterStatusResponse
pending_response = record { status = pending; message = "pending" }

-- The body of the loop over the conditions.
unfoldable pub note_condition : ClusterStatusResponse → DeploymentCondition → ClusterStatusResponse
note_condition r c =
    if c.condition_type == "Available"
    then record { status = if c.status == "False" then error else active; message = c.message }
    else r

unfoldable pub scan_deployment :
    List DeploymentCondition → ClusterStatusResponse → ClusterStatusResponse
unfolding note_condition
scan_deployment [] r = r
scan_deployment (c ∷ cs) r = scan_deployment cs (note_condition r c)

unfoldable pub status_reply : {Q : Type 0} → Deployment Q → Option Error → Reply
unfolding scan_deployment
status_reply d (some e) = failure e
status_reply d none = (scan_deployment d.conditions pending_response, none)

-- An error replaces the reply so far.
unfoldable pub note_error : Option Error → Reply → Reply
note_error none r = r
note_error (some e) r = failure e

module _ {Q W : Type 0} (proxy : ClusterProxyConf) (kube : Kube Q W) where
  unfoldable pub check_baltic_module_status : Module → W → Reply × W
  unfolding status_reply
  check_baltic_module_status input w =
      let ((d, e), w') =
        kube.get_deployment (get_ns_name_for_batch proxy input.batch_id) input.module_id w in
      (status_reply d e, w')

module _ {Q W : Type 0} (kube : Kube Q W) where
  -- The deletion that the source of a volume calls for.
  unfoldable pub dispose_source :
      String → String → Option String → Option ConfigMapSource → W → Option Error × W
  dispose_source ns name (some _) _ w = kube.delete_pvc ns name w
  dispose_source ns name none (some _) w = kube.delete_config_map ns name w
  dispose_source ns name none none w = (none, w)

  unfoldable pub dispose_volumes : String → List Volume → Reply → W → Reply × W
  unfolding note_error dispose_source
  dispose_volumes ns [] r w = (r, w)
  dispose_volumes ns (v ∷ vs) r w =
      let (e, w') = dispose_source ns v.name v.persistent_volume_claim v.config_map w in
      dispose_volumes ns vs (note_error e r) w'

  -- Every deletion is tried, whatever the ones before returned.
  unfoldable pub dispose_in : String → String → W → Reply × W
  unfolding note_error
  dispose_in ns m w =
      let ((d, e₀), w₀) = kube.get_deployment ns m w in
      let (e₁, w₁) = kube.delete_deployment ns m w₀ in
      let (e₂, w₂) = kube.delete_service ns (get_service_name m) w₁ in
      dispose_volumes ns d.volumes
        (note_error e₂ (note_error e₁ (note_error e₀ (pending_response, none)))) w₂

  unfoldable pub dispose_baltic_module : ClusterProxyConf → Module → W → Reply × W
  unfolding dispose_in
  dispose_baltic_module proxy input w =
      dispose_in (get_ns_name_for_batch proxy input.batch_id) input.module_id w
