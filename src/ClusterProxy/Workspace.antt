-- ===== src/ClusterProxy/Workspace.antt =====
-- cluster-proxy/server/main.go: `PrepareWorkspace`, `CheckWorkspaceStatus` and `PurgeWorkspace`.
use balticlsc_platform.Common.{
  String, ◌<>◌, Bool, List, [], ◌∷◌, Option, none, some, ◌==◌, ◌&&◌, if◌then◌else◌, Error,
}
use balticlsc_platform.Common.Dict
use balticlsc_platform.Common.Dict.{Dict}
use balticlsc_platform.Common.Int.{show_int}
use balticlsc_platform.ClusterProxy.Proto.{
  ClusterStatusResponse, active, pending, error, not_found, XWorkspace, XWorkspaceQuota, quota_of,
}
use balticlsc_platform.ClusterProxy.Kube.{Kube, Namespace}
use balticlsc_platform.ClusterProxy.Conf.{
  ClusterProxyConf, Reply, get_ns_name_for_batch, get_project_id,
}

-- The JSON of the annotation for the resource quota.
unfoldable pub quota_text : XWorkspaceQuota → String
quota_text q =
    "{\"limit\":{\"requestsCpu\":\""
    <> show_int q.cpus
    <> "m\",\"requestsMemory\":\""
    <> show_int q.memory
    <> "Mi\",\"requestsStorage\":\""
    <> show_int q.storage
    <> "Gi\",\"limitsCpu\":\""
    <> show_int q.cpus
    <> "m\",\"limitsMemory\":\""
    <> show_int q.memory
    <> "Mi\",\"persistentVolumeClaims\":\"10\"}}"

-- The namespace for a batch.
unfoldable pub workspace_namespace : ClusterProxyConf → XWorkspace → Namespace
workspace_namespace proxy input = record {
  name = get_ns_name_for_batch proxy input.batch_id;
  annotations =
      Dict.insert "field.cattle.io/resourceQuota" (quota_text (quota_of input))
        (Dict.insert "field.cattle.io/projectId" (get_project_id proxy) Dict.empty);
  phase = "";
}

abbrev pub reply : ClusterStatusResponse → Reply
reply r = (r, none)

abbrev pub failure : Error → Reply
failure e = (record { status = error; message = e }, some e)

unfoldable pub prepare_reply : Namespace → Option Error → Reply
prepare_reply ret (some e) = failure e
prepare_reply ret none =
    if ret.phase == "Active"
    then reply (record { status = active; message = "Active" })
    else reply (record { status = pending; message = "Pending" })

-- `m[k]`, the empty text for a missing key.
abbrev pub value_at : String → Dict String → String
value_at k m = elim (Dict.lookup k m) [ none ↦ "" | some v ↦ v ]

unfoldable pub is_quota_failure : Dict String → Bool
is_quota_failure condition =
    value_at "Type" condition == "ResourceQuotaValidated" && value_at "Status" condition == "False"

-- The loop over the conditions; it ends at the first quota failure.
unfoldable pub scan_conditions : List (Dict String) → ClusterStatusResponse → ClusterStatusResponse
scan_conditions [] r = r
scan_conditions (c ∷ cs) r =
    let rest = scan_conditions cs r in
    if is_quota_failure c then record { status = error; message = value_at "Message" c } else rest

-- `cattle_conditions` parses the annotation `cattle.io/status` and takes its `Conditions`, if any.
module _ (cattle_conditions : String → Option (List (Dict String))) where
  unfoldable pub active_reply : Namespace → ClusterStatusResponse
  unfolding scan_conditions
  active_reply ret =
      let ready : ClusterStatusResponse = record { status = active; message = "Active" } in
      elim (Dict.lookup "cattle.io/status" ret.annotations) [
        | none ↦ ready
        | some text ↦ elim (cattle_conditions text) [
          | none ↦ ready
          | some conditions ↦ scan_conditions conditions ready
        ]
      ]

  unfoldable pub check_reply : Namespace → Option Error → Reply
  check_reply ret (some e) = failure e
  check_reply ret none =
      if ret.phase == "Active"
      then reply (active_reply ret)
      else reply (record { status = pending; message = "Pending" })

unfoldable pub purge_reply : Option Error → Reply
purge_reply (some e) = failure e
purge_reply none = reply (record { status = not_found; message = "Deleted" })

module _ {Q W : Type 0} (proxy : ClusterProxyConf) (kube : Kube Q W) where
  unfoldable pub prepare_workspace : XWorkspace → W → Reply × W
  unfolding prepare_reply
  prepare_workspace input w =
      let ((ret, e), w') = kube.create_namespace (workspace_namespace proxy input) w in
      (prepare_reply ret e, w')

  unfoldable pub check_workspace_status :
      (String → Option (List (Dict String))) → String → W → Reply × W
  unfolding check_reply
  check_workspace_status cattle_conditions batch_id w =
      let ((ret, e), w') = kube.get_namespace (get_ns_name_for_batch proxy batch_id) w in
      (check_reply cattle_conditions ret e, w')

  unfoldable pub purge_workspace : String → W → Reply × W
  unfolding purge_reply
  purge_workspace batch_id w =
      let (e, w') = kube.delete_namespace (get_ns_name_for_batch proxy batch_id) w in
      (purge_reply e, w')
