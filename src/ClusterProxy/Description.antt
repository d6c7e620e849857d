-- ===== src/ClusterProxy/Description.antt =====
-- cluster-proxy/server/main.go: `GetClusterDescription`.
use balticlsc_platform.Common.{
  String, List, [], ◌∷◌, Option, none, some, ◌==◌, if◌then◌else◌, inl, inr, ok, err, panicked, Exec,
  ◌>>=◌,
}
use balticlsc_platform.Common.Dict
use balticlsc_platform.Common.Dict.{Dict}
use balticlsc_platform.Common.Int.{ℤ, pos, scale, quotient, to_int32, to_uint32}
use balticlsc_platform.Rancher.Types.{Quotas, ProjectQuotas}
use balticlsc_platform.Rancher.Client.{Client}
use balticlsc_platform.ClusterProxy.Proto.{
  NodeStatus, ready, disk_pressure, memory_pressure, pid_pressure, network_unavailable, XCapacity,
  XResourceQuota, XClusterNode, XClusterDescription, online,
}
use balticlsc_platform.ClusterProxy.Kube.{Kube, Quantities, Node, NodeCondition}
use balticlsc_platform.ClusterProxy.Conf.{ClusterProxyConf, get_project_id}
use balticlsc_platform.ClusterProxy.Workspace.{value_at}

unfoldable pub cond2status : String → NodeStatus
cond2status cond =
    if cond == "NetworkUnavailable"
    then network_unavailable
    else if cond == "MemoryPressure"
    then memory_pressure
    else if cond == "DiskPressure"
    then disk_pressure
    else if cond == "PIDPressure"
    then pid_pressure
    else ready

-- The loop over the conditions of a node.
unfoldable pub node_status : List NodeCondition → NodeStatus → NodeStatus
unfolding cond2status
node_status [] s = s
node_status (c ∷ cs) s =
    node_status cs (if c.status == "True" then cond2status c.condition_type else s)

module _ {Q : Type 0} (quantities : Quantities Q) where
  -- `q := r[name]; v, _ := q.AsInt64()`
  unfoldable pub amount : String → Dict Q → ℤ
  amount name r = elim (Dict.lookup name r) [
    | none ↦ quantities.as_int64 quantities.zero_quantity
    | some q ↦ quantities.as_int64 q
  ]

  unfoldable pub resource2capacity : Dict Q → XCapacity
  unfolding amount
  resource2capacity r = record {
    cpus = to_int32 (amount "cpu" r);
    ephemeral_storage = to_int32 (quotient (amount "ephemeral-storage" r) 1048576);
    memory = to_int32 (quotient (amount "memory" r) 1048576);
    gpus = to_int32 (amount "nvidia.com/gpu" r);
    pods = to_int32 (amount "pods" r);
  }

  -- `resource.ParseQuantity(rq[name])`; the field stays 0 on an error.
  unfoldable pub quota_value : {A : Type 0} → String → Quotas → A → (ℤ → A) → A
  quota_value name rq absent f = elim (quantities.parse (value_at name rq)) [
    | inl e ↦ absent
    | inr q ↦ f (quantities.value q)
  ]

  unfoldable pub format_quotas : Quotas → XResourceQuota
  unfolding quota_value
  format_quotas rq = record {
    cpu_request = quota_value "requestsCpu" rq (pos 0) (λ v. to_int32 (scale (to_int32 v) 1000));
    cpu_limit = quota_value "limitsCpu" rq (pos 0) (λ v. to_int32 (scale (to_int32 v) 1000));
    memory_request = quota_value "requestsMemory" rq (pos 0) (λ v. to_int32 (quotient v 1048576));
    memory_limit = quota_value "limitsMemory" rq (pos 0) (λ v. to_int32 (quotient v 1048576));
    persistent_volume_claims = quota_value "persistentVolumeClaims" rq (pos 0) (λ v. to_int32 v);
    storage_request = quota_value "requestsStorage" rq 0 (λ v. to_uint32 (quotient v 1073741824));
  }

  -- The description of a node: its name and labels from the list, the rest from the node itself.
  unfoldable pub describe_node : Node Q → Node Q → XClusterNode
  unfolding node_status resource2capacity
  describe_node node n = record {
    name = node.name;
    os = value_at "kubernetes.io/os" node.labels;
    os_image = n.os_image;
    architecture = value_at "kubernetes.io/arch" node.labels;
    kernel_version = n.kernel_version;
    orchestrator_type = "BalticLSC Platform";
    orchestrator_version = n.kubelet_version;
    gpu_type = value_at "accelerator" node.labels;
    capacity = resource2capacity n.capacity;
    allocatable = resource2capacity n.allocatable;
    unschedulable = n.unschedulable;
    status = node_status n.conditions ready;
  }

  module _ {W : Type 0} (kube : Kube Q W) where
    -- The loop over the nodes; the error of a `Get` is only logged.
    unfoldable pub describe_nodes : List (Node Q) → W → List XClusterNode × W
    unfolding describe_node
    describe_nodes [] w = ([], w)
    describe_nodes (node ∷ nodes) w =
        let ((n, e), w₁) = kube.get_node node.name w in
        let (rest, w₂) = describe_nodes nodes w₁ in (describe_node node n ∷ rest, w₂)

    module _ (client : Client W) (proxy : ClusterProxyConf) where
      -- The limits, if Rancher answers; its error is only logged.
      unfoldable pub project_quotas : Exec W (Option ProjectQuotas)
      project_quotas w =
          let (r, w') = client.get_project_quotas (get_project_id proxy) w in
          elim r [
            | ok project ↦ (ok (some project), w')
            | err e ↦ (ok none, w')
            | panicked e ↦ (panicked e, w')
          ]

      unfoldable pub describe : Option ProjectQuotas → List XClusterNode → XClusterDescription
      describe project nodes = record {
        cluster_id = proxy.cluster_id;
        project_id = proxy.project_id;
        project_name = proxy.project_name;
        nodes = nodes;
        status = online;
        limit = elim project [ none ↦ none | some p ↦ some (format_quotas p.project) ];
        used_limit = elim project [ none ↦ none | some p ↦ some (format_quotas p.used) ];
      }

      -- The error of the list of nodes is only logged too.
      unfoldable pub get_cluster_description : Exec W XClusterDescription
      get_cluster_description = do
        project ← project_quotas
        λ w.
            let ((nodes, e), w₁) = kube.list_nodes w in
            let (described, w₂) = describe_nodes nodes w₁ in (ok (describe project described), w₂)
