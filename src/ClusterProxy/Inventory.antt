-- ===== src/ClusterProxy/Inventory.antt =====
-- What the description of a cluster (`GetClusterDescription` of cluster-proxy/server/main.go) says.
use balticlsc_platform.Common.{
  ℕ, ◌*◌, ◌/◌, ◌^◌, ◌<◌, Bool, true, false, List, [], ◌∷◌, ◌++◌, map, Option, none, some, ◌==◌, inr,
  any, ok, ◌≡◌, ◌∙◌, String, refl, arith, ap, eq_iff,
}
use balticlsc_platform.Common.Dict
use balticlsc_platform.Common.Dict.{Dict}
use balticlsc_platform.Common.Int.{pos, to_int32-pos}
use balticlsc_platform.Rancher.Types.{Quotas, ProjectQuotas}
use balticlsc_platform.Rancher.Client.{Client}
use balticlsc_platform.ClusterProxy.Proto.{
  XClusterNode, XClusterDescription, NodeStatus, ready, network_unavailable, memory_pressure,
  disk_pressure, pid_pressure,
}
use balticlsc_platform.ClusterProxy.Kube.{Kube, Quantities, Node, NodeCondition}
use balticlsc_platform.ClusterProxy.Conf.{ClusterProxyConf}
use balticlsc_platform.ClusterProxy.Workspace.{value_at}
use balticlsc_platform.ClusterProxy.Description.{
  cond2status, node_status, amount, resource2capacity, quota_value, format_quotas, describe_node,
  describe_nodes, project_quotas, describe, get_cluster_description,
}

abbrev pub is_true : NodeCondition → Bool
is_true c = c.status == "True"

node_status-skip :
    (cs : List NodeCondition) (s : NodeStatus) → any is_true cs ≡ false → node_status cs s ≡ s
unfolding node_status
node_status-skip [] s h = refl
node_status-skip (c ∷ cs) s h = ground (arith, node_status-skip cs s)

node_status_last :
    (before after : List NodeCondition) (c : NodeCondition) (s : NodeStatus)
    → is_true c ≡ true
    → any is_true after ≡ false
    → node_status (before ++ c ∷ after) s ≡ cond2status c.condition_type
unfolding node_status
node_status_last [] after c s h none_after =
    rw (node_status, h) (node_status-skip after (cond2status c.condition_type) none_after)
node_status_last (b ∷ before) after c s h none_after =
    node_status_last before after c _ h none_after

-- The conditions that a status of the proto is named after.
abbrev pub status_table : Dict NodeStatus
status_table =
    ("NetworkUnavailable", network_unavailable)
    ∷ ("MemoryPressure", memory_pressure)
    ∷ ("DiskPressure", disk_pressure)
    ∷ ("PIDPressure", pid_pressure)
    ∷ []

abbrev pub status_named : String → NodeStatus
status_named cond = elim (Dict.lookup cond status_table) [ none ↦ ready | some s ↦ s ]

eq_comm : (a b : String) → (a == b) ≡ (b == a)
eq_comm a b = ground (arith, eq_iff a b, eq_iff b a)

cond2status-named : (cond : String) → cond2status cond ≡ status_named cond
unfolding cond2status Dict.lookup
cond2status-named cond = ground (
  arith,
  eq_comm cond "NetworkUnavailable",
  eq_comm cond "MemoryPressure",
  eq_comm cond "DiskPressure",
  eq_comm cond "PIDPressure",
)

module _ {Q : Type 0} (quantities : Quantities Q) where
  -- The last condition of a node that is True decides the status in the description, whatever the
  -- conditions before it say: a condition of the type NetworkUnavailable, MemoryPressure, DiskPressure
  -- or PIDPressure the status of that name, and any other, Ready included, the status READY.
  pub describe_node-status :
      (node n : Node Q) (before after : List NodeCondition) (c : NodeCondition)
      → n.conditions ≡ before ++ c ∷ after
      → is_true c ≡ true
      → any is_true after ≡ false
      → (describe_node quantities node n).status ≡ status_named c.condition_type
  unfolding describe_node
  describe_node-status node n before after c conditions h none_after =
      rw conditions
        (node_status_last before after c ready h none_after ∙ cond2status-named c.condition_type)

  -- The memory of a capacity is the quantity in Mi, rounded down, if the quantity is a number of bytes
  -- below 2 ^ 51, so that the number of Mi fits into 32 bits.
  resource2capacity-memory :
      (r : Dict Q) (q : Q) (n : ℕ)
      → Dict.lookup "memory" r ≡ some q
      → quantities.as_int64 q ≡ pos n
      → n < 2 ^ 51
      → (resource2capacity quantities r).memory ≡ pos (n / 2 ^ 20)
  unfolding resource2capacity amount
  resource2capacity-memory r q n found bytes below =
      rw (resource2capacity, amount, found, bytes) (to_int32-pos (n / 2 ^ 20) (omega arith))

  -- The CPU request of a quota is 1000 for each whole CPU of the parsed value, if the value is below
  -- 2147484, so that the product fits into 32 bits.
  format_quotas-cpu :
      (rq : Quotas) (q : Q) (n : ℕ)
      → quantities.parse (value_at "requestsCpu" rq) ≡ inr q
      → quantities.value q ≡ pos n
      → n < 2147484
      → (format_quotas quantities rq).cpu_request ≡ pos (n * 1000)
  unfolding format_quotas quota_value
  format_quotas-cpu rq q n parsed value below =
      rw (format_quotas, quota_value, parsed, value, to_int32-pos n (omega arith))
        (to_int32-pos (n * 1000) (omega arith))

  module _ {W : Type 0} (kube : Kube Q W) where
    names-describe_nodes :
        (nodes : List (Node Q)) (w : W)
        → map (λ (n : XClusterNode). n.name) (describe_nodes quantities kube nodes w).0
          ≡ map (λ (n : Node Q). n.name) nodes
    unfolding describe_nodes describe_node
    names-describe_nodes [] w = refl
    names-describe_nodes (node ∷ nodes) w =
        ap (λ l. node.name ∷ l) (names-describe_nodes nodes (kube.get_node node.name w).1)

    -- The description of a cluster does not fail, whatever errors the calls for nodes return, if the
    -- call for the project's quotas does not panic: it lists the names of the nodes that the cluster
    -- lists, in that order, and has limits exactly from quotas that Rancher gave.
    pub get_cluster_description-lists :
        (client : Client W) (proxy : ClusterProxyConf) (w w₁ : W) (project : Option ProjectQuotas)
        → project_quotas quantities kube client proxy w ≡ (ok project, w₁)
        → (d : XClusterDescription) × ((get_cluster_description quantities kube client proxy w).0
            ≡ ok d)
          × (map (λ (n : XClusterNode). n.name) d.nodes
              ≡ map (λ (n : Node Q). n.name) (kube.list_nodes w₁).0.0)
          × (d.limit
              ≡ elim project [ none ↦ none | some p ↦ some (format_quotas quantities p.project) ])
          × (d.used_limit
              ≡ elim project [ none ↦ none | some p ↦ some (format_quotas quantities p.used) ])
    unfolding get_cluster_description describe
    get_cluster_description-lists client proxy w w₁ project done =
        let listed = kube.list_nodes w₁ in
        (
          describe quantities kube client proxy project
              (describe_nodes quantities kube listed.0.0 listed.1).0,
          rw (done, get_cluster_description) refl,
          names-describe_nodes listed.0.0 listed.1,
          refl,
          refl,
        )
