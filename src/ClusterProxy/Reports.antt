-- ===== src/ClusterProxy/Reports.antt =====
-- What `CheckBalticModuleStatus` of cluster-proxy/server/main.go reports, and how the handlers there
-- report errors.
use balticlsc_platform.Common.{
  String, Bool, true, false, List, [], ◌∷◌, ◌++◌, Option, none, some, ◌==◌, if◌then◌else◌, any,
  Error, ◌≡◌, ◌≢◌, ◌⊎◌, ◌↔◌, inl, inr, Bool-cases, refl, arith, ap,
}
use balticlsc_platform.Common.Dict.{Dict}
use balticlsc_platform.ClusterProxy.Proto.{
  ClusterStatusResponse, active, pending, error, XWorkspace, Module,
}
use balticlsc_platform.ClusterProxy.Kube.{Kube, Namespace, Deployment, Volume, DeploymentCondition}
use balticlsc_platform.ClusterProxy.Conf.{
  ClusterProxyConf, Reply, get_ns_name_for_batch, get_service_name,
}
use balticlsc_platform.ClusterProxy.Workspace.{
  check_reply, prepare_reply, purge_reply, prepare_workspace, check_workspace_status,
  purge_workspace, workspace_namespace,
}
use balticlsc_platform.ClusterProxy.Dispose.{
  note_condition, scan_deployment, status_reply, check_baltic_module_status, pending_response,
  dispose_volumes, dispose_in, dispose_baltic_module, note_error, dispose_source,
}

abbrev pub is_available : DeploymentCondition → Bool
is_available c = c.condition_type == "Available"

abbrev pub availability : DeploymentCondition → ClusterStatusResponse
availability c = record {
  status = if c.status == "False" then error else active;
  message = c.message;
}

scan_deployment-skip :
    (cs : List DeploymentCondition) (r : ClusterStatusResponse)
    → any is_available cs ≡ false
    → scan_deployment cs r ≡ r
unfolding scan_deployment note_condition
scan_deployment-skip [] r h = refl
scan_deployment-skip (c ∷ cs) r h = ground (arith, scan_deployment-skip cs r)

-- A status that is not pending stays so.
settled :
    (c : DeploymentCondition) (r : ClusterStatusResponse)
    → (r.status ≢ pending) ⊎ (is_available c ≡ true)
    → (note_condition r c).status ≢ pending
unfolding note_condition
settled c r h e = elim (Bool-cases (is_available c)) [
  | inl available ↦ elim (Bool-cases (c.status == "False")) [
    | inl failing ↦ cc (rw (available, failing) at e)
    | inr fine ↦ cc (rw (available, fine) at e)
  ]
  | inr other ↦ elim h [ inl known ↦ known (rw other at e) | inr available ↦ cc (available, other) ]
]

scan_deployment_settled :
    (cs : List DeploymentCondition) (r : ClusterStatusResponse)
    → (r.status ≢ pending) ⊎ (any is_available cs ≡ true)
    → (scan_deployment cs r).status ≢ pending
unfolding scan_deployment
scan_deployment_settled [] r (inl h) = h
scan_deployment_settled [] r (inr h) = cc
scan_deployment_settled (c ∷ cs) r (inl h) =
    scan_deployment_settled cs (note_condition r c) (inl (settled c r (inl h)))
scan_deployment_settled (c ∷ cs) r (inr h) =
    let later = scan_deployment_settled cs (note_condition r c) in
    elim (Bool-cases (is_available c)) [
      | inl here ↦ later (inl (settled c r (inr here)))
      | inr other ↦ later (inr (rw other at h))
    ]

scan_deployment-last :
    (before after : List DeploymentCondition) (c : DeploymentCondition) (r : ClusterStatusResponse)
    → is_available c ≡ true
    → any is_available after ≡ false
    → scan_deployment (before ++ c ∷ after) r ≡ availability c
unfolding scan_deployment note_condition
scan_deployment-last [] after c r h none_after =
    rw (scan_deployment, note_condition, h) (scan_deployment-skip after (availability c) none_after)
scan_deployment-last (b ∷ before) after c r h none_after =
    scan_deployment-last before after c (note_condition r b) h none_after

status_reply-pending :
    {Q : Type 0} (d : Deployment Q) (e : Option Error)
    → (status_reply d e ≡ (record { status = pending; message = "pending" }, none))
      ↔ ((e ≡ none) × (any is_available d.conditions ≡ false))
unfolding status_reply
status_reply-pending d (some m) = (λ h. cc (ap (λ (r : Reply). r.1) h), λ h. cc h.0)
status_reply-pending d none = (
  λ h. elim (Bool-cases (any is_available d.conditions)) [
    | inl some_available ↦ absurd (
        scan_deployment_settled d.conditions pending_response (inr some_available)
          (ap (λ (r : Reply). r.0.status) h))
    | inr none_available ↦ (refl, none_available)
  ],
  λ h. ap (λ r. (r, none)) (scan_deployment-skip d.conditions pending_response h.1),
)

module _ {Q W : Type 0} (kube : Kube Q W) (proxy : ClusterProxyConf) (input : Module) (w : W) where
  abbrev read_deployment : Deployment Q × Option Error
  read_deployment =
      (kube.get_deployment (get_ns_name_for_batch proxy input.batch_id) input.module_id w).0

  -- The status of a module whose deployment is read goes by its last condition of the type Available:
  -- an error if that condition is False and active otherwise, with the condition's message; no other
  -- condition, no count of replicas and no other object of the module plays a part.
  pub check_baltic_module_status-last :
      (before after : List DeploymentCondition) (c : DeploymentCondition)
      → read_deployment.1 ≡ none
      → read_deployment.0.conditions ≡ before ++ c ∷ after
      → is_available c ≡ true
      → any is_available after ≡ false
      → (check_baltic_module_status proxy kube input w).0 ≡ (
        record { status = if c.status == "False" then error else active; message = c.message },
        none,
      )
  unfolding check_baltic_module_status status_reply
  check_baltic_module_status-last before after c found conditions is_last none_after =
      rw (found, check_baltic_module_status, status_reply, conditions)
        (ap (λ r. (r, none))
          (scan_deployment-last before after c pending_response is_last none_after))

  -- It is pending without an error exactly if the deployment is read and has no such condition.
  pub check_baltic_module_status-pending :
      ((check_baltic_module_status proxy kube input w).0
        ≡ (record { status = pending; message = "pending" }, none))
      ↔ ((read_deployment.1 ≡ none) × (any is_available read_deployment.0.conditions ≡ false))
  unfolding check_baltic_module_status
  check_baltic_module_status-pending = status_reply-pending read_deployment.0 read_deployment.1

-- A reply that is an error has the status ERROR and the error's message, or there is no error.
abbrev pub IsReported : Reply → Type 0
IsReported (r, none) = Unit
IsReported (r, some e) = r ≡ record { status = error; message = e }

note_error-IsReported : (e : Option Error) (r : Reply) → IsReported r → IsReported (note_error e r)
unfolding note_error
note_error-IsReported none r h = h
note_error-IsReported (some e) r h = refl

dispose_volumes-IsReported :
    {Q W : Type 0} (kube : Kube Q W) (ns : String) (vs : List Volume) (r : Reply) (w : W)
    → IsReported r
    → IsReported (dispose_volumes kube ns vs r w).0
unfolding dispose_volumes
dispose_volumes-IsReported kube ns [] r w h = h
dispose_volumes-IsReported kube ns (v ∷ vs) r w h =
    let step = dispose_source kube ns v.name v.persistent_volume_claim v.config_map w in
    dispose_volumes-IsReported kube ns vs (note_error step.0 r) step.1
      (note_error-IsReported step.0 r h)

status_reply-IsReported :
    {Q : Type 0} (d : Deployment Q) (e : Option Error) → IsReported (status_reply d e)
unfolding status_reply
status_reply-IsReported d none = tt
status_reply-IsReported d (some e) = refl

prepare_reply-IsReported : (ns : Namespace) (e : Option Error) → IsReported (prepare_reply ns e)
unfolding prepare_reply
prepare_reply-IsReported ns (some e) = refl
prepare_reply-IsReported ns none = elim (Bool-cases (ns.phase == "Active")) [
  | inl is_active ↦ rw is_active tt
  | inr other ↦ rw other tt
]

check_reply-IsReported :
    (parse : String → Option (List (Dict String))) (ns : Namespace) (e : Option Error)
    → IsReported (check_reply parse ns e)
unfolding check_reply
check_reply-IsReported parse ns (some e) = refl
check_reply-IsReported parse ns none = elim (Bool-cases (ns.phase == "Active")) [
  | inl is_active ↦ rw is_active tt
  | inr other ↦ rw other tt
]

purge_reply-IsReported : (e : Option Error) → IsReported (purge_reply e)
unfolding purge_reply
purge_reply-IsReported (some e) = refl
purge_reply-IsReported none = tt

module _ {Q W : Type 0} (kube : Kube Q W) (proxy : ClusterProxyConf) where
  -- Whatever the cluster answers, and whichever of its calls fail: a reply of `PrepareWorkspace`,
  -- `CheckWorkspaceStatus`, `PurgeWorkspace`, `CheckBalticModuleStatus` and `DisposeBalticModule` has the
  -- status ERROR and the message of the error wherever an error is returned beside it, also if the
  -- error says that something is not found. `RunBalticModule` is not among them.
  pub handlers-IsReported :
      (parse : String → Option (List (Dict String))) (workspace : XWorkspace) (input : Module)
      (w : W)
      → IsReported (prepare_workspace proxy kube workspace w).0
        × IsReported (check_workspace_status proxy kube parse workspace.batch_id w).0
        × IsReported (purge_workspace proxy kube workspace.batch_id w).0
        × IsReported (check_baltic_module_status proxy kube input w).0
        × IsReported (dispose_baltic_module kube proxy input w).0
  unfolding prepare_workspace check_workspace_status purge_workspace check_baltic_module_status
      dispose_baltic_module dispose_in
  handlers-IsReported parse workspace input w =
      let ns = get_ns_name_for_batch proxy input.batch_id in
      let m = input.module_id in
      let created = (kube.create_namespace (workspace_namespace proxy workspace) w).0 in
      let found = (kube.get_namespace (get_ns_name_for_batch proxy workspace.batch_id) w).0 in
      let deployed = kube.get_deployment ns m w in
      let undeployed = kube.delete_deployment ns m deployed.1 in
      let unserved = kube.delete_service ns (get_service_name m) undeployed.1 in
      let read = note_error deployed.0.1 (pending_response, none) in
      let deleted = note_error undeployed.0 read in
      (
        prepare_reply-IsReported created.0 created.1,
        check_reply-IsReported parse found.0 found.1,
        purge_reply-IsReported
            (kube.delete_namespace (get_ns_name_for_batch proxy workspace.batch_id) w).0,
        status_reply-IsReported deployed.0.0 deployed.0.1,
        dispose_volumes-IsReported kube ns deployed.0.0.volumes (note_error unserved.0 deleted)
            unserved.1
            (note_error-IsReported unserved.0 deleted (
              note_error-IsReported undeployed.0 read
                (note_error-IsReported deployed.0.1 (pending_response, none) tt))),
      )
