-- ===== src/ClusterProxy/FailedRuns.antt =====
-- What remains when `RunBalticModule` of cluster-proxy/server/main.go fails at the service.
use balticlsc_platform.Common.{
  String, Bool, true, false, List, [], ◌∷◌, ◌++◌, Option, none, some, Error, ok, err, ◌≡◌, inl, inr,
  refl, arith, ap, ◌∙◌, Bool-cases,
}
use balticlsc_platform.Common.Dict
use balticlsc_platform.ClusterProxy.Proto.{XBalticModuleBuild}
use balticlsc_platform.ClusterProxy.Kube.{Kube, Quantities, Volume, VolumeMount, ConfigMapSource}
use balticlsc_platform.ClusterProxy.Conf.{ClusterProxyConf, get_ns_name_for_batch, get_service_name}
use balticlsc_platform.ClusterProxy.Workspace.{failure}
use balticlsc_platform.ClusterProxy.Run.{
  must, create_volumes, create_config, start_module, run_steps, run_baltic_module, add_config_files,
  service_for,
}
use balticlsc_platform.ClusterProxy.Dispose.{dispose_baltic_module}
use balticlsc_platform.ClusterProxy.Cluster.{
  Ref, claim, config, service, deployment, listed, listed-append, Grown, Grown-trans, IsCluster,
}
use balticlsc_platform.ClusterProxy.Created.{
  source_refs, volume_refs, volume_refs-append, create_volumes-Grown, create_config-Grown,
}
use balticlsc_platform.ClusterProxy.Restore.{module_of}
use balticlsc_platform.ClusterProxy.Leaks.{is_storage, dispose_baltic_module-undeployed}

source_is_storage :
    (ns name : String) (c : Option String) (m : Option ConfigMapSource) (r : Ref)
    → is_storage r ≡ false
    → listed r (source_refs ns name c m) ≡ false
source_is_storage ns name (some _) m (claim a b) h = cc
source_is_storage ns name (some _) m (config a b) h = cc
source_is_storage ns name (some _) m (service a b) h = refl
source_is_storage ns name (some _) m (deployment a b) h = refl
source_is_storage ns name none (some _) (claim a b) h = cc
source_is_storage ns name none (some _) (config a b) h = cc
source_is_storage ns name none (some _) (service a b) h = refl
source_is_storage ns name none (some _) (deployment a b) h = refl
source_is_storage ns name none none r h = refl

-- Behind the volumes there are claims and config maps only.
unlisted :
    (ns : String) (vs : List Volume) (r : Ref)
    → is_storage r ≡ false
    → listed r (volume_refs ns vs) ≡ false
unlisted ns [] r h = refl
unlisted ns (v ∷ vs) r h =
    let here = source_refs ns v.name v.persistent_volume_claim v.config_map in
    listed-append r here (volume_refs ns vs)
    ∙ rw (source_is_storage ns v.name v.persistent_volume_claim v.config_map r h)
        (unlisted ns vs r h)

storage_listed :
    (ns : String) (vs : List Volume) (r : Ref)
    → listed r (volume_refs ns vs) ≡ true
    → is_storage r ≡ true
storage_listed ns vs r h = elim (Bool-cases (is_storage r)) [
  | inl e ↦ e
  | inr e ↦ cc (unlisted ns vs r e, h)
]

must-some :
    {W : Type 0} (f : W → Option Error × W) (w : W) (e : Error)
    → (f w).0 ≡ some e
    → must f w ≡ (err e, (f w).1)
must-some f w e h = rw (h, must) refl

module _ {Q W : Type 0} (quantities : Quantities Q) (kube : Kube Q W) (exists : W → Ref → Bool)
    (cluster : IsCluster kube exists) where
  unstarted :
      (ns : String) (input : XBalticModuleBuild) (mounts : List VolumeMount) (volumes : List Volume)
      (w : W) (e : Error)
      → (kube.create_service ns (service_for ns input) w).0 ≡ some e
      → start_module quantities kube ns input mounts volumes w
        ≡ (err e, (kube.create_service ns (service_for ns input) w).1)
  unfolding start_module
  unstarted ns input mounts volumes w e h =
      rw (start_module, must-some (kube.create_service ns (service_for ns input)) w e h) refl

  mounted :
      (ns : String) (input : XBalticModuleBuild) (w w₁ w₂ : W)
      (made : List VolumeMount × List Volume) (volumes : List Volume)
      → create_volumes quantities kube ns input.module_id 0 input.volumes [] [] w ≡ (ok made, w₁)
      → create_config quantities kube ns input.module_id
          (add_config_files input.module_id 0 input.config_files Dict.empty made.0).0
          made.1
          w₁
        ≡ (ok volumes, w₂)
      → Grown exists w (volume_refs ns volumes) w₂
  mounted ns input w w₁ w₂ made volumes first second =
      let (claims, e₁, g₁) =
        create_volumes-Grown quantities kube exists cluster ns input.module_id 0 input.volumes [] []
          w w₁ made first in
      let (configs, e₂, g₂) =
        create_config-Grown quantities kube exists cluster ns input.module_id _ made.1 w₁ w₂ volumes
          second in
      let all : volumes ≡ claims ++ configs = e₂ ∙ ap (λ l. l ++ configs) e₁ in
      rw (all, volume_refs-append ns claims configs) (Grown-trans exists w w₁ w₂ _ _ g₁ g₂)

  module _ (proxy : ClusterProxyConf) (input : XBalticModuleBuild) where
    abbrev namespace_of : String
    namespace_of = get_ns_name_for_batch proxy input.batch_id

    failed_run :
        (w w₁ w₂ : W) (made : List VolumeMount × List Volume) (volumes : List Volume) (e : Error)
        → create_volumes quantities kube namespace_of input.module_id 0 input.volumes [] [] w
          ≡ (ok made, w₁)
        → create_config quantities kube namespace_of input.module_id
            (add_config_files input.module_id 0 input.config_files Dict.empty made.0).0
            made.1
            w₁
          ≡ (ok volumes, w₂)
        → (kube.create_service namespace_of (service_for namespace_of input) w₂).0 ≡ some e
        → run_baltic_module quantities kube proxy input w ≡ (
          ok (failure e),
          (kube.create_service namespace_of (service_for namespace_of input) w₂).1,
        )
    unfolding run_baltic_module run_steps
    failed_run w w₁ w₂ made volumes e first second third =
        rw
          (
            first,
            run_baltic_module,
            run_steps,
            second,
            unstarted namespace_of input _ volumes w₂ e third,
          )
          refl

    -- On a cluster that behaves as `IsCluster` says, for a module without a deployment: a run that
    -- has created the claims and the config map and fails at the service returns that error, and to
    -- dispose the module afterwards still leaves every claim and config map that the run has created.
    pub dispose-run_leaks :
        (w w₁ w₂ : W) (made : List VolumeMount × List Volume) (volumes : List Volume) (e : Error)
        (r : Ref)
        → exists w (deployment namespace_of input.module_id) ≡ false
        → create_volumes quantities kube namespace_of input.module_id 0 input.volumes [] [] w
          ≡ (ok made, w₁)
        → create_config quantities kube namespace_of input.module_id
            (add_config_files input.module_id 0 input.config_files Dict.empty made.0).0
            made.1
            w₁
          ≡ (ok volumes, w₂)
        → (kube.create_service namespace_of (service_for namespace_of input) w₂).0 ≡ some e
        → listed r (volume_refs namespace_of volumes) ≡ true
        → ((run_baltic_module quantities kube proxy input w).0 ≡ ok (failure e))
          × (exists
                (dispose_baltic_module kube proxy
                  (module_of input)
                  (run_baltic_module quantities kube proxy input w).1).1
                r
              ≡ true)
    unfolding service_for get_service_name
    dispose-run_leaks w w₁ w₂ made volumes e r absent first second third there =
        let u = (kube.create_service namespace_of (service_for namespace_of input) w₂).1 in
        let grown = mounted namespace_of input w w₁ w₂ made volumes first second in
        let kept =
          (cluster.create_service namespace_of (service_for namespace_of input) w₂).failed
            (λ f. cc (f, third)) in
        let d = deployment namespace_of input.module_id in
        let gone : exists u d ≡ false =
          kept d ∙ ground (arith, grown.after d, unlisted namespace_of volumes d refl) in
        let here : exists u r ≡ true = kept r ∙ ground (arith, grown.after r) in
        rw (failed_run w w₁ w₂ made volumes e first second third) (
          refl,
          dispose_baltic_module-undeployed kube exists cluster proxy input u r gone
                (storage_listed namespace_of volumes r there)
              ∙ here,
        )
