-- ===== src/ClusterProxy/Restore.antt =====
-- About the disposal of a module (`DisposeBalticModule` of cluster-proxy/server/main.go) after its run.
use balticlsc_platform.Common.{
  String, Bool, List, [], ◌∷◌, ◌++◌, Option, none, some, Error, Result, ok, ◌≡◌, refl, subst, arith,
}
use balticlsc_platform.ClusterProxy.Proto.{XBalticModuleBuild, ClusterStatusResponse, Module}
use balticlsc_platform.ClusterProxy.Kube.{Kube, Quantities, ConfigMapSource, Volume}
use balticlsc_platform.ClusterProxy.Conf.{
  ClusterProxyConf, Reply, get_ns_name_for_batch, get_service_name,
}
use balticlsc_platform.ClusterProxy.Run.{run_steps, run_baltic_module}
use balticlsc_platform.ClusterProxy.Dispose.{
  dispose_source, dispose_volumes, dispose_in, dispose_baltic_module, note_error,
}
use balticlsc_platform.ClusterProxy.Cluster.{
  Ref, service, deployment, listed-append, Shrunk, Shrunk-nil, Shrunk-trans, Shrunk-of-Kept,
  Shrunk-Grown, IsCluster,
}
use balticlsc_platform.ClusterProxy.Created.{source_refs, volume_refs}
use balticlsc_platform.ClusterProxy.Started.{run_steps-Grown}

-- An error stays in the reply.
note_error-none :
    (e : Option Error) (r : Reply) → (note_error e r).1 ≡ none → (e ≡ none) × (r.1 ≡ none)
unfolding note_error
note_error-none none r h = (refl, h)
note_error-none (some m) r h = cc

module _ {Q W : Type 0} (kube : Kube Q W) (exists : W → Ref → Bool)
    (cluster : IsCluster kube exists) (ns : String) where
  source_disposed :
      (name : String) (c : Option String) (m : Option ConfigMapSource) (w : W)
      → (dispose_source kube ns name c m w).0 ≡ none
      → Shrunk exists w (source_refs ns name c m) (dispose_source kube ns name c m w).1
  unfolding dispose_source
  source_disposed name (some _) m w h = (cluster.delete_pvc ns name w).done h
  source_disposed name none (some _) w h = (cluster.delete_config_map ns name w).done h
  source_disposed name none none w h = Shrunk-nil exists w

  volumes_disposed :
      (vs : List Volume) (r : Reply) (w : W)
      → (dispose_volumes kube ns vs r w).0.1 ≡ none
      → (r.1 ≡ none) × Shrunk exists w (volume_refs ns vs) (dispose_volumes kube ns vs r w).1
  unfolding dispose_volumes
  volumes_disposed [] r w h = (h, Shrunk-nil exists w)
  volumes_disposed (v ∷ vs) r w h =
      let c = v.persistent_volume_claim in
      let m = v.config_map in
      let step = dispose_source kube ns v.name c m w in
      let (before, rest) = volumes_disposed vs (note_error step.0 r) step.1 h in
      let (first, kept) = note_error-none step.0 r before in
      (
        kept,
        Shrunk-trans exists w step.1 _ (source_refs ns v.name c m) (volume_refs ns vs)
            (source_disposed v.name c m w first) rest,
      )

  -- A disposal without an error has removed the deployment, the service and what stands behind the
  -- volumes of the deployment.
  dispose_in-Shrunk :
      (m : String) (w : W)
      → (dispose_in kube ns m w).0.1 ≡ none
      → Shrunk exists w
          (deployment ns m ∷ service ns m ∷ volume_refs ns (kube.get_deployment ns m w).0.0.volumes)
          (dispose_in kube ns m w).1
  unfolding dispose_in get_service_name
  dispose_in-Shrunk m w h =
      let got = kube.get_deployment ns m w in
      let undeployed = kube.delete_deployment ns m got.1 in
      let unserved = kube.delete_service ns m undeployed.1 in
      let (e₂, rest) = volumes_disposed got.0.0.volumes _ unserved.1 h in
      let (d₂, e₁) = note_error-none unserved.0 _ e₂ in
      let (d₁, e₀) = note_error-none undeployed.0 _ e₁ in
      Shrunk-of-Kept exists w got.1 _ _ (cluster.get_deployment ns m w) (
        Shrunk-trans exists got.1 undeployed.1 _ (deployment ns m ∷ []) _
          ((cluster.delete_deployment ns m got.1).done d₁)
          (Shrunk-trans exists undeployed.1 unserved.1 _ (service ns m ∷ []) _
            ((cluster.delete_service ns m undeployed.1).done d₂) rest))

abbrev pub module_of : XBalticModuleBuild → Module
module_of input = record { batch_id = input.batch_id; module_id = input.module_id }

module _ {Q W : Type 0} (quantities : Quantities Q) (kube : Kube Q W) (exists : W → Ref → Bool)
    (cluster : IsCluster kube exists) (proxy : ClusterProxyConf) (input : XBalticModuleBuild) where
  pub ran :
      (w w' : W) (r : ClusterStatusResponse)
      → run_baltic_module quantities kube proxy input w ≡ (ok (r, none), w')
      → run_steps quantities kube (get_ns_name_for_batch proxy input.batch_id) input w
        ≡ (ok (r, none), w')
  unfolding run_baltic_module
  ran w w' r h =
      by_result (run_steps quantities kube (get_ns_name_for_batch proxy input.batch_id) input w).0
        refl
    where
      by_result :
          (x : Result Reply)
          → (run_steps quantities kube (get_ns_name_for_batch proxy input.batch_id) input w).0 ≡ x
          → run_steps quantities kube (get_ns_name_for_batch proxy input.batch_id) input w
            ≡ (ok (r, none), w')
      by_result x e = ground arith

  -- On a cluster that behaves as `IsCluster` says: a run that returns no error, and then a disposal
  -- that returns no error, leave exactly the objects that were there before the run.
  pub dispose-run_restores :
      (w w' : W) (r : ClusterStatusResponse)
      → run_baltic_module quantities kube proxy input w ≡ (ok (r, none), w')
      → (dispose_baltic_module kube proxy (module_of input) w').0.1 ≡ none
      → (ref : Ref)
      → exists (dispose_baltic_module kube proxy (module_of input) w').1 ref ≡ exists w ref
  unfolding dispose_baltic_module
  dispose-run_restores w w' r run disposed =
      let ns = get_ns_name_for_batch proxy input.batch_id in
      let m = input.module_id in
      let (vols, grown, read) =
        run_steps-Grown quantities kube exists cluster ns input w w' r (ran w w' r run) in
      Shrunk-Grown exists w w' _ (volume_refs ns vols ++ service ns m ∷ deployment ns m ∷ [])
        (deployment ns m ∷ service ns m ∷ volume_refs ns vols)
        (λ ref.
          ground
            (arith, listed-append ref (volume_refs ns vols) (service ns m ∷ deployment ns m ∷ [])))
        grown
        (subst
          (λ x.
            Shrunk exists w' (deployment ns m ∷ service ns m ∷ volume_refs ns x)
              (dispose_in kube ns m w').1)
          read (dispose_in-Shrunk kube exists cluster ns m w' disposed))
