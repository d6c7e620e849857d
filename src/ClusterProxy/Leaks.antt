-- ===== src/ClusterProxy/Leaks.antt =====
-- What a failed run of cluster-proxy/server/main.go leaves on the cluster.
use balticlsc_platform.Common.{
  String, Bool, true, false, Option, none, some, Error, ◌≡◌, refl, arith, ◌∙◌,
}
use balticlsc_platform.ClusterProxy.Proto.{XBalticModuleBuild}
use balticlsc_platform.ClusterProxy.Kube.{Kube}
use balticlsc_platform.ClusterProxy.Conf.{ClusterProxyConf, get_ns_name_for_batch, get_service_name}
use balticlsc_platform.ClusterProxy.Dispose.{dispose_volumes, dispose_in, dispose_baltic_module}
use balticlsc_platform.ClusterProxy.Cluster.{
  Ref, claim, config, service, deployment, same, Deletes, IsCluster,
}
use balticlsc_platform.ClusterProxy.Restore.{module_of}

-- A claim or a config map.
abbrev pub is_storage : Ref → Bool
is_storage (claim _ _) = true
is_storage (config _ _) = true
is_storage _ = false

module _ {Q W : Type 0} (kube : Kube Q W) (exists : W → Ref → Bool)
    (cluster : IsCluster kube exists) where
  -- A deletion, whether it works or not, touches its own object alone.
  others_kept :
      (ref r : Ref) (w : W) (e : Option Error) (u : W)
      → Deletes exists ref w e u
      → same ref r ≡ false
      → exists u r ≡ exists w r
  others_kept ref r w none u d other = ground (arith, (d.done refl).after r)
  others_kept ref r w (some m) u d other = d.failed (λ f. cc f) r

  undeployed :
      (ns m : String) (r : Ref) (w : W)
      → is_storage r ≡ true
      → exists (kube.delete_deployment ns m w).1 r ≡ exists w r
  undeployed ns m (claim a b) w h =
      others_kept (deployment ns m) (claim a b) w _ _ (cluster.delete_deployment ns m w) refl
  undeployed ns m (config a b) w h =
      others_kept (deployment ns m) (config a b) w _ _ (cluster.delete_deployment ns m w) refl
  undeployed ns m (service a b) w h = cc
  undeployed ns m (deployment a b) w h = cc

  unserved :
      (ns m : String) (r : Ref) (w : W)
      → is_storage r ≡ true
      → exists (kube.delete_service ns m w).1 r ≡ exists w r
  unserved ns m (claim a b) w h =
      others_kept (service ns m) (claim a b) w _ _ (cluster.delete_service ns m w) refl
  unserved ns m (config a b) w h =
      others_kept (service ns m) (config a b) w _ _ (cluster.delete_service ns m w) refl
  unserved ns m (service a b) w h = cc
  unserved ns m (deployment a b) w h = cc

  dispose_in-undeployed :
      (ns m : String) (r : Ref) (w : W)
      → exists w (deployment ns m) ≡ false
      → is_storage r ≡ true
      → exists (dispose_in kube ns m w).1 r ≡ exists w r
  unfolding dispose_in dispose_volumes get_service_name
  dispose_in-undeployed ns m r w absent h =
      let w₀ = (kube.get_deployment ns m w).1 in
      let w₁ = (kube.delete_deployment ns m w₀).1 in
      rw (cluster.absent ns m w absent)
        (unserved ns m r w₁ h ∙ undeployed ns m r w₀ h ∙ cluster.get_deployment ns m w r)

  -- On a cluster that behaves as `IsCluster` says: to dispose a module that has no deployment removes
  -- no claim and no config map, of this module or of another.
  pub dispose_baltic_module-undeployed :
      (proxy : ClusterProxyConf) (input : XBalticModuleBuild) (w : W) (r : Ref)
      → exists w (deployment (get_ns_name_for_batch proxy input.batch_id) input.module_id) ≡ false
      → is_storage r ≡ true
      → exists (dispose_baltic_module kube proxy (module_of input) w).1 r ≡ exists w r
  unfolding dispose_baltic_module
  dispose_baltic_module-undeployed proxy input w r absent h =
      dispose_in-undeployed (get_ns_name_for_batch proxy input.batch_id) input.module_id r w absent
        h
