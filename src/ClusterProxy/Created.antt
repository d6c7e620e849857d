-- ===== src/ClusterProxy/Created.antt =====
-- The claims, the config map and the service that `RunBalticModule` of cluster-proxy/server/main.go creates.
use balticlsc_platform.Common.{
  String, ℕ, ◌+◌, Bool, List, [], ◌∷◌, ◌++◌, append_assoc, append-nil, Option, none, some, Error,
  Result, ok, >>=-eq-ok, ◌≡◌, refl, sym, subst, ◌∙◌, ap, arith,
}
use balticlsc_platform.Common.Dict.{Dict}
use balticlsc_platform.ClusterProxy.Proto.{XBalticModuleBuild, XVolumeDescription}
use balticlsc_platform.ClusterProxy.Kube.{Kube, Quantities, ConfigMapSource, Volume, VolumeMount}
use balticlsc_platform.ClusterProxy.Conf.{get_volume_name, get_service_name}
use balticlsc_platform.ClusterProxy.Run.{
  must, create_volumes, create_config, volume_claim, claim_volume, volume_mount, service_for,
}
use balticlsc_platform.ClusterProxy.Cluster.{
  Ref, claim, config, service, Grown, Grown-nil, Grown-trans, Creates, IsCluster,
}

-- The object behind a volume of a deployment.
abbrev pub source_refs : String → String → Option String → Option ConfigMapSource → List Ref
source_refs ns name (some _) _ = claim ns name ∷ []
source_refs ns name none (some _) = config ns name ∷ []
source_refs ns name none none = []

abbrev pub volume_refs : String → List Volume → List Ref
volume_refs ns [] = []
volume_refs ns (v ∷ vs) =
    source_refs ns v.name v.persistent_volume_claim v.config_map ++ volume_refs ns vs

pub volume_refs-append :
    (ns : String) (a b : List Volume)
    → volume_refs ns (a ++ b) ≡ volume_refs ns a ++ volume_refs ns b
volume_refs-append ns [] b = refl
volume_refs-append ns (v ∷ vs) b = rw (volume_refs-append ns vs b) (
    sym (
      append_assoc (source_refs ns v.name v.persistent_volume_claim v.config_map)
        (volume_refs ns vs) (volume_refs ns b)))

-- What the pairs of two equal results have in common.
ok-injective :
    {W A : Type 0} (a b : A) (u v : W)
    → ◌≡◌ {A = Result A × W} (ok a, u) (ok b, v)
    → (a ≡ b) × (u ≡ v)
ok-injective a b u v h = (ground arith, ap (λ (x : Result _ × _). x.1) h)

module _ {W : Type 0} (exists : W → Ref → Bool) where
  must-Grown :
      (f : W → Option Error × W) (ref : Ref) (w u : W) (t : Unit {0})
      → Creates exists ref w (f w).0 (f w).1
      → must f w ≡ (ok t, u)
      → Grown exists w (ref ∷ []) u
  must-Grown f ref w u t c h = by_error (f w).0 refl
    where
      by_error : (e : Option Error) → (f w).0 ≡ e → Grown exists w (ref ∷ []) u
      by_error none e =
          rw (ap (λ (x : Result (Unit {0}) × W). x.1) (rw (e, must) at h)) at (c.done e)
      by_error (some m) e = cc (ap (λ (x : Result (Unit {0}) × W). x.0) (rw (e, must) at h))

module _ {Q W : Type 0} (quantities : Quantities Q) (kube : Kube Q W) (exists : W → Ref → Bool)
    (cluster : IsCluster kube exists) (ns : String) where
  claim_created :
      (m : String) (i : ℕ) (v : XVolumeDescription) (w u : W) (t : Unit {0})
      → must (kube.create_pvc ns (volume_claim quantities ns m i v)) w ≡ (ok t, u)
      → Grown exists w (claim ns (get_volume_name m i) ∷ []) u
  unfolding volume_claim
  claim_created m i v w u t h =
      must-Grown exists (kube.create_pvc ns (volume_claim quantities ns m i v)) _ w u t
        (cluster.create_pvc ns (volume_claim quantities ns m i v) w) h

  pub service_created :
      (input : XBalticModuleBuild) (w u : W) (t : Unit {0})
      → must (kube.create_service ns (service_for ns input)) w ≡ (ok t, u)
      → Grown exists w (service ns input.module_id ∷ []) u
  unfolding service_for get_service_name
  service_created input w u t h =
      must-Grown exists (kube.create_service ns (service_for ns input)) _ w u t
        (cluster.create_service ns (service_for ns input) w) h

  pub create_volumes-Grown :
      (m : String) (i : ℕ) (vs : List XVolumeDescription) (mounts : List VolumeMount)
      (volumes : List Volume) (w w' : W) (made : List VolumeMount × List Volume)
      → create_volumes quantities kube ns m i vs mounts volumes w ≡ (ok made, w')
      → (new : List Volume) × (made.1 ≡ volumes ++ new) × Grown exists w (volume_refs ns new) w'
  unfolding create_volumes
  create_volumes-Grown m i [] mounts volumes w w' made h =
      let (same_lists, same_world) = ok-injective (mounts, volumes) made w w' h in
      (
        [],
        sym (ap (λ (x : List VolumeMount × List Volume). x.1) same_lists)
            ∙ sym (append-nil volumes),
        subst (Grown exists w []) same_world (Grown-nil exists w),
      )
  create_volumes-Grown m i (v ∷ vs) mounts volumes w w' made h =
      let create = kube.create_pvc ns (volume_claim quantities ns m i v) in
      let (t, u, created, rest) = >>=-eq-ok (must create) _ w made w' h in
      let (new, grown, more) =
        create_volumes-Grown m (i + 1) vs (mounts ++ volume_mount m i v ∷ [])
          (volumes ++ claim_volume m i ∷ []) u w' made rest in
      (
        claim_volume m i ∷ new,
        grown ∙ append_assoc volumes (claim_volume m i ∷ []) new,
        Grown-trans exists w u w' _ (volume_refs ns new) (claim_created m i v w u t created) more,
      )

  pub create_config-Grown :
      (m : String) (entries : Dict String) (volumes : List Volume) (w w' : W) (made : List Volume)
      → create_config quantities kube ns m entries volumes w ≡ (ok made, w')
      → (new : List Volume) × (made ≡ volumes ++ new) × Grown exists w (volume_refs ns new) w'
  unfolding create_config
  create_config-Grown m [] volumes w w' made h =
      let (same_lists, same_world) = ok-injective volumes made w w' h in
      (
        [],
        sym same_lists ∙ sym (append-nil volumes),
        subst (Grown exists w []) same_world (Grown-nil exists w),
      )
  create_config-Grown m (e ∷ es) volumes w w' made h =
      let create =
        kube.create_config_map ns (record { namespace = ns; name = m; entries = e ∷ es }) in
      let (t, u, created, rest) = >>=-eq-ok (must create) _ w made w' h in
      let (same_lists, same_world) = ok-injective _ made u w' rest in
      (
        _,
        sym same_lists,
        rw same_world at (
            must-Grown exists create (config ns m) w u t (cluster.create_config_map ns _ w)
              created),
      )
