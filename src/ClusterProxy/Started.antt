-- ===== src/ClusterProxy/Started.antt =====
-- The deployment that `RunBalticModule` of cluster-proxy/server/main.go creates, and all its objects.
use balticlsc_platform.Common.{
  String, Bool, List, [], ◌∷◌, ◌++◌, Option, none, some, Error, Result, ok, >>=-eq-ok, ◌≡◌, refl,
  subst, ◌∙◌, ap, ◌⊎◌, inl, inr,
}
use balticlsc_platform.ClusterProxy.Proto.{XBalticModuleBuild, ClusterStatusResponse}
use balticlsc_platform.ClusterProxy.Kube.{Kube, Quantities, Volume, VolumeMount, Deployment}
use balticlsc_platform.ClusterProxy.Conf.{Reply}
use balticlsc_platform.ClusterProxy.Run.{
  must, must_parse, create_volumes, create_config, create_deployment, start_module, run_steps,
  service_for, deployment_for,
}
use balticlsc_platform.ClusterProxy.Cluster.{
  Ref, service, deployment, Grown, Grown-trans, IsCluster,
}
use balticlsc_platform.ClusterProxy.Created.{
  volume_refs, volume_refs-append, service_created, create_volumes-Grown, create_config-Grown,
}

module _ {Q W : Type 0} (quantities : Quantities Q) (kube : Kube Q W) (exists : W → Ref → Bool)
    (cluster : IsCluster kube exists) (ns : String) where
  must_parse-Kept :
      (text : String) (w u : W) (q : Q) → must_parse quantities text w ≡ (ok q, u) → w ≡ u
  unfolding must_parse
  must_parse-Kept text w u q h = by_parse (quantities.parse text) refl
    where
      by_parse : (r : Error ⊎ Q) → quantities.parse text ≡ r → w ≡ u
      by_parse (inl e) p = cc (ap (λ (x : Result Q × W). x.0) (rw (p, must_parse) at h))
      by_parse (inr k) p = ap (λ (x : Result Q × W). x.1) (rw (p, must_parse) at h)

  deployed :
      (d : Deployment Q) (w w' : W) (r : ClusterStatusResponse)
      → create_deployment quantities kube ns d w ≡ (ok (r, none), w')
      → Grown exists w (deployment ns d.name ∷ []) w'
        × ((kube.get_deployment ns d.name w').0.0.volumes ≡ d.volumes)
  unfolding create_deployment
  deployed d w w' r h = by_error (kube.create_deployment ns d w).0 refl
    where
      reached : (kube.create_deployment ns d w).1 ≡ w'
      reached = ap (λ (x : Result Reply × W). x.1) h

      by_error :
          (e : Option Error)
          → (kube.create_deployment ns d w).0 ≡ e
          → Grown exists w (deployment ns d.name ∷ []) w'
            × ((kube.get_deployment ns d.name w').0.0.volumes ≡ d.volumes)
      by_error none e =
          subst
            (λ x.
              Grown exists w (deployment ns d.name ∷ []) x
              × ((kube.get_deployment ns d.name x).0.0.volumes ≡ d.volumes))
            reached ((cluster.create_deployment ns d w).done e, cluster.read_back ns d w e)
      by_error (some m) e = cc (ap (λ (x : Result Reply × W). x.0) (rw (e, create_deployment) at h))

  deployed_module :
      (input : XBalticModuleBuild) (cpus memory : Q) (mounts : List VolumeMount)
      (volumes : List Volume) (w w' : W) (r : ClusterStatusResponse)
      → create_deployment quantities kube ns
          (deployment_for quantities ns input cpus memory mounts volumes)
          w
        ≡ (ok (r, none), w')
      → Grown exists w (deployment ns input.module_id ∷ []) w'
        × ((kube.get_deployment ns input.module_id w').0.0.volumes ≡ volumes)
  unfolding deployment_for
  deployed_module input cpus memory mounts volumes w w' r h =
      deployed (deployment_for quantities ns input cpus memory mounts volumes) w w' r h

  abbrev pub refs_of : XBalticModuleBuild → List Ref
  refs_of input = service ns input.module_id ∷ deployment ns input.module_id ∷ []

  after_service :
      (input : XBalticModuleBuild) (w u₁ u₂ u₃ w' : W) (volumes : List Volume)
      → Grown exists w (service ns input.module_id ∷ []) u₁
      → u₁ ≡ u₂
      → u₂ ≡ u₃
      → Grown exists u₃ (deployment ns input.module_id ∷ []) w'
        × ((kube.get_deployment ns input.module_id w').0.0.volumes ≡ volumes)
      → Grown exists w (refs_of input) w'
        × ((kube.get_deployment ns input.module_id w').0.0.volumes ≡ volumes)
  after_service input w u₁ u₂ u₃ w' volumes g p q (last, read) = (
    Grown-trans exists w u₃ w' (service ns input.module_id ∷ [])
        (deployment ns input.module_id ∷ [])
        (subst (Grown exists w (service ns input.module_id ∷ [])) (p ∙ q) g) last,
    read,
  )

  -- A module that was started: its service and its deployment are there, and the deployment is read
  -- back with the volumes that were given.
  start_module-Grown :
      (input : XBalticModuleBuild) (mounts : List VolumeMount) (volumes : List Volume) (w w' : W)
      (r : ClusterStatusResponse)
      → start_module quantities kube ns input mounts volumes w ≡ (ok (r, none), w')
      → Grown exists w (refs_of input) w'
        × ((kube.get_deployment ns input.module_id w').0.0.volumes ≡ volumes)
  unfolding start_module
  start_module-Grown input mounts volumes w w' r h =
      let (t, u₁, served, h₁) =
        >>=-eq-ok (must (kube.create_service ns (service_for ns input))) _ w (r, none) w' h in
      let (cpus, u₂, parsed₁, h₂) = >>=-eq-ok (must_parse quantities _) _ u₁ (r, none) w' h₁ in
      let (memory, u₃, parsed₂, h₃) = >>=-eq-ok (must_parse quantities _) _ u₂ (r, none) w' h₂ in
      after_service input w u₁ u₂ u₃ w' volumes
        (service_created quantities kube exists cluster ns input w u₁ t served)
        (must_parse-Kept _ u₁ u₂ cpus parsed₁) (must_parse-Kept _ u₂ u₃ memory parsed₂)
        (deployed_module input cpus memory mounts volumes u₃ w' r h₃)

  -- What a run without an error has created, volumes first; the deployment is read back with them.
  pub run_steps-Grown :
      (input : XBalticModuleBuild) (w w' : W) (r : ClusterStatusResponse)
      → run_steps quantities kube ns input w ≡ (ok (r, none), w')
      → (vols : List Volume) × Grown exists w (volume_refs ns vols ++ refs_of input) w'
        × ((kube.get_deployment ns input.module_id w').0.0.volumes ≡ vols)
  unfolding run_steps
  run_steps-Grown input w w' r h =
      let (made, u₁, mounted, h₁) =
        >>=-eq-ok (create_volumes quantities kube ns input.module_id 0 input.volumes [] []) _ w
          (r, none) w' h in
      let (volumes, u₂, configured, h₂) =
        >>=-eq-ok (create_config quantities kube ns input.module_id _ made.1) _ u₁ (r, none) w'
          h₁ in
      let (claims, e₁, g₁) =
        create_volumes-Grown quantities kube exists cluster ns input.module_id 0 input.volumes [] []
          w u₁ made mounted in
      let (configs, e₂, g₂) =
        create_config-Grown quantities kube exists cluster ns input.module_id _ made.1 u₁ u₂ volumes
          configured in
      let (g₃, read) = start_module-Grown input _ volumes u₂ w' r h₂ in
      let all : volumes ≡ claims ++ configs = e₂ ∙ ap (λ l. l ++ configs) e₁ in
      (
        volumes,
        rw (all, volume_refs-append ns claims configs)
            (Grown-trans exists w u₂ w' (volume_refs ns claims ++ volume_refs ns configs)
              (refs_of input)
              (Grown-trans exists w u₁ u₂ (volume_refs ns claims) (volume_refs ns configs) g₁ g₂)
              g₃),
        read,
      )
