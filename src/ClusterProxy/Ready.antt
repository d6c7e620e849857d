-- ===== src/ClusterProxy/Ready.antt =====
-- A run of `RunBalticModule` of cluster-proxy/server/main.go on a cluster that accepts what is new.
use balticlsc_platform.Common.{
  String, ◌<>◌, ℕ, ◌+◌, Bool, false, List, [], ◌∷◌, ◌++◌, Option, none, some, Error, inl, inr, ◌⊎◌,
  ok, ◌≡◌, refl, arith,
}
use balticlsc_platform.Common.Dict
use balticlsc_platform.Common.Dict.{Dict}
use balticlsc_platform.Common.Int.{show_int}
use balticlsc_platform.ClusterProxy.Proto.{
  XBalticModuleBuild, XVolumeDescription, pending, resources_of,
}
use balticlsc_platform.ClusterProxy.Kube.{Kube, Quantities, ConfigMap, Volume, VolumeMount}
use balticlsc_platform.ClusterProxy.Conf.{ClusterProxyConf, get_ns_name_for_batch, get_service_name}
use balticlsc_platform.ClusterProxy.Run.{
  must, must_parse, create_volumes, create_config, create_deployment, start_module, run_steps,
  run_baltic_module, run_reply, volume_claim, claim_volume, volume_mount, add_config_files,
  service_for, deployment_for,
}
use balticlsc_platform.ClusterProxy.Unused.{Unused, Unused-claim, Vacant, Vacant-config}
use balticlsc_platform.ClusterProxy.Cluster.{Ref, claim, config, service, deployment, IsCluster}

-- The config map with the files of a message.
abbrev pub files_map : String → XBalticModuleBuild → List VolumeMount → ConfigMap
files_map ns input mounts = record {
  namespace = ns;
  name = input.module_id;
  entries = (add_config_files input.module_id 0 input.config_files Dict.empty mounts).0;
}

-- `v` is the volume with the number `j` of a list that starts at the number `i`.
abbrev pub Numbered : ℕ → XVolumeDescription → ℕ → List XVolumeDescription → Type 0
Numbered j v i [] = ⊥
Numbered j v i (x ∷ xs) = ((j ≡ i) × (v ≡ x)) ⊎ Numbered j v (i + 1) xs

-- While the namespace `ns` is open, the cluster creates the objects that a run of this message asks
-- for in it, where they are not there, and the namespace stays open; and the texts of the amounts in
-- the message are quantities. What open means is left to the cluster: for instance that the namespace
-- is there and its quota has room for these objects.
pub record Accepts {Q W : Type 0} (quantities : Quantities Q) (kube : Kube Q W)
    (exists : W → Ref → Bool) (IsOpen : W → Type 0) (ns : String) (input : XBalticModuleBuild)
    : Type 0 where
  pub create_pvc :
      (j : ℕ) (v : XVolumeDescription) (w : W)
      → Numbered j v 0 input.volumes
      → IsOpen w
      → exists w (claim ns (volume_claim quantities ns input.module_id j v).name) ≡ false
      → ((kube.create_pvc ns (volume_claim quantities ns input.module_id j v) w).0 ≡ none)
        × IsOpen (kube.create_pvc ns (volume_claim quantities ns input.module_id j v) w).1
  pub create_config_map :
      (mounts : List VolumeMount) (w : W)
      → IsOpen w
      → exists w (config ns input.module_id) ≡ false
      → ((kube.create_config_map ns (files_map ns input mounts) w).0 ≡ none)
        × IsOpen (kube.create_config_map ns (files_map ns input mounts) w).1
  pub create_service :
      (w : W)
      → IsOpen w
      → exists w (service ns input.module_id) ≡ false
      → ((kube.create_service ns (service_for ns input) w).0 ≡ none)
        × IsOpen (kube.create_service ns (service_for ns input) w).1
  pub cpus : Q
  pub memory : Q
  pub cpus_parsed : quantities.parse (show_int (resources_of input).cpus <> "m") ≡ inr cpus
  pub memory_parsed : quantities.parse (show_int (resources_of input).memory <> "Mi") ≡ inr memory
  pub create_deployment :
      (mounts : List VolumeMount) (volumes : List Volume) (w : W)
      → IsOpen w
      → exists w (deployment ns input.module_id) ≡ false
      → (kube.create_deployment ns
          (deployment_for quantities ns input cpus memory mounts volumes)
          w).0
        ≡ none

-- A call without an error.
must-ok :
    {W : Type 0} (f : W → Option Error × W) (w : W) → (f w).0 ≡ none → must f w ≡ (ok tt, (f w).1)
must-ok f w h = rw (h, must) refl

module _ {Q W : Type 0} (quantities : Quantities Q) (kube : Kube Q W) (exists : W → Ref → Bool)
    (cluster : IsCluster kube exists) (IsOpen : W → Type 0) (ns : String)
    (input : XBalticModuleBuild) (accepts : Accepts quantities kube exists IsOpen ns input) where
  create_volumes-ok :
      (i : ℕ) (vs : List XVolumeDescription) (mounts : List VolumeMount) (volumes : List Volume)
      (w : W)
      → ((j : ℕ) (v : XVolumeDescription) → Numbered j v i vs → Numbered j v 0 input.volumes)
      → Unused exists ns input.module_id i w
      → IsOpen w
      → (made : List VolumeMount × List Volume) × (u : W) × (create_volumes quantities kube ns
            input.module_id i vs mounts volumes w
          ≡ (ok made, u))
        × (exists u (config ns input.module_id) ≡ false)
        × Vacant exists ns input.module_id u
        × IsOpen u
  unfolding create_volumes volume_claim
  create_volumes-ok i [] mounts volumes w numbered h opened = (
    (mounts, volumes),
    w,
    refl,
    h.map,
    record { served = h.served; deployed = h.deployed },
    opened,
  )
  create_volumes-ok i (v ∷ vs) mounts volumes w numbered h opened =
      let m = input.module_id in
      let pvc = volume_claim quantities ns m i v in
      let (fine, still) =
        accepts.create_pvc i v w (numbered i v (inl (refl, refl))) opened
          (h.claims i (omega arith)) in
      let u = (kube.create_pvc ns pvc w).1 in
      let (made, t, rest, unmapped, vacant, last) =
        create_volumes-ok (i + 1) vs (mounts ++ volume_mount m i v ∷ [])
          (volumes ++ claim_volume m i ∷ []) u (λ j x later. numbered j x (inr later))
          (Unused-claim exists ns m i w u h ((cluster.create_pvc ns pvc w).done fine)) still in
      (made, t, rw (must-ok (kube.create_pvc ns pvc) w fine) rest, unmapped, vacant, last)

  -- The config map with these entries is the one of the message.
  create_config-ok :
      (entries : Dict String) (mounts : List VolumeMount) (volumes : List Volume) (w : W)
      → entries ≡ (add_config_files input.module_id 0 input.config_files Dict.empty mounts).0
      → exists w (config ns input.module_id) ≡ false
      → Vacant exists ns input.module_id w
      → IsOpen w
      → (made : List Volume) × (u : W) × (create_config quantities kube ns input.module_id entries
            volumes w
          ≡ (ok made, u))
        × Vacant exists ns input.module_id u
        × IsOpen u
  unfolding create_config
  create_config-ok [] mounts volumes w same unmapped vacant opened =
      (volumes, w, refl, vacant, opened)
  create_config-ok (e ∷ es) mounts volumes w same unmapped vacant opened =
      let m = input.module_id in
      let map : ConfigMap = record { namespace = ns; name = m; entries = e ∷ es } in
      let taken = accepts.create_config_map mounts w opened unmapped in
      let (fine, still) : ((kube.create_config_map ns map w).0 ≡ none)
          × IsOpen (kube.create_config_map ns map w).1 =
        rw same taken in
      let u = (kube.create_config_map ns map w).1 in
      let mounted : Volume = record {
        name = m;
        persistent_volume_claim = none;
        config_map = some (record { default_mode = 256; name = m });
      } in
      (
        volumes ++ mounted ∷ [],
        u,
        rw (must-ok (kube.create_config_map ns map) w fine) refl,
        Vacant-config exists ns m w u vacant ((cluster.create_config_map ns map w).done fine),
        still,
      )

  must_parse-ok :
      (text : String) (q : Q) (w : W)
      → quantities.parse text ≡ inr q
      → must_parse quantities text w ≡ (ok q, w)
  unfolding must_parse
  must_parse-ok text q w h = rw (h, must_parse) refl

  create_deployment-ok :
      (mounts : List VolumeMount) (volumes : List Volume) (w : W)
      → exists w (deployment ns input.module_id) ≡ false
      → IsOpen w
      → (u : W) × (create_deployment quantities kube ns
            (deployment_for quantities ns input accepts.cpus accepts.memory mounts volumes)
            w
          ≡ (ok (record { status = pending; message = "pending" }, none), u))
  unfolding create_deployment run_reply
  create_deployment-ok mounts volumes w h opened =
      let d = deployment_for quantities ns input accepts.cpus accepts.memory mounts volumes in
      (
        (kube.create_deployment ns d w).1,
        rw (accepts.create_deployment mounts volumes w opened h) refl,
      )

  start_module-ok :
      (mounts : List VolumeMount) (volumes : List Volume) (w : W)
      → Vacant exists ns input.module_id w
      → IsOpen w
      → (u : W) × (start_module quantities kube ns input mounts volumes w
          ≡ (ok (record { status = pending; message = "pending" }, none), u))
  unfolding start_module service_for get_service_name
  start_module-ok mounts volumes w h opened =
      let s = service_for ns input in
      let (fine, still) = accepts.create_service w opened h.served in
      let w₁ = (kube.create_service ns s w).1 in
      let grown = (cluster.create_service ns s w).done fine in
      let (u, done) =
        create_deployment-ok mounts volumes w₁
          (ground (arith, grown.after (deployment ns input.module_id), h.deployed)) still in
      (
        u,
        rw
            (
              must-ok (kube.create_service ns s) w fine,
              must_parse-ok _ accepts.cpus w₁ accepts.cpus_parsed,
              must_parse-ok _ accepts.memory w₁ accepts.memory_parsed,
            )
            done,
      )

  run_steps-ok :
      (w : W)
      → Unused exists ns input.module_id 0 w
      → IsOpen w
      → (u : W) × (run_steps quantities kube ns input w
          ≡ (ok (record { status = pending; message = "pending" }, none), u))
  unfolding run_steps
  run_steps-ok w h opened =
      let (made, w₁, mounted, unmapped, vacant, still) =
        create_volumes-ok 0 input.volumes [] [] w (λ j v n. n) h opened in
      let files = add_config_files input.module_id 0 input.config_files Dict.empty made.0 in
      let (volumes, w₂, configured, free, last) =
        create_config-ok files.0 made.0 made.1 w₁ refl unmapped vacant still in
      let (u, done) = start_module-ok files.1 volumes w₂ free last in
      (u, rw (mounted, configured) done)

-- On a cluster that behaves as `IsCluster` and `Accepts` say, in an open namespace: a run of a module
-- of which nothing is there, no claim, no config map, no service and no deployment, returns no error.
pub run_baltic_module-ok :
    {Q W : Type 0} (quantities : Quantities Q) (kube : Kube Q W) (exists : W → Ref → Bool)
    → IsCluster kube exists
    → (IsOpen : W → Type 0) (proxy : ClusterProxyConf) (input : XBalticModuleBuild)
    → Accepts quantities kube exists IsOpen (get_ns_name_for_batch proxy input.batch_id) input
    → (w : W) → Unused exists (get_ns_name_for_batch proxy input.batch_id) input.module_id 0 w
    → IsOpen w
    → (u : W) × (run_baltic_module quantities kube proxy input w
        ≡ (ok (record { status = pending; message = "pending" }, none), u))
unfolding run_baltic_module
run_baltic_module-ok quantities kube exists cluster IsOpen proxy input accepts w h opened =
    let (u, done) =
      run_steps-ok quantities kube exists cluster IsOpen
        (get_ns_name_for_batch proxy input.batch_id) input accepts w h opened in
    (u, rw done refl)
