-- ===== src/ClusterProxy/Run.antt =====
-- cluster-proxy/server/main.go: `RunBalticModule`.
use balticlsc_platform.Common.{
  String, ◌<>◌, ℕ, suc, ◌+◌, List, [], ◌∷◌, ◌++◌, map, Option, none, some, ◌==◌, if◌then◌else◌,
  Error, inl, inr, Result, ok, err, panicked, Exec, pure, ◌>>=◌, ◌>>◌, show_nat,
}
use balticlsc_platform.Common.Dict
use balticlsc_platform.Common.Dict.{Dict}
use balticlsc_platform.Common.Int.{ℤ, pos, scale, to_int32, show_int}
use balticlsc_platform.ClusterProxy.Proto.{
  pending, XBalticModuleBuild, XVolumeDescription, XConfigFileDescription, XPortMapping,
  XEnvironmentVariable, resources_of, gpus_of,
}
use balticlsc_platform.ClusterProxy.Kube.{
  Kube, Quantities, PersistentVolumeClaim, Service, ServicePort, ContainerPort, Volume, VolumeMount,
  EnvVar, NodeSelectorRequirement, Deployment,
}
use balticlsc_platform.ClusterProxy.Conf.{
  ClusterProxyConf, Reply, get_ns_name_for_batch, get_volume_name, get_service_name,
}
use balticlsc_platform.ClusterProxy.Workspace.{failure}

abbrev pub selector : String → Dict String
selector module_id = ("balticlsc/workloadselector", module_id) ∷ []

-- The size in bytes that a claim asks for: `int64(vol.GetSize() * 1024)`, the product in 32 bits.
unfoldable pub claim_bytes : XVolumeDescription → ℤ
claim_bytes vol = to_int32 (scale vol.size 1024)

abbrev pub volume_mount : String → ℕ → XVolumeDescription → VolumeMount
volume_mount m i vol = record {
  name = get_volume_name m i;
  mount_path = vol.mount_path;
  sub_path = "";
}

abbrev pub claim_volume : String → ℕ → Volume
claim_volume m i = record {
  name = get_volume_name m i;
  persistent_volume_claim = some (get_volume_name m i);
  config_map = none;
}

abbrev pub file_name : ℕ → String
file_name i = "file-" <> show_nat i

-- The loop over the config files: the data of the config map, and the mounts.
unfoldable pub add_config_files :
    String
    → ℕ
    → List XConfigFileDescription
    → Dict String
    → List VolumeMount
    → Dict String × List VolumeMount
add_config_files m i [] entries mounts = (entries, mounts)
add_config_files m i (f ∷ fs) entries mounts =
    add_config_files m (i + 1) fs (Dict.insert (file_name i) f.contents entries)
      (mounts ++ record { name = m; mount_path = f.mount_path; sub_path = file_name i } ∷ [])

-- The loop over the ports.
unfoldable pub service_ports : ℕ → List XPortMapping → List ServicePort
service_ports i [] = []
service_ports i (p ∷ ps) =
    record {
      port = to_int32 (pos p.container_port);
      protocol = p.protocol;
      name = "port-" <> show_nat i;
    }
    ∷ service_ports (i + 1) ps

unfoldable pub container_ports : List XPortMapping → List ContainerPort
container_ports =
    map (λ p. record { container_port = to_int32 (pos p.container_port); protocol = p.protocol })

unfoldable pub service_for : String → XBalticModuleBuild → Service
unfolding service_ports
service_for ns input = record {
  namespace = ns;
  name = get_service_name input.module_id;
  ports = service_ports 0 input.port_mappings;
  selector = selector input.module_id;
}

-- A node of the wanted type, if any accelerator is asked for; `none` is the empty affinity.
unfoldable pub affinity_for : XBalticModuleBuild → Option NodeSelectorRequirement
affinity_for input = elim (gpus_of input).quantity [
  | pos (suc _) ↦
      some (record { key = "accelerator"; operator = "In"; values = (gpus_of input).gpu_type ∷ [] })
  | _ ↦ none
]

unfoldable pub env_vars : List XEnvironmentVariable → List EnvVar
env_vars = map (λ e. record { name = e.key; value = e.value })

-- A call whose error ends the handler.
abbrev pub must : {W : Type 0} → (W → Option Error × W) → Exec W (Unit {0})
must f w = let (e, w') = f w in elim e [ none ↦ (ok tt, w') | some m ↦ (err m, w') ]

-- An error that ended the handler: the response says so, and the error is returned too.
abbrev pub as_reply : Result Reply → Result Reply
as_reply (ok r) = ok r
as_reply (err e) = ok (failure e)
as_reply (panicked e) = panicked e

-- The answer to the creation of the deployment.
unfoldable pub run_reply : Option Error → Reply
run_reply none = (record { status = pending; message = "pending" }, none)
run_reply (some e) = (record { status = pending; message = e }, some e)

module _ {Q : Type 0} (quantities : Quantities Q) where
  unfoldable pub volume_claim : String → String → ℕ → XVolumeDescription → PersistentVolumeClaim Q
  unfolding claim_bytes
  volume_claim ns m i vol = record {
    namespace = ns;
    name = get_volume_name m i;
    access_modes = "ReadWriteOnce" ∷ [];
    requests = ("storage", quantities.new_quantity (claim_bytes vol)) ∷ [];
    volume_mode = "Filesystem";
    storage_class_name = if vol.storage_class == "" then none else some vol.storage_class;
  }

  -- `resource.MustParse`
  unfoldable pub must_parse : {W : Type 0} → String → Exec W Q
  must_parse text w = elim (quantities.parse text) [ inl e ↦ (panicked e, w) | inr q ↦ (ok q, w) ]

  unfoldable pub deployment_for :
      String → XBalticModuleBuild → Q → Q → List VolumeMount → List Volume → Deployment Q
  unfolding container_ports env_vars affinity_for
  deployment_for ns input cpus memory mounts volumes = record {
    namespace = ns;
    name = input.module_id;
    labels = selector input.module_id;
    replicas = 1;
    match_labels = selector input.module_id;
    template_labels = selector input.module_id;
    affinity = affinity_for input;
    containers =
        record {
          name = input.module_id;
          image = input.image;
          ports = container_ports input.port_mappings;
          env = env_vars input.environment_variables;
          args = input.command_arguments;
          command = if input.command == "" then [] else input.command ∷ [];
          volume_mounts = mounts;
          limits =
              ("cpu", cpus)
              ∷ ("memory", memory)
              ∷ ("nvidia.com/gpu", quantities.new_quantity (gpus_of input).quantity)
              ∷ [];
          requests = ("cpu", cpus) ∷ ("memory", memory) ∷ [];
        }
        ∷ [];
    volumes = volumes;
    conditions = [];
  }

  module _ {W : Type 0} (kube : Kube Q W) where
    -- The loop over the volumes: each claim is created, then mounted.
    unfoldable pub create_volumes :
        String
        → String
        → ℕ
        → List XVolumeDescription
        → List VolumeMount
        → List Volume
        → Exec W (List VolumeMount × List Volume)
    create_volumes ns m i [] mounts volumes = pure (mounts, volumes)
    create_volumes ns m i (v ∷ vs) mounts volumes =
        must (kube.create_pvc ns (volume_claim ns m i v))
        >> create_volumes ns m (i + 1) vs (mounts ++ volume_mount m i v ∷ [])
            (volumes ++ claim_volume m i ∷ [])

    -- The config map, if there is data for it.
    unfoldable pub create_config :
        String → String → Dict String → List Volume → Exec W (List Volume)
    create_config ns m [] volumes = pure volumes
    create_config ns m (e ∷ es) volumes =
        must (kube.create_config_map ns (record { namespace = ns; name = m; entries = e ∷ es }))
        >> pure (
            volumes
            ++ record {
              name = m;
              persistent_volume_claim = none;
              config_map = some (record { default_mode = 256; name = m });
            }
              ∷ [])

    unfoldable pub create_deployment : String → Deployment Q → Exec W Reply
    unfolding run_reply
    create_deployment ns d w = let (e, w') = kube.create_deployment ns d w in (ok (run_reply e), w')

    -- From the service on.
    unfoldable pub start_module :
        String → XBalticModuleBuild → List VolumeMount → List Volume → Exec W Reply
    unfolding must_parse service_for
    start_module ns input mounts volumes = do
      must (kube.create_service ns (service_for ns input))
      cpus ← must_parse (show_int (resources_of input).cpus <> "m")
      memory ← must_parse (show_int (resources_of input).memory <> "Mi")
      create_deployment ns (deployment_for ns input cpus memory mounts volumes)

    unfoldable pub run_steps : String → XBalticModuleBuild → Exec W Reply
    run_steps ns input = do
      (mounts, volumes) ← create_volumes ns input.module_id 0 input.volumes [] []
      let files = add_config_files input.module_id 0 input.config_files Dict.empty mounts
      volumes' ← create_config ns input.module_id files.0 volumes
      start_module ns input files.1 volumes'

    unfoldable pub run_baltic_module : ClusterProxyConf → XBalticModuleBuild → Exec W Reply
    run_baltic_module proxy input w =
        let (r, w') = run_steps (get_ns_name_for_batch proxy input.batch_id) input w in
        (as_reply r, w')
