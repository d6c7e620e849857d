-- ===== src/Tests/Memory.antt =====
-- A cluster in memory: what is there, and the volumes of the deployments.
use balticlsc_platform.Common.{
  String, ℕ, Bool, true, false, not, List, [], Option, none, some, ◌==◌, ◌&&◌, ◌||◌, if◌then◌else◌,
  Error, ◌≡◌, refl, arith, subst, eq_refl,
}
use balticlsc_platform.ClusterProxy.Kube.{Kube, Volume, Deployment, Namespace, Node}
use balticlsc_platform.ClusterProxy.Cluster.{
  Ref, claim, config, service, deployment, same, same-eq, Creates, Deletes, IsCluster,
}

pub record World : Type 0 where
  pub there : Ref → Bool
  pub volumes : String → String → List Volume

abbrev created : Ref → World → Bool → Option Error × World
created r w true = (some "exists", w)
created r w false = (none, record { there = λ s. same r s || w.there s; volumes = w.volumes })

abbrev add : Ref → World → Option Error × World
add r w = created r w (w.there r)

abbrev removed : Ref → World → Bool → Option Error × World
removed r w true = (none, record { there = λ s. not (same r s) && w.there s; volumes = w.volumes })
removed r w false = (some "not found", w)

abbrev remove : Ref → World → Option Error × World
remove r w = removed r w (w.there r)

abbrev pub exists : World → Ref → Bool
exists w r = w.there r

created-Creates :
    (r : Ref) (w : World) (b : Bool)
    → w.there r ≡ b
    → Creates exists r w (created r w b).0 (created r w b).1
created-Creates r w true h = record { done = λ e. cc; failed = λ e s. refl }
created-Creates r w false h = record {
  done = λ e. record {
    after = λ s. ground arith;
    fresh = λ s l. subst (λ x. w.there x ≡ false) (same-eq r s (ground arith)) h;
    separate = (refl, tt);
  };
  failed = λ e. elim (e refl) [ ];
}

removed-Deletes :
    (r : Ref) (w : World) (b : Bool) → Deletes exists r w (removed r w b).0 (removed r w b).1
removed-Deletes r w true = record {
  done = λ e. record { after = λ s. ground arith };
  failed = λ e. elim (e refl) [ ];
}
removed-Deletes r w false = record { done = λ e. cc; failed = λ e s. refl }

abbrev pub described : String → String → List Volume → Deployment ℕ
described ns name volumes = record {
  namespace = ns;
  name = name;
  labels = [];
  replicas = 1;
  match_labels = [];
  template_labels = [];
  affinity = none;
  containers = [];
  volumes = volumes;
  conditions = [];
}

abbrev read : String → String → World → Bool → Deployment ℕ × Option Error
read ns name w true = (described ns name (w.volumes ns name), none)
read ns name w false = (described "" "" [], some "not found")

abbrev keep : String → String → List Volume → World → World
keep ns name volumes w = record {
  there = w.there;
  volumes = λ a b. if a == ns && b == name then volumes else w.volumes a b;
}

abbrev deploy : Deployment ℕ → String → World → Bool → Option Error × World
deploy d ns w true = (some "exists", w)
deploy d ns w false = (none, keep ns d.name d.volumes (created (deployment ns d.name) w false).1)

abbrev no_namespace : World → (Namespace × Option Error) × World
no_namespace w = ((record { name = ""; annotations = []; phase = "" }, none), w)

abbrev pub no_node : Node ℕ
no_node = record {
  name = "";
  labels = [];
  kernel_version = "";
  os_image = "";
  kubelet_version = "";
  unschedulable = false;
  capacity = [];
  allocatable = [];
  conditions = [];
}

abbrev pub memory : Kube ℕ World
memory = record {
  create_namespace = λ _. no_namespace;
  get_namespace = λ _. no_namespace;
  delete_namespace = λ _ w. (none, w);
  create_pvc = λ ns p. add (claim ns p.name);
  create_config_map = λ ns c. add (config ns c.name);
  create_service = λ ns s. add (service ns s.name);
  create_deployment = λ ns d w. deploy d ns w (w.there (deployment ns d.name));
  get_deployment = λ ns name w. (read ns name w (w.there (deployment ns name)), w);
  delete_deployment = λ ns name. remove (deployment ns name);
  delete_service = λ ns name. remove (service ns name);
  delete_pvc = λ ns name. remove (claim ns name);
  delete_config_map = λ ns name. remove (config ns name);
  list_nodes = λ w. (([], none), w);
  get_node = λ _ w. ((no_node, none), w);
}

deploy-Creates :
    (d : Deployment ℕ) (ns : String) (w : World) (b : Bool)
    → w.there (deployment ns d.name) ≡ b
    → Creates exists (deployment ns d.name) w (deploy d ns w b).0 (deploy d ns w b).1
deploy-Creates d ns w true h = created-Creates (deployment ns d.name) w true h
deploy-Creates d ns w false h =
    let c = created-Creates (deployment ns d.name) w false h in
    record {
      done = λ e. record {
        after = (c.done refl).after;
        fresh = (c.done refl).fresh;
        separate = (refl, tt);
      };
      failed = λ e. elim (e refl) [ ];
    }

chosen : (a b : String) (x y : List Volume) → (if a == a && b == b then x else y) ≡ x
chosen a b x y = rw (eq_refl a, eq_refl b) refl

read_kept :
    (ns name : String) (volumes : List Volume) (w : World) (b : Bool)
    → b ≡ true
    → (read ns name (keep ns name volumes w) b).0.volumes ≡ volumes
read_kept ns name volumes w true h = chosen ns name volumes (w.volumes ns name)
read_kept ns name volumes w false h = cc

deployed_volumes :
    (d : Deployment ℕ) (ns : String) (w : World) (b : Bool)
    → (deploy d ns w b).0 ≡ none
    → (memory.get_deployment ns d.name (deploy d ns w b).1).0.0.volumes ≡ d.volumes
deployed_volumes d ns w true h = cc
deployed_volumes d ns w false h =
    read_kept ns d.name d.volumes (created (deployment ns d.name) w false).1 _
      (rw (eq_refl ns, eq_refl d.name) refl)

pub memory-IsCluster : IsCluster memory exists
memory-IsCluster = record {
  create_pvc = λ ns p w. created-Creates (claim ns p.name) w _ refl;
  create_config_map = λ ns c w. created-Creates (config ns c.name) w _ refl;
  create_service = λ ns s w. created-Creates (service ns s.name) w _ refl;
  create_deployment = λ ns d w. deploy-Creates d ns w _ refl;
  delete_pvc = λ ns name w. removed-Deletes (claim ns name) w _;
  delete_config_map = λ ns name w. removed-Deletes (config ns name) w _;
  delete_service = λ ns name w. removed-Deletes (service ns name) w _;
  delete_deployment = λ ns name w. removed-Deletes (deployment ns name) w _;
  get_deployment = λ ns name w r. refl;
  read_back = λ ns d w h. deployed_volumes d ns w _ h;
  absent = λ ns name w h. rw h refl;
}
