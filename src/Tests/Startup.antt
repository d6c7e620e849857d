-- ===== src/Tests/Startup.antt =====
-- The start of the cluster proxy and its namespaces, at concrete inputs.
use balticlsc_platform.Common.{
  String, ℕ, false, [], none, some, ◌==◌, if◌then◌else◌, ok, Exec, ◌≡◌, ◌↔◌, refl, inr,
}
use balticlsc_platform.Common.Dict
use balticlsc_platform.Common.Dict.{Dict}
use balticlsc_platform.Namespace.Resolver.{UserProjectInfo, project_info}
use balticlsc_platform.Namespace.Admission.{Codec, Verdict, review}
use balticlsc_platform.ClusterProxy.Proto.{XWorkspace}
use balticlsc_platform.ClusterProxy.Kube.{Kube}
use balticlsc_platform.ClusterProxy.Conf.{ClusterProxyConf}
use balticlsc_platform.ClusterProxy.Startup.{Platform, Proxy, setup_from, start}
use balticlsc_platform.ClusterProxy.Startup.Begun.{IsComplete, IsBegun}
use balticlsc_platform.ClusterProxy.Startup.Boots.{Boots, start-IsBegun}
use balticlsc_platform.ClusterProxy.Placed.{namespace_object, IsWorkspaceOf, review-workspace}
use balticlsc_platform.Tests.Cluster.{
  directory, rancher, runtime, start as resolver, rancher-Serves,
}
use balticlsc_platform.Tests.Resolver.{start-IsFresh}
use balticlsc_platform.Tests.Admission.{codec, request}
use balticlsc_platform.Tests.Memory.{described, no_node}
use balticlsc_platform.Rancher.DefaultClient.{
  get_project_detail, get_project_quotas, query, get_project_members,
}
use balticlsc_platform.Rancher.DefaultClient.Reader.{default_client}
use balticlsc_platform.Tests.Server.{gjson, send}

abbrev pub proxy : ClusterProxyConf
proxy = record { cluster_id = "c"; project_id = "p1"; project_name = "alice"; debug = false }

abbrev batch : XWorkspace
batch = record { batch_id = "b1"; quota = none }

-- The codec reads the namespace of the batch.
abbrev reading : Codec ℕ
reading = record codec { unmarshal_namespace = λ raw. inr (some (namespace_object proxy batch)) }

abbrev alice : UserProjectInfo
alice = record { is_owner = false; project_id = "p1"; project_name = "alice" }

review-workspace_example :
    (v : Verdict) × ((review reading rancher runtime (request "Namespace" "alice") resolver).0
      ≡ ok (some v))
    × IsWorkspaceOf alice batch v
unfolding project_info
review-workspace_example =
    review-workspace reading rancher runtime directory (request "Namespace" "alice") resolver alice
      proxy batch rancher-Serves start-IsFresh refl refl refl refl

abbrev environment : String → String
environment name =
    if name == "RANCHER_CLUSTER_ID"
    then "c"
    else if name == "RANCHER_PROJECT_ID"
    then "p1"
    else if name == "RANCHER_URL"
    then "https://rancher"
    else if name == "RANCHER_TOKEN"
    then "token"
    else ""

abbrev give : {A : Type 0} → A → Exec (Unit {0}) A
give a w = (ok a, w)

abbrev idle : Kube ℕ (Unit {0})
idle = record {
  create_namespace = λ ns w. ((ns, none), w);
  get_namespace = λ name w. ((record { name = name; annotations = []; phase = "Active" }, none), w);
  delete_namespace = λ _ w. (none, w);
  create_pvc = λ _ _ w. (none, w);
  create_config_map = λ _ _ w. (none, w);
  create_service = λ _ _ w. (none, w);
  create_deployment = λ _ _ w. (none, w);
  get_deployment = λ _ _ w. ((described "" "" [], none), w);
  delete_deployment = λ _ _ w. (none, w);
  delete_service = λ _ _ w. (none, w);
  delete_pvc = λ _ _ w. (none, w);
  delete_config_map = λ _ _ w. (none, w);
  list_nodes = λ w. (([], none), w);
  get_node = λ _ w. ((no_node, none), w);
}

abbrev platform : Platform Unit Unit Unit Unit String ℕ Unit
platform = record {
  get_env = environment;
  kubeconfig_flag = give;
  build_config = λ path. give tt;
  with_insecure = λ b c. c;
  new_clientset = λ c. give tt;
  new_dynamic = λ c. give tt;
  new_discovery = λ c. give tt;
  kube = λ a b c. idle;
  skip_verify = λ w. w;
  listen = give;
  serve = λ l s. give tt;
}

platform-Boots : Boots gjson send platform
unfolding setup_from default_client get_project_detail get_project_quotas query get_project_members
    Dict.lookup
platform-Boots = record {
  path = "/config";
  kubeconfig_flag = λ w. (w, refl);
  read = tt;
  build_config = λ w. (w, refl);
  new_clientset = λ w. (tt, w, refl);
  new_dynamic = λ w. (tt, w, refl);
  new_discovery = λ w. (tt, w, refl);
  project = λ w. (_, w, refl);
  listen = λ w. (":50051", w, refl);
}

start-IsBegun_example : IsComplete platform.get_env ↔ (
    (p : Proxy ℕ (Unit {0})) × (l : String) × (w : Unit {0}) × (start gjson send platform tt
      ≡ (ok (p, l), w))
    × IsBegun gjson send platform p l)
start-IsBegun_example = start-IsBegun gjson send platform tt platform-Boots
