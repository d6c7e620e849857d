-- ===== src/Tests/Cluster.antt =====
-- A small cluster: a Rancher client that answers from a fixed directory, over a world with no state.
use balticlsc_platform.Common.{String, List, [], ◌∷◌, ◌==◌, if◌then◌else◌, Exec, ok, err, refl}
use balticlsc_platform.Rancher.Types.{Member, ProjectQuotas}
use balticlsc_platform.Rancher.Client.{Client}
use balticlsc_platform.Namespace.Resolver.{ProjectResolver, Runtime, empty_cache}
use balticlsc_platform.Namespace.Resolver.Refresh.{Directory, Serves}
use balticlsc_platform.Namespace.Resolver.Users.{RangesOverKeys}

abbrev pub binding : String → String → String → Member
binding user project role = record {
  id = project;
  user_id = user;
  project_id = project;
  member_type = "User";
  principal_id = user;
  role_template_id = role;
}

abbrev members_of : String → List Member
members_of id =
    if id == "p1"
    then binding "alice" "p1" "project-member" ∷ binding "root" "p1" "project-owner" ∷ []
    else if id == "p2"
    then binding "root" "p2" "project-owner" ∷ binding "" "p2" "project-owner" ∷ []
    else []

abbrev namespaces_of : String → List String
namespaces_of id = if id == "p1" then "alice-ns" ∷ [] else if id == "p2" then "ops" ∷ [] else []

abbrev pub directory : Directory
directory = record {
  projects =
      record { id = "p1"; name = "alice" }
      ∷ record { id = "p2"; name = "ops" }
      ∷ record { id = "p3"; name = "void" }
      ∷ [];
  members = members_of;
  namespaces = namespaces_of;
}

abbrev World : Type 0
World = Unit {0}

abbrev pub no_quotas : ProjectQuotas
no_quotas = record { project = []; used = []; namespace = [] }

abbrev refuse : {W A : Type 0} → Exec W A
refuse w = (err "not served", w)

abbrev pub rancher_over : (W : Type 0) → Client W
rancher_over W = record {
  get_clusters = refuse;
  get_namespaces = λ _. refuse;
  get_projects = λ _ w. (ok directory.projects, w);
  get_project_namespaces = λ _ id w. (ok (namespaces_of id), w);
  get_project_groups = λ _. refuse;
  get_project_quotas = λ _ w. (ok no_quotas, w);
  get_project_members = λ id w. (ok (members_of id), w);
  get_project_detail = λ _. refuse;
  create_project = λ _ _. refuse;
  delete_project = λ _. refuse;
  update_project = λ _ _ _. refuse;
  add_project_member = λ _ _. refuse;
  add_user = λ _ _. refuse;
  delete_user = λ _. refuse;
  get_kube_config = λ _. refuse;
  get_user_token = λ _ _. refuse;
}

abbrev pub rancher : Client World
rancher = rancher_over World

abbrev pub runtime : Runtime World
runtime = record { opa_put = λ c w. (ok 200, w); shuffle = λ names w. (names, w) }

abbrev pub start : ProjectResolver World
start = record { cluster_id = "c"; cache = empty_cache; world = tt }

pub rancher-Serves : Serves rancher runtime "c" directory
rancher-Serves = record {
  projects = λ w. refl;
  members = λ id w. refl;
  namespaces = λ id w. refl;
  opa = λ c w. (200, refl);
}

pub runtime-RangesOverKeys : RangesOverKeys runtime
runtime-RangesOverKeys names w k = refl
