-- ===== src/Rancher/DefaultClient/Reader.antt =====
-- upstream/rancher-go/client/client.go: the LDAP groups of a project, and the default client as the
-- interface that the other programs take.
use balticlsc_platform.Common.{
  String, ◌<>◌, List, [], ◌∷◌, map, none, Result, ok, err, panicked, Exec, pure, ◌>>=◌,
}
use balticlsc_platform.Rancher.Types.{Member}
use balticlsc_platform.Rancher.Client.{Client}
use balticlsc_platform.Rancher.Http.{Transport, Gjson, http_get}
use balticlsc_platform.Rancher.Bytes.{Bytes, bytes_of}
use balticlsc_platform.Rancher.Ldap.{parse_group_from_principal_id}
use balticlsc_platform.Rancher.DefaultClient.{
  Settings, parse_values, member_of, query, get_project_members, get_project_quotas,
  get_project_detail, get_namespaces, get_projects, get_project_namespaces, get_clusters,
  get_kube_config, get_user_token,
}
use balticlsc_platform.Rancher.DefaultClient.Writes.{
  add_project_member, delete_project, delete_user, add_user, create_project, update_project,
}

-- A group that was read joins the others, unless it is empty; an invalid ID is logged only.
unfoldable pub with_group : Result Bytes → Result (List Bytes) → Result (List Bytes)
with_group (panicked e) rest = panicked e
with_group (err e) rest = rest
with_group (ok []) rest = rest
with_group (ok (c ∷ g)) (ok groups) = ok ((c ∷ g) ∷ groups)
with_group (ok (c ∷ g)) (err e) = err e
with_group (ok (c ∷ g)) (panicked e) = panicked e

-- The loop over the principal IDs; an empty ID is skipped.
unfoldable pub groups_of : List Bytes → Result (List Bytes)
unfolding with_group
groups_of [] = ok []
groups_of ([] ∷ ids) = groups_of ids
groups_of ((c ∷ id) ∷ ids) = with_group (parse_group_from_principal_id (c ∷ id)) (groups_of ids)

module _ {J W : Type 0} (gjson : Gjson J) (send : Transport W) (settings : Settings) where
  unfoldable pub get_project_groups : String → Exec W (List Bytes)
  get_project_groups id = do
    resp ←
        query gjson send settings http_get ("/v3/projects/" <> id <> "/projectroletemplatebindings")
          none
    λ w. (groups_of (map bytes_of (parse_values gjson resp.body "data.#.groupPrincipalId")), w)

  -- `GetProjectID` reads the same as `GetProjectMembers`.
  unfoldable pub get_project_id : String → Exec W (List Member)
  get_project_id id = do
    resp ←
        query gjson send settings http_get ("/v3/projects/" <> id <> "/projectroletemplatebindings")
          none
    pure (map (member_of gjson) (gjson.array (gjson.get_path resp.body "data")))

  -- `NewClient`
  unfoldable pub default_client : Client W
  default_client = record {
    get_clusters = get_clusters gjson send settings;
    get_namespaces = get_namespaces gjson send settings;
    get_projects = get_projects gjson send settings;
    get_project_namespaces = get_project_namespaces gjson send settings;
    get_project_groups = get_project_groups;
    get_project_quotas = get_project_quotas gjson send settings;
    get_project_members = get_project_members gjson send settings;
    get_project_detail = get_project_detail gjson send settings;
    create_project = create_project send settings gjson;
    delete_project = delete_project send settings gjson;
    update_project = update_project send settings gjson;
    add_project_member = add_project_member send settings gjson;
    add_user = add_user send settings gjson;
    delete_user = delete_user send settings gjson;
    get_kube_config = get_kube_config gjson send settings;
    get_user_token = get_user_token gjson send settings;
  }
