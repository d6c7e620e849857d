-- ===== src/Rancher/DefaultClient.antt =====
-- upstream/rancher-go/client/client.go, and parsers.go as far as it uses it: what the client reads from
-- Rancher. What it changes is in DefaultClient/Writes.
pub mod Writes
pub mod Members
pub mod Requests
pub mod Entities
pub mod Reader
use Prim.Native.Nat.{compare, Ordering}
use balticlsc_platform.Common.{
  String, ◌<>◌, ℕ, Bool, true, false, List, [], ◌∷◌, map, Option, none, some, ◌==◌, ◌||◌, not,
  if◌then◌else◌, Exec, pure, raise, ◌>>=◌, show_nat,
}
use balticlsc_platform.Common.Dict
use balticlsc_platform.Common.Dict.{Dict}
use balticlsc_platform.Rancher.Types.{
  Entity, Quotas, ProjectQuotas, Member, member_type_user, member_type_group, Project,
}
use balticlsc_platform.Rancher.Http.{
  Response, Transport, Gjson, Payload, Method, http_get, http_post, text,
}

pub record Settings : Type 0 where
  pub server_url : String
  pub token : String

abbrev pub has_status : ℕ → Response → Bool
has_status code resp = elim (compare resp.status_code code) [ Ordering.eq ↦ true | _ ↦ false ]

module _ {J : Type 0} (gjson : Gjson J) where
  unfoldable pub parse_values : String → String → List String
  parse_values body path = map gjson.string (gjson.array (gjson.get_path body path))

  abbrev pub field : String → J → String
  field name item = gjson.string (gjson.get name item)

  -- The loop over the items: one without a name or an ID is skipped.
  unfoldable pub entities_of : List (J × J) → List Entity
  entities_of [] = []
  entities_of ((_, item) ∷ items) =
      let rest = entities_of items in
      if field "name" item == "" || field "id" item == ""
      then rest
      else record { id = field "id" item; name = field "name" item } ∷ rest

  unfoldable pub parse_entities : String → String → List Entity
  unfolding entities_of
  parse_entities body path = entities_of (gjson.entries (gjson.get_path body path))

  -- The body of the loop over the bindings of a project.
  unfoldable pub member_of : J → Member
  member_of item =
      let user = field "userPrincipalId" item in
      record {
        id = field "id" item;
        user_id = field "userId" item;
        project_id = field "projectId" item;
        member_type = if user == "" then member_type_group else member_type_user;
        principal_id = if user == "" then field "groupPrincipalId" item else user;
        role_template_id = field "roleTemplateId" item;
      }

  -- The loop that fills a map of quotas.
  unfoldable pub read_quotas : List (J × J) → Quotas → Quotas
  read_quotas [] q = q
  read_quotas ((key, value) ∷ more) q =
      read_quotas more (Dict.insert (gjson.string key) (gjson.string value) q)

  unfoldable pub quotas_from : String → ProjectQuotas
  unfolding read_quotas
  quotas_from body = record {
    project = read_quotas (gjson.entries (gjson.get_path body "resourceQuota.limit")) [];
    used = read_quotas (gjson.entries (gjson.get_path body "resourceQuota.usedLimit")) [];
    namespace =
        read_quotas (gjson.entries (gjson.get_path body "namespaceDefaultResourceQuota.limit")) [];
  }

  module _ {W : Type 0} (send : Transport W) (settings : Settings) where
    -- A request under the server's URL, with the token.
    unfoldable pub query : Method → String → Option Payload → Exec W Response
    query method path payload = send (record {
      method = method;
      url = settings.server_url <> path;
      token = some settings.token;
      payload = payload;
    })

    unfoldable pub get_project_members : String → Exec W (List Member)
    get_project_members id = do
      resp ← query http_get ("/v3/projects/" <> id <> "/projectroletemplatebindings") none
      pure (map member_of (gjson.array (gjson.get_path resp.body "data")))

    unfoldable pub get_project_quotas : String → Exec W ProjectQuotas
    get_project_quotas id = do
      resp ← query http_get ("/v3/projects/" <> id) none
      pure (quotas_from resp.body)

    unfoldable pub project_from : String → ProjectQuotas → List Member → Response → Exec W Project
    project_from id quotas members resp =
        if not (has_status 200 resp)
        then raise ("GetProjectDetail() failed: statusCode=" <> show_nat resp.status_code)
        else pure (record {
          id = id;
          name = gjson.string (gjson.get_path resp.body "name");
          description = gjson.string (gjson.get_path resp.body "description");
          pod_security_policy_id =
              gjson.string (gjson.get_path resp.body "podSecurityPolicyTemplateId");
          members = members;
          resource_quotas = quotas;
        })

    unfoldable pub get_project_detail : String → Exec W Project
    unfolding project_from
    get_project_detail id = do
      quotas ← get_project_quotas id
      members ← get_project_members id
      resp ← query http_get ("/v3/projects/" <> id) none
      project_from id quotas members resp

    unfoldable pub get_namespaces : String → Exec W (List String)
    get_namespaces cluster = do
      resp ← query http_get ("/v3/cluster/" <> cluster <> "/namespaces") none
      pure (parse_values resp.body "data.#.id")

    unfoldable pub get_projects : String → Exec W (List Entity)
    get_projects cluster = do
      resp ← query http_get ("/v3/cluster/" <> cluster <> "/projects") none
      pure (parse_entities resp.body "data")

    unfoldable pub get_project_namespaces : String → String → Exec W (List String)
    get_project_namespaces cluster project = do
      resp ← query http_get ("/v3/cluster/" <> cluster <> "/namespaces?projectId=" <> project) none
      pure (parse_values resp.body "data.#.id")

    unfoldable pub get_clusters : Exec W (List Entity)
    get_clusters = do
      resp ← query http_get "/v3/clusters/" none
      pure (parse_entities resp.body "data")

    unfoldable pub get_kube_config : String → Exec W String
    get_kube_config cluster = do
      resp ← query http_post ("/v3/clusters/" <> cluster <> "/?action=generateKubeconfig") none
      pure (gjson.string (gjson.get_path resp.body "config"))

    -- The login is sent without the token.
    unfoldable pub get_user_token : String → String → Exec W String
    get_user_token username password = do
      resp ← send (record {
        method = http_post;
        url = settings.server_url <> "/v3-public/localProviders/local?action=login";
        token = none;
        payload = some (("username", text username) ∷ ("password", text password) ∷ []);
      })
      pure (gjson.string (gjson.get_path resp.body "token"))
