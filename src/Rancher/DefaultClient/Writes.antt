-- ===== src/Rancher/DefaultClient/Writes.antt =====
-- upstream/rancher-go/client/client.go: what the client changes in Rancher.
use balticlsc_platform.Common.{
  String, ◌<>◌, ℕ, Bool, true, false, List, [], ◌∷◌, Option, none, some, ◌==◌, not, if◌then◌else◌,
  Error, ok, err, panicked, Exec, pure, raise, ◌>>=◌, ◌>>◌, show_nat, for_each,
}
use balticlsc_platform.Rancher.Types.{Member, Project, compare, member_type_user, member_type_group}
use balticlsc_platform.Rancher.Http.{
  Response, Transport, Gjson, Payload, http_post, http_put, http_delete, text, flag, limit,
}
use balticlsc_platform.Rancher.DefaultClient.{Settings, has_status, query, get_project_detail}

unfoldable pub has_member : List Member → Member → Bool
has_member [] target = false
has_member (m ∷ members) target =
    let rest = has_member members target in if compare m target then true else rest

-- The members of `wanted` that `others` lacks: the loops of `UpdateProject` that collect members.
unfoldable pub missing_from : List Member → List Member → List Member
missing_from others [] = []
missing_from others (m ∷ wanted) =
    let rest = missing_from others wanted in if not (has_member others m) then m ∷ rest else rest

unfoldable pub project_payload : String → Project → Payload
project_payload cluster project =
    ("type", text "project")
    ∷ ("name", text project.name)
    ∷ ("clusterId", text cluster)
    ∷ ("podSecurityPolicyTemplateId", text project.pod_security_policy_id)
    ∷ ("description", text project.description)
    ∷ ("resourceQuota", limit project.resource_quotas.project)
    ∷ ("namespaceDefaultResourceQuota", limit project.resource_quotas.namespace)
    ∷ []

unfoldable pub binding_payload : String → Member → String → String → Payload
binding_payload project member group user =
    ("type", text "projectRoleTemplateBinding")
    ∷ ("subjectKind", text member.member_type)
    ∷ ("userId", text member.user_id)
    ∷ ("projectRoleTemplateId", text "")
    ∷ ("projectId", text project)
    ∷ ("groupPrincipalId", text group)
    ∷ ("userPrincipalId", text user)
    ∷ ("roleTemplateId", text member.role_template_id)
    ∷ []

-- The `switch` over the type of a member; `none` is its default case.
unfoldable pub member_payload : String → Member → Option Payload
unfolding binding_payload
member_payload project member =
    if member.member_type == member_type_user
    then some (binding_payload project member "" member.principal_id)
    else if member.member_type == member_type_group
    then some (binding_payload project member member.principal_id "")
    else none

-- An error is logged only.
abbrev pub logged : {W : Type 0} → Exec W (Unit {0}) → Exec W (Unit {0})
logged m w =
    let (r, w') = m w in
    elim r [ ok t ↦ (ok t, w') | err e ↦ (ok tt, w') | panicked e ↦ (panicked e, w') ]

module _ {W : Type 0} (send : Transport W) (settings : Settings) {J : Type 0}
    (gjson : Gjson J) where
  unfoldable pub expect : ℕ → String → Response → Exec W (Unit {0})
  expect code message resp =
      if has_status code resp then pure tt else raise (message <> show_nat resp.status_code)

  unfoldable pub add_project_member : String → Member → Exec W (Unit {0})
  unfolding member_payload expect
  add_project_member project member = elim (member_payload project member) [
    | none ↦ raise "invalid member type"
    | some payload ↦ do
      resp ← query gjson send settings http_post "/v3/projectroletemplatebinding" (some payload)
      expect 201 "add project member failed, code=" resp
  ]

  unfoldable pub set_project_psp : String → String → Exec W (Unit {0})
  set_project_psp project policy = do
    resp ←
        query gjson send settings http_post
          ("/v3/projects/" <> project <> "?action=setpodsecuritypolicytemplate")
          (some (("podSecurityPolicyTemplateId", text policy) ∷ []))
    pure tt

  unfoldable pub delete_at : String → Exec W (Unit {0})
  unfolding expect
  delete_at path = do
    resp ← query gjson send settings http_delete path none
    expect 200 "delete failed, response=" resp

  unfoldable pub delete_project_member : String → Exec W (Unit {0})
  delete_project_member id = delete_at ("/v3/projectRoleTemplateBindings/" <> id)

  unfoldable pub delete_project : String → Exec W (Unit {0})
  delete_project id = delete_at ("/v3/projects/" <> id)

  unfoldable pub delete_user : String → Exec W (Unit {0})
  delete_user id = delete_at ("/v3/users/" <> id)

  unfoldable pub add_user : String → String → Exec W String
  add_user username password = do
    resp ← query gjson send settings http_post "/v3/users" (
        some (
          ("enbled", flag true)
          ∷ ("me", flag false)
          ∷ ("mustChangePassword", flag false)
          ∷ ("username", text username)
          ∷ ("name", text username)
          ∷ ("password", text password)
          ∷ []))
    pure (gjson.string (gjson.get_path resp.body "id"))

  -- The end of `CreateProject`, for a project that has its ID: an ID is returned beside an error.
  unfoldable pub set_up_project : String → Project → Exec W (String × Option Error)
  set_up_project id project = do
    for_each project.members (λ m. logged (add_project_member id m))
    λ w.
        let (r, w') = set_project_psp id project.pod_security_policy_id w in
        elim r [
          | ok t ↦ (ok (id, none), w')
          | err e ↦ (ok (id, some e), w')
          | panicked e ↦ (panicked e, w')
        ]

  unfoldable pub created_project : Project → Response → Exec W (String × Option Error)
  created_project project resp =
      let id = gjson.string (gjson.get_path resp.body "id") in
      if not (has_status 201 resp)
      then pure ("", some ("created project failed, statuscode=" <> show_nat resp.status_code))
      else if id == ""
      then pure ("", some "created projectID not found")
      else set_up_project id project

  unfoldable pub create_project : String → Project → Exec W (String × Option Error)
  create_project cluster project w =
      let (r, w') =
        query gjson send settings http_post "/v3/project?_replace=true"
          (some (project_payload cluster project)) w in
      elim r [
        | ok resp ↦ created_project project resp w'
        | err e ↦ (ok ("", some e), w')
        | panicked e ↦ (panicked e, w')
      ]

  -- The changes of the members in `UpdateProject`: errors are logged only.
  unfoldable pub update_members : String → List Member → List Member → Exec W (Unit {0})
  update_members id old wanted = do
    for_each (missing_from old wanted) (λ m. logged (add_project_member id m))
    for_each (missing_from wanted old) (λ m. logged (delete_project_member m.id))

  unfoldable pub update_policy : String → Project → Project → Exec W (Unit {0})
  update_policy id old project =
      if old.pod_security_policy_id == project.pod_security_policy_id
      then pure tt
      else set_project_psp id project.pod_security_policy_id

  -- The status of the answer to the PUT is not looked at.
  unfoldable pub update_project : String → String → Project → Exec W (Unit {0})
  update_project cluster id project = do
    old ← get_project_detail gjson send settings id
    resp ←
        query gjson send settings http_put ("/v3/projects/" <> id <> "?_replace=true")
          (some (("id", text id) ∷ project_payload cluster project))
    update_policy id old project
    update_members id old.members project.members
