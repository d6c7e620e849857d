-- ===== src/Namespace/Resolver/OverHttp.antt =====
-- The resolver on the default client of upstream/rancher-go/client/client.go: what Rancher's answers
-- must show.
use balticlsc_platform.Common.{
  String, ◌<>◌, ℕ, true, false, List, [], ◌∷◌, map, none, some, ◌==◌, ok, ◌≡◌, ◌⊎◌, inl, inr, refl,
  arith, pure, ◌>>=◌,
}
use balticlsc_platform.Rancher.Types.{Entity, Member, member_type_user, member_type_group}
use balticlsc_platform.Rancher.Http.{Request, Response, Transport, Gjson, http_get}
use balticlsc_platform.Rancher.DefaultClient.{
  Settings, field, entities_of, member_of, parse_values, parse_entities, query, get_projects,
  get_project_members, get_project_namespaces,
}
use balticlsc_platform.Rancher.DefaultClient.Reader.{default_client}
use balticlsc_platform.Namespace.Resolver.{ProjectResolverCache, Runtime}
use balticlsc_platform.Namespace.Resolver.Refresh.{Directory, Serves}

module _ {J : Type 0} (gjson : Gjson J) where
  -- An item with the fields of an entity, both filled.
  pub record ShowsEntity (item : J) (e : Entity) : Type 0 where
    pub name : field gjson "name" item ≡ e.name
    pub id : field gjson "id" item ≡ e.id
    pub named : (e.name == "") ≡ false
    pub identified : (e.id == "") ≡ false

  -- The principal of a user or of a group, in the field of its kind.
  abbrev pub ShowsPrincipal : J → Member → Type 0
  ShowsPrincipal item m =
      ((m.member_type ≡ member_type_user)
        × (field gjson "userPrincipalId" item ≡ m.principal_id)
        × ((m.principal_id == "") ≡ false))
      ⊎ ((m.member_type ≡ member_type_group)
          × (field gjson "userPrincipalId" item ≡ "")
          × (field gjson "groupPrincipalId" item ≡ m.principal_id))

  -- An item with the fields of a binding.
  pub record ShowsMember (item : J) (m : Member) : Type 0 where
    pub id : field gjson "id" item ≡ m.id
    pub user_id : field gjson "userId" item ≡ m.user_id
    pub project_id : field gjson "projectId" item ≡ m.project_id
    pub role : field gjson "roleTemplateId" item ≡ m.role_template_id
    pub principal : ShowsPrincipal item m

  abbrev pub ShowsEntities : List (J × J) → List Entity → Type 0
  ShowsEntities [] [] = Unit
  ShowsEntities ((_, item) ∷ items) (e ∷ es) = ShowsEntity item e × ShowsEntities items es
  ShowsEntities _ _ = ⊥

  abbrev pub ShowsMembers : List J → List Member → Type 0
  ShowsMembers [] [] = Unit
  ShowsMembers (item ∷ items) (m ∷ ms) = ShowsMember item m × ShowsMembers items ms
  ShowsMembers _ _ = ⊥

  entities_of-ShowsEntities :
      (items : List (J × J)) (es : List Entity)
      → ShowsEntities items es
      → entities_of gjson items ≡ es
  unfolding entities_of
  entities_of-ShowsEntities [] [] h = refl
  entities_of-ShowsEntities [] (e ∷ es) h = elim h [ ]
  entities_of-ShowsEntities (i ∷ items) [] h = elim h [ ]
  entities_of-ShowsEntities ((key, item) ∷ items) (e ∷ es) h =
      ground
        (arith, entities_of-ShowsEntities items es h.1, h.0.name, h.0.id, h.0.named, h.0.identified)

  member_of-ShowsMember : (item : J) (m : Member) → ShowsMember item m → member_of gjson item ≡ m
  unfolding member_of
  member_of-ShowsMember item m h = elim h.principal [
    | inl (user, shown, filled) ↦
        ground (arith, h.id, h.user_id, h.project_id, h.role, user, shown, filled)
    | inr (group, empty, shown) ↦
        let no_user : (field gjson "userPrincipalId" item == "") ≡ true = rw empty refl in
        ground (arith, h.id, h.user_id, h.project_id, h.role, group, shown, no_user)
  ]

  map-ShowsMembers :
      (items : List J) (ms : List Member) → ShowsMembers items ms → map (member_of gjson) items ≡ ms
  map-ShowsMembers [] [] h = refl
  map-ShowsMembers [] (m ∷ ms) h = elim h [ ]
  map-ShowsMembers (i ∷ items) [] h = elim h [ ]
  map-ShowsMembers (item ∷ items) (m ∷ ms) h =
      cc (member_of-ShowsMember item m h.0, map-ShowsMembers items ms h.1)

abbrev pub get_request : Settings → String → Request
get_request settings path = record {
  method = http_get;
  url = settings.server_url <> path;
  token = some settings.token;
  payload = none;
}

module _ {J W : Type 0} (gjson : Gjson J) (send : Transport W) (settings : Settings) where
  -- Rancher answers the three queries of a refresh with bodies that show the directory, and OPA takes
  -- the cache.
  pub record Publishes (runtime : Runtime W) (cluster : String) (dir : Directory) : Type 0 where
    pub projects :
        (w : W)
        → (resp : Response) × ((send
              (get_request settings ("/v3/cluster/" <> cluster <> "/projects"))
              w).0
            ≡ ok resp)
          × ShowsEntities gjson (gjson.entries (gjson.get_path resp.body "data")) dir.projects
    pub members :
        (id : String) (w : W)
        → (resp : Response) × ((send
              (get_request settings ("/v3/projects/" <> id <> "/projectroletemplatebindings"))
              w).0
            ≡ ok resp)
          × ShowsMembers gjson (gjson.array (gjson.get_path resp.body "data")) (dir.members id)
    pub namespaces :
        (id : String) (w : W)
        → (resp : Response) × ((send
              (get_request settings ("/v3/cluster/" <> cluster <> "/namespaces?projectId=" <> id))
              w).0
            ≡ ok resp)
          × (map gjson.string (gjson.array (gjson.get_path resp.body "data.#.id"))
              ≡ dir.namespaces id)
    pub opa :
        (c : ProjectResolverCache) (w : W) → (status : ℕ) × ((runtime.opa_put c w).0 ≡ ok status)

  answered :
      {A : Type 0} (path : String) (f : Response → A) (w : W) (resp : Response) (a : A)
      → (send (get_request settings path) w).0 ≡ ok resp
      → f resp ≡ a
      → ((query gjson send settings http_get path none >>= λ r. pure (f r)) w).0 ≡ ok a
  unfolding query
  answered path f w resp a e g = rw (e, ◌>>=◌, g) refl

  -- A Rancher whose answers show a directory serves it to the resolver through the default client: the
  -- entities, the bindings with the kind of their principals, and the namespaces are read as they are.
  pub default_client-Serves :
      (runtime : Runtime W) (cluster : String) (dir : Directory)
      → Publishes runtime cluster dir
      → Serves (default_client gjson send settings) runtime cluster dir
  unfolding default_client get_projects get_project_members get_project_namespaces parse_entities
      parse_values
  default_client-Serves runtime cluster dir p = record {
    projects = λ w.
        let (resp, sent, shows) = p.projects w in
        answered ("/v3/cluster/" <> cluster <> "/projects") _ w resp dir.projects sent
          (entities_of-ShowsEntities gjson _ dir.projects shows);
    members = λ id w.
        let (resp, sent, shows) = p.members id w in
        answered ("/v3/projects/" <> id <> "/projectroletemplatebindings") _ w resp (dir.members id)
          sent (map-ShowsMembers gjson _ (dir.members id) shows);
    namespaces = λ id w.
        let (resp, sent, shows) = p.namespaces id w in
        answered ("/v3/cluster/" <> cluster <> "/namespaces?projectId=" <> id) _ w resp
          (dir.namespaces id) sent shows;
    opa = p.opa;
  }
