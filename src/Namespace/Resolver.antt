-- ===== src/Namespace/Resolver.antt =====
-- namespace-controller/server/project_resolver.go: the cache of Rancher's projects.
pub mod Refresh
pub mod Answers
pub mod Users
pub mod Unowned
pub mod Special
pub mod Failures
pub mod OverHttp
pub mod Kept
pub mod Overlaps
use mathlib.Core.List.{foldl}
use balticlsc_platform.Common.{
  String, ℕ, Bool, true, false, List, [], ◌∷◌, ◌++◌, Option, none, some, ◌==◌, if◌then◌else◌,
  Result, ok, err, panicked, Error, Exec, pure, raise, panic, ◌>>=◌, ◌>>◌, for_each,
}
use balticlsc_platform.Common.Dict
use balticlsc_platform.Common.Dict.{Dict}
use balticlsc_platform.Rancher.Types.{Entity, Member}
use balticlsc_platform.Rancher.Client.{Client}

pub record UserProjectInfo : Type 0 where
  pub is_owner : Bool
  pub project_id : String
  pub project_name : String

pub record ProjectResolverCache : Type 0 where
  pub user2projects : Dict (List UserProjectInfo)
  pub namespace2project_id : Dict String

-- `W` is the state of the world: Rancher, OPA and the run time.
pub record ProjectResolver (W : Type 0) : Type 0 where
  pub cluster_id : String
  pub cache : ProjectResolverCache
  pub world : W

-- What else the resolver talks to: the HTTP PUT of its cache to OPA, which gives a status code or
-- an error, and the order in which a `range` visits the keys of a map.
pub record Runtime (W : Type 0) : Type 0 where
  pub opa_put : ProjectResolverCache → Exec W ℕ
  pub shuffle : List String → W → List String × W

abbrev pub empty_cache : ProjectResolverCache
empty_cache = record { user2projects = Dict.empty; namespace2project_id = Dict.empty }

-- `m[userID]`, the nil slice for a missing key.
unfoldable pub projects_of : String → ProjectResolverCache → List UserProjectInfo
projects_of user c = elim (Dict.lookup user c.user2projects) [ none ↦ [] | some l ↦ l ]

-- `m[namespace]`, the empty text for a missing key.
unfoldable pub project_id_of : String → ProjectResolverCache → String
project_id_of ns c = elim (Dict.lookup ns c.namespace2project_id) [ none ↦ "" | some id ↦ id ]

unfoldable pub clear {ℓ} : {V : Type ℓ} → Dict V → Dict V
clear m = foldl (λ d k. Dict.delete k d) m (Dict.keys m)

unfoldable pub clear_cache : ProjectResolverCache → ProjectResolverCache
clear_cache c = record {
  user2projects = clear c.user2projects;
  namespace2project_id = clear c.namespace2project_id;
}

unfoldable pub project_info : Entity → Member → UserProjectInfo
project_info p m = record {
  is_owner = m.role_template_id == "project-owner";
  project_id = p.id;
  project_name = p.name;
}

-- The body of the loop over the members of a project.
unfoldable pub add_member : Entity → ProjectResolverCache → Member → ProjectResolverCache
unfolding projects_of project_info
add_member p c m = record c {
  user2projects =
      Dict.insert m.user_id (projects_of m.user_id c ++ project_info p m ∷ []) c.user2projects;
}

-- The body of the loop over the namespaces of a project.
unfoldable pub add_namespace : Entity → ProjectResolverCache → String → ProjectResolverCache
add_namespace p c ns = record c {
  namespace2project_id = Dict.insert ns p.id c.namespace2project_id;
}

-- The loop over the projects of one user.
unfoldable pub find_project : String → List UserProjectInfo → Option Bool
find_project id [] = none
find_project id (p ∷ ps) = if p.project_id == id then some p.is_owner else find_project id ps

-- The loop over the users, in the order of the `range`.
unfoldable pub find_user : String → ProjectResolverCache → List String → Option (String × Bool)
find_user id c [] = none
find_user id c (user ∷ users) = elim (find_project id (projects_of user c)) [
  | none ↦ find_user id c users
  | some owner ↦ some (user, owner)
]

-- A failed search returns the empty user.
abbrev pub user_or_empty : Option (String × Bool) → String
user_or_empty none = ""
user_or_empty (some (user, owner)) = user

module _ {W : Type 0} where
  -- A call of the Rancher client or of OPA.
  abbrev pub call : {A : Type 0} → Exec W A → Exec (ProjectResolver W) A
  call m s = let (r, w) = m s.world in (r, record s { world = w })

  abbrev pub modify :
      (ProjectResolverCache → ProjectResolverCache) → Exec (ProjectResolver W) (Unit {0})
  modify f s = (ok tt, record s { cache = f s.cache })

  -- The end of `FindUserByProject`, for the user that the second search returned.
  unfoldable pub answer_for : String → Exec (ProjectResolver W) (String × Bool)
  answer_for user s = elim (projects_of user s.cache) [
    | [] ↦ (err "projectID not found", s)
    | info ∷ [] ↦ (ok (user, info.is_owner), s)
    | info ∷ _ ∷ _ ↦ (ok (user, false), s)
  ]

module _ {W : Type 0} (client : Client W) (runtime : Runtime W) where
  -- The body of the loop over the projects.
  unfoldable pub add_project : Entity → Exec (ProjectResolver W) (Unit {0})
  add_project p s =
      (do
        members ← call (client.get_project_members p.id)
        modify (λ c. foldl (add_member p) c members)
        namespaces ← call (client.get_project_namespaces s.cluster_id p.id)
        modify (λ c. foldl (add_namespace p) c namespaces))
        s

  -- The PUT of the cache; an error of the HTTP client is a panic.
  unfoldable pub send_cache : Exec (ProjectResolver W) (Unit {0})
  send_cache s =
      let (r, w) = runtime.opa_put s.cache s.world in
      elim r [
        | ok status ↦ (ok tt, record s { world = w })
        | err e ↦ (panicked e, record s { world = w })
        | panicked e ↦ (panicked e, record s { world = w })
      ]

  unfoldable pub update_cache : Exec (ProjectResolver W) (Unit {0})
  update_cache s =
      (do
        entities ← call (client.get_projects s.cluster_id)
        modify clear_cache
        for_each entities add_project
        send_cache)
        s

  unfoldable pub resolve_projects_by_user : String → Exec (ProjectResolver W) (List UserProjectInfo)
  resolve_projects_by_user user s = elim (projects_of user s.cache) [
    | [] ↦ (do update_cache; λ t. (ok (projects_of user t.cache), t)) s
    | info ∷ more ↦ (ok (info ∷ more), s)
  ]

  -- The project, and whether the cache had it.
  unfoldable pub resolve_project_id_by_namespace : String → Exec (ProjectResolver W) (String × Bool)
  resolve_project_id_by_namespace ns s =
      let cached = project_id_of ns s.cache in
      let refreshed =
        (do update_cache; λ (t : ProjectResolver W). (ok (project_id_of ns t.cache, false), t)) s in
      if cached == "" then refreshed else (ok (cached, true), s)

  -- `findUserByProject`
  unfoldable pub find_cached_user :
      String → ProjectResolver W → Option (String × Bool) × ProjectResolver W
  find_cached_user id s =
      let (users, w) = runtime.shuffle (Dict.keys s.cache.user2projects) s.world in
      (find_user id s.cache users, record s { world = w })

  -- After the refresh: the error of the second search is not looked at.
  unfoldable pub find_after_refresh : String → Exec (ProjectResolver W) (String × Bool)
  find_after_refresh id s =
      let (again, s') = find_cached_user id s in answer_for (user_or_empty again) s'

  unfoldable pub find_user_by_project : String → Exec (ProjectResolver W) (String × Bool)
  find_user_by_project id s =
      let (found, s') = find_cached_user id s in
      elim found [
        | some (user, owner) ↦ (ok (user, owner), s')
        | none ↦ (do update_cache; find_after_refresh id) s'
      ]
