-- ===== src/Namespace/Resolver/Refresh.antt =====
-- What a refresh of the cache leaves, for a Rancher that answers from one directory.
use mathlib.Core.List.{foldl}
use balticlsc_platform.Common.{
  String, ℕ, List, [], ◌∷◌, ◌++◌, Option, none, some, ◌==◌, if◌then◌else◌, ok, for_each, ◌≡◌, refl,
  arith, eq_iff, any, append_assoc, append-nil, ◌∙◌, sym,
}
use balticlsc_platform.Common.Dict
use balticlsc_platform.Common.Dict.{Dict, dict_laws, lookup-insert, lookup-keys}
use balticlsc_platform.Rancher.Types.{Entity, Member}
use balticlsc_platform.Rancher.Client.{Client}
use balticlsc_platform.Namespace.Resolver.{
  UserProjectInfo, ProjectResolverCache, ProjectResolver, Runtime, projects_of, clear, clear_cache,
  project_info, add_member, add_namespace, add_project, send_cache, update_cache,
}

-- The projects of a cluster, their members and their namespaces.
pub record Directory : Type 0 where
  pub projects : List Entity
  pub members : String → List Member
  pub namespaces : String → List String

-- Rancher answers for one cluster from the directory, and OPA accepts the cache.
pub record Serves {W : Type 0} (client : Client W) (runtime : Runtime W) (cluster : String)
    (dir : Directory) : Type 0 where
  pub projects : (w : W) → (client.get_projects cluster w).0 ≡ ok dir.projects
  pub members : (id : String) (w : W) → (client.get_project_members id w).0 ≡ ok (dir.members id)
  pub namespaces :
      (id : String) (w : W)
      → (client.get_project_namespaces cluster id w).0 ≡ ok (dir.namespaces id)
  pub opa :
      (c : ProjectResolverCache) (w : W) → (status : ℕ) × ((runtime.opa_put c w).0 ≡ ok status)

module _ (dir : Directory) where
  -- What a user is of one project: an entry for each binding of the user.
  abbrev pub bindings : Entity → String → List Member → List UserProjectInfo
  bindings p user [] = []
  bindings p user (m ∷ ms) =
      let rest = bindings p user ms in if m.user_id == user then project_info p m ∷ rest else rest

  -- The projects of a user, in the order of the directory.
  abbrev pub memberships : List Entity → String → List UserProjectInfo
  memberships [] user = []
  memberships (p ∷ ps) user = bindings p user (dir.members p.id) ++ memberships ps user

  -- The last project that lists a namespace.
  abbrev pub project_of : List Entity → String → Option String
  project_of [] ns = none
  project_of (p ∷ ps) ns = elim (project_of ps ns) [
    | some id ↦ some id
    | none ↦ if any (λ n. n == ns) (dir.namespaces p.id) then some p.id else none
  ]

  -- The cache holds these projects, and nothing else.
  pub record IsSnapshot (ps : List Entity) (c : ProjectResolverCache) : Type 0 where
    pub users : (user : String) → projects_of user c ≡ memberships ps user
    pub namespaces : (ns : String) → Dict.lookup ns c.namespace2project_id ≡ project_of ps ns

lookup-foldl-delete {ℓ} :
    {V : Type ℓ} (ks : List String) (m : Dict V) (k : String)
    → Dict.lookup k (foldl (λ d j. Dict.delete j d) m ks)
      ≡ (if any (λ j. j == k) ks then none else Dict.lookup k m)
lookup-foldl-delete [] m k = refl
lookup-foldl-delete (j ∷ ks) m k =
    ground (arith, lookup-foldl-delete ks (Dict.delete j m) k, Dict.lookup-delete j k m)

-- Every key is gone.
lookup-clear {ℓ} : {V : Type ℓ} (m : Dict V) (k : String) → Dict.lookup k (clear m) ≡ none
unfolding clear
lookup-clear m k = ground (arith, lookup-foldl-delete (Dict.keys m) m k, lookup-keys m k)

projects_of-add_member :
    (p : Entity) (c : ProjectResolverCache) (m : Member) (user : String)
    → projects_of user (add_member p c m) ≡ (
        if m.user_id == user
        then projects_of user c ++ project_info p m ∷ []
        else projects_of user c)
unfolding add_member
projects_of-add_member p c m user = ground (
  arith,
  lookup-insert m.user_id user (projects_of m.user_id c ++ project_info p m ∷ []) c.user2projects,
  eq_iff m.user_id user,
)

pub projects_of-foldl :
    (dir : Directory) (p : Entity) (ms : List Member) (c : ProjectResolverCache) (user : String)
    → projects_of user (foldl (add_member p) c ms) ≡ projects_of user c ++ bindings dir p user ms
projects_of-foldl dir p [] c user = sym (append-nil _)
projects_of-foldl dir p (m ∷ ms) c user = ground (
  arith,
  projects_of-foldl dir p ms (add_member p c m) user,
  projects_of-add_member p c m user,
  append_assoc (projects_of user c) (project_info p m ∷ []) (bindings dir p user ms),
)

namespaces-foldl-add_member :
    (p : Entity) (ms : List Member) (c : ProjectResolverCache)
    → (foldl (add_member p) c ms).namespace2project_id ≡ c.namespace2project_id
namespaces-foldl-add_member p [] c = refl
namespaces-foldl-add_member p (m ∷ ms) c =
    namespaces-foldl-add_member p ms (add_member p c m) ∙ (unfold add_member in refl)

users-foldl-add_namespace :
    (p : Entity) (ns : List String) (c : ProjectResolverCache)
    → (foldl (add_namespace p) c ns).user2projects ≡ c.user2projects
users-foldl-add_namespace p [] c = refl
users-foldl-add_namespace p (n ∷ ns) c =
    users-foldl-add_namespace p ns (add_namespace p c n) ∙ (unfold add_namespace in refl)

pub projects_of-foldl-add_namespace :
    (p : Entity) (ns : List String) (c : ProjectResolverCache) (user : String)
    → projects_of user (foldl (add_namespace p) c ns) ≡ projects_of user c
unfolding projects_of
projects_of-foldl-add_namespace p ns c user = ground (arith, users-foldl-add_namespace p ns c)

lookup-foldl :
    (p : Entity) (ns : List String) (c : ProjectResolverCache) (n : String)
    → Dict.lookup n (foldl (add_namespace p) c ns).namespace2project_id
      ≡ (if any (λ m. m == n) ns then some p.id else Dict.lookup n c.namespace2project_id)
unfolding add_namespace
lookup-foldl p [] c n = refl
lookup-foldl p (m ∷ ns) c n = ground (
  arith,
  lookup-foldl p ns (add_namespace p c m) n,
  lookup-insert m n p.id c.namespace2project_id,
)

-- The cache that the loop over the projects leaves.
abbrev pub load : Directory → ProjectResolverCache → Entity → ProjectResolverCache
load dir c p =
    foldl (add_namespace p) (foldl (add_member p) c (dir.members p.id)) (dir.namespaces p.id)

pub users-foldl-load :
    (dir : Directory) (ps : List Entity) (c : ProjectResolverCache) (user : String)
    → projects_of user (foldl (load dir) c ps) ≡ projects_of user c ++ memberships dir ps user
users-foldl-load dir [] c user = sym (append-nil _)
users-foldl-load dir (p ∷ ps) c user =
    users-foldl-load dir ps (load dir c p) user
    ∙ rw (projects_of-foldl-add_namespace, projects_of-foldl dir)
        (append_assoc (projects_of user c) (bindings dir p user (dir.members p.id))
          (memberships dir ps user))

pub namespaces-foldl-load :
    (dir : Directory) (ps : List Entity) (c : ProjectResolverCache) (ns : String)
    → Dict.lookup ns (foldl (load dir) c ps).namespace2project_id ≡ elim (project_of dir ps ns) [
      | some id ↦ some id
      | none ↦ Dict.lookup ns c.namespace2project_id
    ]
namespaces-foldl-load dir [] c ns = refl
namespaces-foldl-load dir (p ∷ ps) c ns = ground (
  arith,
  namespaces-foldl-load dir ps (load dir c p) ns,
  lookup-foldl p (dir.namespaces p.id) (foldl (add_member p) c (dir.members p.id)) ns,
  namespaces-foldl-add_member p (dir.members p.id) c,
)

module _ {W : Type 0} (client : Client W) (runtime : Runtime W) (dir : Directory) where
  -- The loop does not fail, and leaves `load` of every project.
  for_each-add_project :
      (ps : List Entity) (s : ProjectResolver W)
      → Serves client runtime s.cluster_id dir
      → (w : W) × (for_each ps (add_project client runtime) s
          ≡ (ok tt, record s { cache = foldl (load dir) s.cache ps; world = w }))
  unfolding for_each add_project
  for_each-add_project [] s h = (s.world, refl)
  for_each-add_project (p ∷ ps) s h =
      let w₁ = (client.get_project_members p.id s.world).1 in
      let w₂ = (client.get_project_namespaces s.cluster_id p.id w₁).1 in
      let ih = for_each-add_project ps (record s { cache = load dir s.cache p; world = w₂ }) h in
      (ih.0, rw (h.members p.id s.world, h.namespaces p.id w₁) ih.1)

  send_cache-ok :
      (s : ProjectResolver W)
      → (status : ℕ) × ((runtime.opa_put s.cache s.world).0 ≡ ok status)
      → send_cache client runtime s
        ≡ (ok tt, record s { world = (runtime.opa_put s.cache s.world).1 })
  unfolding send_cache
  send_cache-ok s h = rw (h.1, send_cache)

  pub update_cache_lem :
      (s : ProjectResolver W)
      → Serves client runtime s.cluster_id dir
      → (w : W) × (update_cache client runtime s ≡ (
        ok tt,
        record s { cache = foldl (load dir) (clear_cache s.cache) dir.projects; world = w },
      ))
  unfolding update_cache
  update_cache_lem s h =
      let w₁ = (client.get_projects s.cluster_id s.world).1 in
      let t = record s { cache = clear_cache s.cache; world = w₁ } in
      let loop = for_each-add_project dir.projects t h in
      let c = foldl (load dir) (clear_cache s.cache) dir.projects in
      (
        (runtime.opa_put c loop.0).1,
        rw (h.projects s.world, loop.1)
            (send_cache-ok (record t { cache = c; world = loop.0 }) (h.opa c loop.0)),
      )

pub lookup-clear_cache :
    (c : ProjectResolverCache) (ns : String)
    → Dict.lookup ns (clear_cache c).namespace2project_id ≡ none
unfolding clear_cache
lookup-clear_cache c ns = lookup-clear c.namespace2project_id ns

pub projects_of-clear_cache :
    (c : ProjectResolverCache) (user : String) → projects_of user (clear_cache c) ≡ []
unfolding projects_of clear_cache
projects_of-clear_cache c user = ground (arith, lookup-clear c.user2projects user)

pub foldl-load-IsSnapshot :
    (dir : Directory) (c : ProjectResolverCache)
    → IsSnapshot dir dir.projects (foldl (load dir) (clear_cache c) dir.projects)
foldl-load-IsSnapshot dir c = record {
  users =
      λ user. users-foldl-load dir dir.projects (clear_cache c) user ∙ rw projects_of-clear_cache;
  namespaces = λ ns.
      ground
        (arith, namespaces-foldl-load dir dir.projects (clear_cache c) ns, lookup-clear_cache c ns);
}

-- After a refresh that nothing disturbs, the cache holds for each user the projects of the
-- directory that bind the user, in order and with the right owner marks, and for each namespace the
-- last project that lists it, whatever the cache held before.
pub update_cache-IsSnapshot :
    {W : Type 0} (client : Client W) (runtime : Runtime W) (dir : Directory) (s : ProjectResolver W)
    → Serves client runtime s.cluster_id dir
    → ((update_cache client runtime s).0 ≡ ok tt)
      × IsSnapshot dir dir.projects (update_cache client runtime s).1.cache
      × ((update_cache client runtime s).1.cluster_id ≡ s.cluster_id)
update_cache-IsSnapshot client runtime dir s h =
    rw ((update_cache_lem client runtime dir s h).1) (refl, foldl-load-IsSnapshot dir s.cache, refl)
