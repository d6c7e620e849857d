-- ===== src/Namespace/Resolver/Answers.antt =====
-- What `ResolveProjectsByUser` and `ResolveProjectIdbyNamespace` answer.
use balticlsc_platform.Common.{
  String, true, false, List, [], ◌∷◌, Option, none, some, ◌==◌, not, ok, ◌≡◌, ◌≢◌, refl, arith,
  eq_iff, eq_refl, ◌⊎◌, inl, inr, Bool-cases, ap,
}
use balticlsc_platform.Rancher.Client.{Client}
use balticlsc_platform.Namespace.Resolver.{
  UserProjectInfo, ProjectResolverCache, ProjectResolver, Runtime, projects_of, project_id_of,
  update_cache, resolve_projects_by_user, resolve_project_id_by_namespace,
}
use balticlsc_platform.Namespace.Resolver.Refresh.{
  Directory, Serves, IsSnapshot, memberships, project_of, update_cache_lem, foldl-load-IsSnapshot,
}

-- The ID of a project, or the empty text.
abbrev pub id_or_empty : Option String → String
id_or_empty none = ""
id_or_empty (some id) = id

-- What the cache holds about a user or a namespace agrees with the directory; it may hold nothing.
pub record IsFresh (dir : Directory) (c : ProjectResolverCache) : Type 0 where
  pub users :
      (user : String)
      → (projects_of user c ≡ []) ⊎ (projects_of user c ≡ memberships dir dir.projects user)
  pub namespaces :
      (ns : String)
      → (project_id_of ns c ≡ "")
        ⊎ (project_id_of ns c ≡ id_or_empty (project_of dir dir.projects ns))

pub IsSnapshot-IsFresh :
    (dir : Directory) (c : ProjectResolverCache) → IsSnapshot dir dir.projects c → IsFresh dir c
unfolding project_id_of
IsSnapshot-IsFresh dir c h = record {
  users = λ user. inr (h.users user);
  namespaces = λ ns. inr (ground (arith, h.namespaces ns));
}

known_users :
    (dir : Directory) (c : ProjectResolverCache) (user : String)
    → (projects_of user c ≡ []) ⊎ (projects_of user c ≡ memberships dir dir.projects user)
    → projects_of user c ≢ []
    → projects_of user c ≡ memberships dir dir.projects user
known_users dir c user (inl e) h = absurd (h e)
known_users dir c user (inr e) h = e

known_namespaces :
    (dir : Directory) (c : ProjectResolverCache) (ns : String)
    → (project_id_of ns c ≡ "")
      ⊎ (project_id_of ns c ≡ id_or_empty (project_of dir dir.projects ns))
    → (project_id_of ns c == "") ≡ false
    → project_id_of ns c ≡ id_or_empty (project_of dir dir.projects ns)
known_namespaces dir c ns (inl e) h = cc (eq_refl "", e)
known_namespaces dir c ns (inr e) h = e

project_id_of-snapshot :
    (dir : Directory) (c : ProjectResolverCache) (ns : String)
    → IsSnapshot dir dir.projects c
    → project_id_of ns c ≡ id_or_empty (project_of dir dir.projects ns)
unfolding project_id_of
project_id_of-snapshot dir c ns h = ground (arith, h.namespaces ns)

module _ {W : Type 0} (client : Client W) (runtime : Runtime W) where
  -- A user that the cache knows costs no request.
  pub resolve_projects_by_user-cached :
      (user : String) (s : ProjectResolver W)
      → projects_of user s.cache ≢ []
      → resolve_projects_by_user client runtime user s ≡ (ok (projects_of user s.cache), s)
  unfolding resolve_projects_by_user
  resolve_projects_by_user-cached user s h = ground arith

  resolve_absent_user :
      (user : String) (s t : ProjectResolver W)
      → projects_of user s.cache ≡ []
      → update_cache client runtime s ≡ (ok tt, t)
      → resolve_projects_by_user client runtime user s ≡ (ok (projects_of user t.cache), t)
  unfolding resolve_projects_by_user
  resolve_absent_user user s t absent done = ground arith

  pub resolve_absent_namespace :
      (ns : String) (s t : ProjectResolver W)
      → project_id_of ns s.cache ≡ ""
      → update_cache client runtime s ≡ (ok tt, t)
      → resolve_project_id_by_namespace client runtime ns s
        ≡ (ok (project_id_of ns t.cache, false), t)
  unfolding resolve_project_id_by_namespace
  resolve_absent_namespace ns s t absent done = rw (absent, resolve_project_id_by_namespace, done)

  pub resolve_known_namespace :
      (ns : String) (s : ProjectResolver W)
      → (project_id_of ns s.cache == "") ≡ false
      → resolve_project_id_by_namespace client runtime ns s
        ≡ (ok (project_id_of ns s.cache, true), s)
  unfolding resolve_project_id_by_namespace
  resolve_known_namespace ns s known = rw (known, resolve_project_id_by_namespace)

module _ {W : Type 0} (client : Client W) (runtime : Runtime W) (dir : Directory) where
  -- While nothing disturbs Rancher and OPA, and from a cache that agrees with the directory, empty
  -- or not, a user resolves to the projects of the directory, and the cache left agrees too.
  pub resolve_projects_by_user_correct :
      (user : String) (s : ProjectResolver W)
      → Serves client runtime s.cluster_id dir
      → IsFresh dir s.cache
      → ((resolve_projects_by_user client runtime user s).0
          ≡ ok (memberships dir dir.projects user))
        × IsFresh dir (resolve_projects_by_user client runtime user s).1.cache
  resolve_projects_by_user_correct user s h fresh = by_cached (projects_of user s.cache) refl
    where
      by_cached :
          (cached : List UserProjectInfo)
          → projects_of user s.cache ≡ cached
          → ((resolve_projects_by_user client runtime user s).0
              ≡ ok (memberships dir dir.projects user))
            × IsFresh dir (resolve_projects_by_user client runtime user s).1.cache
      by_cached [] e =
          let (w, done) = update_cache_lem client runtime dir s h in
          let snap = foldl-load-IsSnapshot dir s.cache in
          rw (resolve_absent_user client runtime user s _ e done)
            (ap ok (snap.users user), IsSnapshot-IsFresh dir _ snap)
      by_cached (info ∷ more) e =
          rw (resolve_projects_by_user-cached client runtime user s (cc))
            (ap ok (known_users dir s.cache user (fresh.users user) (cc)), fresh)

  -- Under the same conditions a namespace resolves to the last project that lists it, or to the
  -- empty text; the flag says whether the cache had the answer, and the cache left agrees too.
  pub resolve_project_id_by_namespace_correct :
      (ns : String) (s : ProjectResolver W)
      → Serves client runtime s.cluster_id dir
      → IsFresh dir s.cache
      → ((resolve_project_id_by_namespace client runtime ns s).0
          ≡ ok (id_or_empty (project_of dir dir.projects ns), not (project_id_of ns s.cache == "")))
        × IsFresh dir (resolve_project_id_by_namespace client runtime ns s).1.cache
  resolve_project_id_by_namespace_correct ns s h fresh =
      elim (Bool-cases (project_id_of ns s.cache == "")) [
        | inl unknown ↦
            let (w, done) = update_cache_lem client runtime dir s h in
            let snap = foldl-load-IsSnapshot dir s.cache in
            let absent = (eq_iff _ _).0 unknown in
            rw (resolve_absent_namespace client runtime ns s _ absent done, unknown)
              (rw (project_id_of-snapshot dir _ ns snap) refl, IsSnapshot-IsFresh dir _ snap)
        | inr known ↦
            rw (resolve_known_namespace client runtime ns s known, known)
              (rw (known_namespaces dir s.cache ns (fresh.namespaces ns) known) refl, fresh)
      ]
