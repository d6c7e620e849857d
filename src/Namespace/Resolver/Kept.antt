-- ===== src/Namespace/Resolver/Kept.antt =====
-- The resolver's operations on a cache that agrees with what Rancher holds.
use balticlsc_platform.Common.{
  String, Bool, List, [], ◌∷◌, Option, none, some, ◌==◌, inl, inr, ◌≡◌, refl, sym, subst, arith,
  Bool-cases, Keeps, >>=-Keeps,
}
use balticlsc_platform.Rancher.Client.{Client}
use balticlsc_platform.Namespace.Resolver.{
  UserProjectInfo, ProjectResolver, Runtime, projects_of, project_id_of, update_cache,
  resolve_projects_by_user, resolve_project_id_by_namespace, find_cached_user, find_after_refresh,
  find_user_by_project, answer_for,
}
use balticlsc_platform.Namespace.Resolver.Refresh.{
  Directory, Serves, update_cache_lem, foldl-load-IsSnapshot,
}
use balticlsc_platform.Namespace.Resolver.Answers.{IsFresh, IsSnapshot-IsFresh}

-- The end of a search leaves the state alone.
answer_for-stays : {W : Type 0} (user : String) (s : ProjectResolver W) → (answer_for user s).1 ≡ s
unfolding answer_for
answer_for-stays user s = ground arith

module _ {W : Type 0} (cluster : String) (dir : Directory) where
  -- The resolver of one cluster, whose cache agrees with the directory.
  pub record Agrees (s : ProjectResolver W) : Type 0 where
    pub same_cluster : s.cluster_id ≡ cluster
    pub fresh : IsFresh dir s.cache

module _ {W : Type 0} (client : Client W) (runtime : Runtime W) (cluster : String) (dir : Directory)
    (serves : Serves client runtime cluster dir) where
  update_cache-Agrees : Keeps (Agrees cluster dir) (update_cache client runtime)
  update_cache-Agrees s h =
      let (w, done) =
        update_cache_lem client runtime dir s
          (subst (λ c. Serves client runtime c dir) (sym h.same_cluster) serves) in
      rw done (record {
        same_cluster = h.same_cluster;
        fresh = IsSnapshot-IsFresh dir _ (foldl-load-IsSnapshot dir s.cache);
      })

  pub resolve_projects_by_user-Agrees :
      (user : String) → Keeps (Agrees cluster dir) (resolve_projects_by_user client runtime user)
  unfolding resolve_projects_by_user
  resolve_projects_by_user-Agrees user s h = by_cached (projects_of user s.cache) refl
    where
      by_cached :
          (l : List UserProjectInfo)
          → projects_of user s.cache ≡ l
          → Agrees cluster dir (resolve_projects_by_user client runtime user s).1
      by_cached [] e =
          rw (e, resolve_projects_by_user)
            (>>=-Keeps (Agrees cluster dir) (update_cache client runtime) _ update_cache-Agrees
              (λ a t k. k) s h)
      by_cached (i ∷ l) e = rw (e, resolve_projects_by_user) h

  pub resolve_project_id_by_namespace-Agrees :
      (ns : String) → Keeps (Agrees cluster dir) (resolve_project_id_by_namespace client runtime ns)
  unfolding resolve_project_id_by_namespace
  resolve_project_id_by_namespace-Agrees ns s h =
      elim (Bool-cases (project_id_of ns s.cache == "")) [
        | inl e ↦
            rw (e, resolve_project_id_by_namespace)
              (>>=-Keeps (Agrees cluster dir) (update_cache client runtime) _ update_cache-Agrees
                (λ a t k. k) s h)
        | inr e ↦ rw (e, resolve_project_id_by_namespace) h
      ]

  find_cached_user-Agrees :
      (id : String) (s : ProjectResolver W)
      → Agrees cluster dir s
      → Agrees cluster dir (find_cached_user client runtime id s).1
  unfolding find_cached_user
  find_cached_user-Agrees id s h = record { same_cluster = h.same_cluster; fresh = h.fresh }

  answer_for-Agrees : (user : String) → Keeps (Agrees {W = W} cluster dir) (answer_for user)
  answer_for-Agrees user s h = rw (answer_for-stays user s) h

  find_after_refresh-Agrees :
      (id : String) → Keeps (Agrees cluster dir) (find_after_refresh client runtime id)
  unfolding find_after_refresh
  find_after_refresh-Agrees id s h = answer_for-Agrees _ _ (find_cached_user-Agrees id s h)

  pub find_user_by_project-Agrees :
      (id : String) → Keeps (Agrees cluster dir) (find_user_by_project client runtime id)
  unfolding find_user_by_project
  find_user_by_project-Agrees id s h = by_found (find_cached_user client runtime id s).0 refl
    where
      by_found :
          (found : Option (String × Bool))
          → (find_cached_user client runtime id s).0 ≡ found
          → Agrees cluster dir (find_user_by_project client runtime id s).1
      by_found (some _) e = rw (e, find_user_by_project) (find_cached_user-Agrees id s h)
      by_found none e =
          rw (e, find_user_by_project)
            (>>=-Keeps (Agrees cluster dir) (update_cache client runtime) _ update_cache-Agrees
              (λ a. find_after_refresh-Agrees id) _ (find_cached_user-Agrees id s h))
