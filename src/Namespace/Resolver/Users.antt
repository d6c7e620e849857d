-- ===== src/Namespace/Resolver/Users.antt =====
-- What `FindUserByProject` answers.
use balticlsc_platform.Common.{
  String, Bool, true, false, List, [], ◌∷◌, Option, none, some, ◌==◌, any, Result, ok, err, ◌∙◌,
  ◌≡◌, ◌≢◌, refl, arith, eq_iff, ◌⊎◌, inl, inr, Bool-cases,
}
use balticlsc_platform.Common.Dict
use balticlsc_platform.Common.Dict.{lookup-keys}
use balticlsc_platform.Rancher.Client.{Client}
use balticlsc_platform.Namespace.Resolver.{
  UserProjectInfo, ProjectResolverCache, ProjectResolver, Runtime, projects_of, find_project,
  find_user, find_cached_user, find_after_refresh, find_user_by_project, answer_for,
}
use balticlsc_platform.Namespace.Resolver.Refresh.{
  Directory, Serves, IsSnapshot, memberships, update_cache_lem, foldl-load-IsSnapshot,
}

-- A `range` visits exactly the keys of the map.
abbrev pub RangesOverKeys : {W : Type 0} → Runtime W → Type 0
RangesOverKeys {W} runtime =
    (names : List String) (w : W) (k : String)
    → any (λ j. j == k) (runtime.shuffle names w).0 ≡ any (λ j. j == k) names

-- What the search returns is a user's project, whatever the order.
pub find_user_sound :
    (id : String) (c : ProjectResolverCache) (users : List String) (user : String) (owner : Bool)
    → find_user id c users ≡ some (user, owner)
    → find_project id (projects_of user c) ≡ some owner
unfolding find_user
find_user_sound id c [] user owner h = cc
find_user_sound id c (u ∷ users) user owner h =
    ground (arith, find_user_sound id c users user owner)

-- A search that fails has passed every user that it visited.
find_user-none :
    (id : String) (c : ProjectResolverCache) (users : List String) (user : String)
    → find_user id c users ≡ none
    → any (λ j. j == user) users ≡ true
    → find_project id (projects_of user c) ≡ none
unfolding find_user
find_user-none id c [] user h m = cc
find_user-none id c (u ∷ users) user h m =
    ground (arith, find_user-none id c users user, eq_iff u user)

unlisted_user :
    (id : String) (c : ProjectResolverCache) (user : String)
    → any (λ j. j == user) (Dict.keys c.user2projects) ≡ false
    → find_project id (projects_of user c) ≡ none
unfolding projects_of find_project
unlisted_user id c user h = ground (arith, lookup-keys c.user2projects user)

module _ {W : Type 0} (client : Client W) (runtime : Runtime W) where
  -- The search of the cache fails only if no user has the project.
  pub find_cached_user-none :
      (id : String) (s : ProjectResolver W) (user : String)
      → RangesOverKeys runtime
      → (find_cached_user client runtime id s).0 ≡ none
      → find_project id (projects_of user s.cache) ≡ none
  unfolding find_cached_user
  find_cached_user-none id s user visits h =
      let listed = visits (Dict.keys s.cache.user2projects) s.world user in
      elim (Bool-cases (any (λ j. j == user) (Dict.keys s.cache.user2projects))) [
        | inl e ↦ find_user-none id s.cache _ user h (rw listed e)
        | inr e ↦ unlisted_user id s.cache user e
      ]

  pub cache-find_cached_user :
      (id : String) (s : ProjectResolver W)
      → (find_cached_user client runtime id s).1.cache ≡ s.cache
  unfolding find_cached_user
  cache-find_cached_user id s = refl

  found_in_cache :
      (id : String) (s : ProjectResolver W) (user : String) (owner : Bool)
      → (find_cached_user client runtime id s).0 ≡ some (user, owner)
      → find_project id (projects_of user s.cache) ≡ some owner
  unfolding find_cached_user
  found_in_cache id s user owner h = find_user_sound id s.cache _ user owner h

  -- From the cache: the answer is some user of the project, with the owner mark that this user has in
  -- this project, and the cache is left alone.
  pub find_user_by_project-cached :
      (id : String) (s : ProjectResolver W) (user : String) (owner : Bool)
      → (find_cached_user client runtime id s).0 ≡ some (user, owner)
      → ((find_user_by_project client runtime id s).0 ≡ ok (user, owner))
        × (find_project id (projects_of user s.cache) ≡ some owner)
        × ((find_user_by_project client runtime id s).1.cache ≡ s.cache)
  unfolding find_user_by_project find_cached_user
  find_user_by_project-cached id s user owner h =
      (ground arith, find_user_sound id s.cache _ user owner h, ground arith)

-- The answer for a user with these projects: the owner mark counts only if there is one project.
abbrev pub owner_answer : String → List UserProjectInfo → Result (String × Bool)
owner_answer user [] = err "projectID not found"
owner_answer user (info ∷ []) = ok (user, info.is_owner)
owner_answer user (info ∷ _ ∷ _) = ok (user, false)

-- The user whose projects decide after a refresh: one who has the project, or the empty name if
-- nobody has it.
abbrev pub Decides : Directory → String → String → Type 0
Decides dir id user =
    (find_project id (memberships dir dir.projects user) ≢ none)
    ⊎ ((user ≡ "") × ((v : String) → find_project id (memberships dir dir.projects v) ≡ none))

module _ {W : Type 0} (client : Client W) (runtime : Runtime W) (dir : Directory) where
  answer_for-eq :
      (user : String) (s : ProjectResolver W)
      → (answer_for user s).0 ≡ owner_answer user (projects_of user s.cache)
  unfolding answer_for
  answer_for-eq user s = by_projects (projects_of user s.cache) refl
    where
      by_projects :
          (l : List UserProjectInfo)
          → projects_of user s.cache ≡ l
          → (answer_for user s).0 ≡ owner_answer user (projects_of user s.cache)
      by_projects [] e = rw (e, answer_for)
      by_projects (i ∷ []) e = rw (e, answer_for)
      by_projects (i ∷ j ∷ l) e = rw (e, answer_for)

  cluster_kept :
      (id : String) (s : ProjectResolver W)
      → Serves client runtime s.cluster_id dir
      → Serves client runtime (find_cached_user client runtime id s).1.cluster_id dir
  unfolding find_cached_user
  cluster_kept id s h = h

  decided :
      (id : String) (t : ProjectResolver W)
      → RangesOverKeys runtime
      → IsSnapshot dir dir.projects t.cache
      → (user : String) × Decides dir id user
        × ((find_after_refresh client runtime id t).0
            ≡ owner_answer user (memberships dir dir.projects user))
  unfolding find_after_refresh
  decided id t visits snap = by_search (find_cached_user client runtime id t).0 refl
    where
      answers :
          (user : String)
          → (answer_for user (find_cached_user client runtime id t).1).0
            ≡ owner_answer user (memberships dir dir.projects user)
      answers user =
          answer_for-eq user (find_cached_user client runtime id t).1
          ∙ rw (cache-find_cached_user client runtime id t, snap.users user)

      by_search :
          (again : Option (String × Bool))
          → (find_cached_user client runtime id t).0 ≡ again
          → (user : String) × Decides dir id user
            × ((find_after_refresh client runtime id t).0
                ≡ owner_answer user (memberships dir dir.projects user))
      by_search none e = (
        "",
        inr (
          refl,
          λ v. rw (snap.users v) at (find_cached_user-none client runtime id t v visits e),
        ),
        rw (e, find_after_refresh) (answers ""),
      )
      by_search (some (user, owner)) e = (
        user,
        inl (λ absent. cc (snap.users user, found_in_cache client runtime id t user owner e)),
        rw (e, find_after_refresh) (answers user),
      )

  -- A project that the cache does not know, while nothing disturbs Rancher and OPA: after the refresh
  -- the answer goes by all the projects of one deciding user, and not by the project that was asked
  -- for. The owner mark is that of the user's only project, and false if the user has several. The
  -- deciding user has the project, or is the empty name if nobody has it: then the bindings without
  -- a user, if there are any, give an answer and no error.
  pub find_user_by_project-missing :
      (id : String) (s : ProjectResolver W)
      → RangesOverKeys runtime
      → Serves client runtime s.cluster_id dir
      → (find_cached_user client runtime id s).0 ≡ none
      → (user : String) × Decides dir id user
        × ((find_user_by_project client runtime id s).0
            ≡ owner_answer user (memberships dir dir.projects user))
  unfolding find_user_by_project
  find_user_by_project-missing id s visits h missing =
      let t = (find_cached_user client runtime id s).1 in
      let (w, done) = update_cache_lem client runtime dir t (cluster_kept id s h) in
      rw (missing, find_user_by_project, done)
        (decided id _ visits (foldl-load-IsSnapshot dir t.cache))
