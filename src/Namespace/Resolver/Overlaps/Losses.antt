-- ===== src/Namespace/Resolver/Overlaps/Losses.antt =====
-- Two refreshes that overlap can lose memberships: one reads the list of a user, and writes it back
-- when the other has added to it.
use mathlib.Core.List.{foldl}
use balticlsc_platform.Common.{
  List, [], ◌∷◌, ◌++◌, ok, ◌≡◌, ◌≢◌, refl, ◌∙◌, arith, ap, sym, subst, eq_iff,
}
use balticlsc_platform.Common.Dict.{lookup-insert}
use balticlsc_platform.Rancher.Types.{Entity, Member}
use balticlsc_platform.Rancher.Client.{Client}
use balticlsc_platform.Namespace.Resolver.{
  UserProjectInfo, ProjectResolverCache, ProjectResolver, Runtime, projects_of, project_info,
  clear_cache, add_member, add_namespace, resolve_projects_by_user,
}
use balticlsc_platform.Namespace.Resolver.Refresh.{
  Directory, memberships, load, users-foldl-load, projects_of-foldl,
  projects_of-foldl-add_namespace, projects_of-clear_cache,
}
use balticlsc_platform.Namespace.Resolver.Answers.{resolve_projects_by_user-cached}
use balticlsc_platform.Namespace.Resolver.Overlaps.{
  Refresh, listed, at_members, adding, appending, sent, next, step, write_back, by_first,
  Interleaved, same, turn,
}
use balticlsc_platform.Namespace.Resolver.Overlaps.Outcomes.{
  Interleaved-trans, Interleaved-swap, first_clears, first_ends, first_loads_one, first_loads,
}

module _ (dir : Directory) (p q : Entity) (ps : List Entity) (m : Member) (ms : List Member)
    (c : ProjectResolverCache) where
  -- When the second refresh clears the cache, the first has loaded `p`.
  abbrev cleared : ProjectResolverCache
  cleared = clear_cache (load dir (clear_cache c) p)

  -- The first reads the user's list, the second loads `p`, and the first writes the list back.
  abbrev overwritten : ProjectResolverCache
  overwritten = write_back q m (projects_of m.user_id cleared) (load dir cleared p)

  abbrev continued : ProjectResolverCache
  continued =
      foldl (load dir)
        (foldl (add_namespace q) (foldl (add_member q) overwritten ms) (dir.namespaces q.id)) ps

  abbrev lost : ProjectResolverCache
  lost = foldl (load dir) continued (q ∷ ps)

  first_reads :
      dir.members q.id ≡ m ∷ ms
      → (b : Refresh) (d : ProjectResolverCache)
      → Interleaved dir
          (record { first = at_members q ps; second = b; cache = d })
          (record { first = appending q m (projects_of m.user_id d) ms ps; second = b; cache = d })
  unfolding step
  first_reads e b d = turn (by_first _) (rw e (turn (by_first _) same))

  first_writes :
      (plist : List UserProjectInfo) (b : Refresh) (d : ProjectResolverCache)
      → Interleaved dir
          (record { first = appending q m plist ms ps; second = b; cache = d })
          (record { first = adding q ms ps; second = b; cache = write_back q m plist d })
  unfolding step
  first_writes plist b d = turn (by_first _) same

  loses :
      dir.members q.id ≡ m ∷ ms
      → Interleaved dir
          (record { first = listed (p ∷ q ∷ ps); second = listed (p ∷ q ∷ ps); cache = c })
          (record { first = sent; second = sent; cache = lost })
  loses e =
      let all = p ∷ q ∷ ps in
      let read = appending q m (projects_of m.user_id cleared) ms ps in
      let later = at_members q ps in
      Interleaved-trans dir (first_clears dir all (listed all) c) (
        Interleaved-trans dir (first_loads_one dir p (q ∷ ps) (listed all) (clear_cache c)) (
          Interleaved-trans dir
            (Interleaved-swap dir (first_clears dir all later (load dir (clear_cache c) p)))
            (Interleaved-trans dir (first_reads e (next all) cleared) (
              Interleaved-trans dir
                (Interleaved-swap dir (first_loads_one dir p (q ∷ ps) read cleared))
                (Interleaved-trans dir
                  (first_writes (projects_of m.user_id cleared) later (load dir cleared p))
                  (Interleaved-trans dir (first_ends dir q ms ps later overwritten) (
                    Interleaved-trans dir (first_loads dir ps later _)
                      (Interleaved-swap dir (first_loads dir (q ∷ ps) sent continued)))))))))

  projects_of-overwritten : projects_of m.user_id overwritten ≡ project_info q m ∷ []
  unfolding projects_of
  projects_of-overwritten = ground (
    arith,
    lookup-insert m.user_id m.user_id (projects_of m.user_id cleared ++ project_info q m ∷ [])
        (load dir cleared p).user2projects,
    eq_iff m.user_id m.user_id,
    projects_of-clear_cache (load dir (clear_cache c) p) m.user_id,
  )

  projects_of-continued :
      dir.members q.id ≡ m ∷ ms
      → projects_of m.user_id continued ≡ memberships dir (q ∷ ps) m.user_id
  projects_of-continued e =
      let joined = foldl (add_member q) overwritten ms in
      users-foldl-load dir ps (foldl (add_namespace q) joined (dir.namespaces q.id)) m.user_id
      ∙ rw
          (
            projects_of-foldl-add_namespace q (dir.namespaces q.id) joined m.user_id,
            projects_of-foldl dir q ms overwritten m.user_id,
            projects_of-overwritten,
            e,
            (eq_iff m.user_id m.user_id).1 refl,
          )
          refl

  projects_of-lost :
      dir.members q.id ≡ m ∷ ms
      → projects_of m.user_id lost
        ≡ memberships dir (q ∷ ps) m.user_id ++ memberships dir (q ∷ ps) m.user_id
  projects_of-lost e =
      users-foldl-load dir (q ∷ ps) continued m.user_id
      ∙ ap (λ l. l ++ memberships dir (q ∷ ps) m.user_id) (projects_of-continued e)

  listed_twice :
      dir.members q.id ≡ m ∷ ms
      → memberships dir (q ∷ ps) m.user_id ++ memberships dir (q ∷ ps) m.user_id ≢ []
  listed_twice e h = cc (rw (e, (eq_iff m.user_id m.user_id).1 refl) at h)

-- Whatever the cache holds: where Rancher lists a project `p` and behind it a project `q`, with a user
-- as the first member of `q`, two refreshes can overlap so that `ResolveProjectsByUser`, on the cache
-- that they leave, answers the user's memberships in `q` and in the projects behind it, twice, and
-- leaves out those in `p`.
pub resolve_projects_by_user-loses :
    {W : Type 0} (client : Client W) (runtime : Runtime W) (s : ProjectResolver W) (dir : Directory)
    (p q : Entity) (ps : List Entity) (m : Member) (ms : List Member)
    → dir.projects ≡ p ∷ q ∷ ps
    → dir.members q.id ≡ m ∷ ms
    → (d : ProjectResolverCache) × Interleaved dir
        (record { first = listed dir.projects; second = listed dir.projects; cache = s.cache })
        (record { first = sent; second = sent; cache = d })
      × ((resolve_projects_by_user client runtime m.user_id (record s { cache = d })).0
          ≡ ok (memberships dir (q ∷ ps) m.user_id ++ memberships dir (q ∷ ps) m.user_id))
resolve_projects_by_user-loses client runtime s dir p q ps m ms projects members =
    let d = lost dir p q ps m ms s.cache in
    let t = record s { cache = d } in
    let found = projects_of-lost dir p q ps m ms s.cache members in
    let cached =
      resolve_projects_by_user-cached client runtime m.user_id t
        (λ e. listed_twice dir p q ps m ms s.cache members (sym found ∙ e)) in
    (
      d,
      subst
          (λ (all : List Entity).
            Interleaved dir (record { first = listed all; second = listed all; cache = s.cache })
              (record { first = sent; second = sent; cache = d }))
          (sym projects) (loses dir p q ps m ms s.cache members),
      ap (λ r. r.0) cached ∙ ap ok found,
    )
