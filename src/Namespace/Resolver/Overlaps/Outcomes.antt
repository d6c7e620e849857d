-- ===== src/Namespace/Resolver/Overlaps/Outcomes.antt =====
-- Runs of two refreshes that overlap, and what they leave in the cache.
use mathlib.Core.List.{foldl}
use balticlsc_platform.Common.{String, List, [], ◌∷◌, ◌++◌, ◌≡◌, refl, ◌∙◌}
use balticlsc_platform.Rancher.Types.{Entity, Member}
use balticlsc_platform.Namespace.Resolver.{
  ProjectResolverCache, projects_of, clear_cache, add_member, add_namespace,
}
use balticlsc_platform.Namespace.Resolver.Refresh.{
  Directory, memberships, load, users-foldl-load, projects_of-clear_cache,
}
use balticlsc_platform.Namespace.Resolver.Overlaps.{
  Refresh, listed, adding, at_namespaces, storing, sent, next, step, Pair, by_first, by_second,
  Interleaved, same, turn,
}

module _ (dir : Directory) where
  pub Interleaved-trans :
      {p q r : Pair dir} → Interleaved dir p q → Interleaved dir q r → Interleaved dir p r
  Interleaved-trans same k = k
  Interleaved-trans (turn t h) k = turn t (Interleaved-trans h k)

  -- The two in the other order.
  abbrev swap : Pair dir → Pair dir
  swap p = record { first = p.second; second = p.first; cache = p.cache }

  pub Interleaved-swap : {p q : Pair dir} → Interleaved dir p q → Interleaved dir (swap p) (swap q)
  Interleaved-swap same = same
  Interleaved-swap (turn (by_first p) h) = turn (by_second (swap p)) (Interleaved-swap h)
  Interleaved-swap (turn (by_second p) h) = turn (by_first (swap p)) (Interleaved-swap h)

  pub first_clears :
      (ps : List Entity) (b : Refresh) (c : ProjectResolverCache)
      → Interleaved dir
          (record { first = listed ps; second = b; cache = c })
          (record { first = next ps; second = b; cache = clear_cache c })
  unfolding step clear_cache
  first_clears ps b c = turn (by_first _) (turn (by_first _) same)

  pub first_adds :
      (p : Entity) (ms : List Member) (ps : List Entity) (b : Refresh) (c : ProjectResolverCache)
      → Interleaved dir
          (record { first = adding p ms ps; second = b; cache = c })
          (record { first = at_namespaces p ps; second = b; cache = foldl (add_member p) c ms })
  unfolding step add_member
  first_adds p [] ps b c = turn (by_first _) same
  first_adds p (m ∷ ms) ps b c =
      turn (by_first _) (turn (by_first _) (first_adds p ms ps b (add_member p c m)))

  first_stores :
      (p : Entity) (ns : List String) (ps : List Entity) (b : Refresh) (c : ProjectResolverCache)
      → Interleaved dir
          (record { first = storing p ns ps; second = b; cache = c })
          (record { first = next ps; second = b; cache = foldl (add_namespace p) c ns })
  unfolding step
  first_stores p [] ps b c = turn (by_first _) same
  first_stores p (n ∷ ns) ps b c = turn (by_first _) (first_stores p ns ps b (add_namespace p c n))

  -- The first refresh goes on with the members of a project, and then with its namespaces.
  pub first_ends :
      (p : Entity) (ms : List Member) (ps : List Entity) (b : Refresh) (c : ProjectResolverCache)
      → Interleaved dir
          (record { first = adding p ms ps; second = b; cache = c })
          (record {
            first = next ps;
            second = b;
            cache = foldl (add_namespace p) (foldl (add_member p) c ms) (dir.namespaces p.id);
          })
  unfolding step
  first_ends p ms ps b c =
      Interleaved-trans (first_adds p ms ps b c)
        (turn (by_first _) (first_stores p (dir.namespaces p.id) ps b (foldl (add_member p) c ms)))

  -- It loads the next project.
  pub first_loads_one :
      (p : Entity) (ps : List Entity) (b : Refresh) (c : ProjectResolverCache)
      → Interleaved dir
          (record { first = next (p ∷ ps); second = b; cache = c })
          (record { first = next ps; second = b; cache = load dir c p })
  unfolding step
  first_loads_one p ps b c = turn (by_first _) (first_ends p (dir.members p.id) ps b c)

  -- It runs through the loop.
  pub first_loads :
      (ps : List Entity) (b : Refresh) (c : ProjectResolverCache)
      → Interleaved dir
          (record { first = next ps; second = b; cache = c })
          (record { first = sent; second = b; cache = foldl (load dir) c ps })
  first_loads [] b c = same
  first_loads (p ∷ ps) b c =
      Interleaved-trans (first_loads_one p ps b c) (first_loads ps b (load dir c p))

  -- Both clear the cache, and then each runs through its loop.
  pub overlap :
      (c : ProjectResolverCache)
      → Interleaved dir
          (record { first = listed dir.projects; second = listed dir.projects; cache = c })
          (record {
            first = sent;
            second = sent;
            cache =
                foldl
                  (load dir)
                  (foldl (load dir) (clear_cache (clear_cache c)) dir.projects)
                  dir.projects;
          })
  overlap c =
      let ps = dir.projects in
      let cleared = clear_cache (clear_cache c) in
      Interleaved-trans (first_clears ps (listed ps) c) (
        Interleaved-trans (Interleaved-swap (first_clears ps (next ps) (clear_cache c))) (
          Interleaved-trans (first_loads ps (next ps) cleared)
            (Interleaved-swap (first_loads ps sent (foldl (load dir) cleared ps)))))

  pub overlap-projects_of :
      (c : ProjectResolverCache) (user : String)
      → projects_of user (
          foldl
            (load dir)
            (foldl (load dir) (clear_cache (clear_cache c)) dir.projects)
            dir.projects)
        ≡ memberships dir dir.projects user ++ memberships dir dir.projects user
  overlap-projects_of c user =
      users-foldl-load dir dir.projects
        (foldl (load dir) (clear_cache (clear_cache c)) dir.projects) user
      ∙ rw
          (
            users-foldl-load dir dir.projects (clear_cache (clear_cache c)) user,
            projects_of-clear_cache (clear_cache c) user,
          )
          refl
