-- ===== src/Namespace/Resolver/Overlaps.antt =====
-- `UpdateCache` of namespace-controller/server/project_resolver.go in two goroutines at once: net/http
-- serves each request in its own, and the cache has no lock. The goroutines can switch at every wait
-- for Rancher and at every access to a map of the cache; Rancher answers from one directory. The two
-- loops of `ClearCache`, which Go compiles to one clearing of a map each, are a step each.
pub mod Outcomes
pub mod Losses
use balticlsc_platform.Common.{String, List, [], ◌∷◌, ◌++◌, ◌≡◌, refl}
use balticlsc_platform.Common.Dict
use balticlsc_platform.Rancher.Types.{Entity, Member}
use balticlsc_platform.Namespace.Resolver.{
  UserProjectInfo, ProjectResolverCache, projects_of, project_info, clear, add_namespace,
}
use balticlsc_platform.Namespace.Resolver.Refresh.{Directory}

-- Where a refresh stands: Rancher has listed the projects; the users are cleared and the namespaces
-- not yet; it waits for the members of a project, with the projects that follow; it goes on with these
-- members; it has read the list of a member's user and is to write it back; it waits for the
-- namespaces of a project; it goes on with these; or the loop has ended.
pub data Refresh : Type 0 where
  listed : List Entity → Refresh
  clearing : List Entity → Refresh
  at_members : Entity → List Entity → Refresh
  adding : Entity → List Member → List Entity → Refresh
  appending : Entity → Member → List UserProjectInfo → List Member → List Entity → Refresh
  at_namespaces : Entity → List Entity → Refresh
  storing : Entity → List String → List Entity → Refresh
  sent : Refresh

-- The head of the loop.
abbrev pub next : List Entity → Refresh
next [] = sent
next (p ∷ ps) = at_members p ps

-- `User2projects[member.UserID] = append(plist, …)`, for a list that was read before.
abbrev pub write_back :
    Entity → Member → List UserProjectInfo → ProjectResolverCache → ProjectResolverCache
write_back p m plist c = record c {
  user2projects = Dict.insert m.user_id (plist ++ project_info p m ∷ []) c.user2projects;
}

module _ (dir : Directory) where
  -- What a refresh does until it can be interrupted.
  unfoldable pub step : Refresh → ProjectResolverCache → Refresh × ProjectResolverCache
  unfolding projects_of
  step (listed ps) c = (clearing ps, record c { user2projects = clear c.user2projects })
  step (clearing ps) c = (next ps, record c { namespace2project_id = clear c.namespace2project_id })
  step (at_members p ps) c = (adding p (dir.members p.id) ps, c)
  step (adding p [] ps) c = (at_namespaces p ps, c)
  step (adding p (m ∷ ms) ps) c = (appending p m (projects_of m.user_id c) ms ps, c)
  step (appending p m plist ms ps) c = (adding p ms ps, write_back p m plist c)
  step (at_namespaces p ps) c = (storing p (dir.namespaces p.id) ps, c)
  step (storing p [] ps) c = (next ps, c)
  step (storing p (n ∷ ns) ps) c = (storing p ns ps, add_namespace p c n)
  step sent c = (sent, c)

  -- Two refreshes on one cache.
  pub record Pair : Type 0 where
    pub first : Refresh
    pub second : Refresh
    pub cache : ProjectResolverCache

  -- One of the two takes a step.
  pub data Turn : Pair → Pair → Type 0 where
    by_first :
        (p : Pair)
        → Turn p (record p { first = (step p.first p.cache).0; cache = (step p.first p.cache).1 })
    by_second :
        (p : Pair)
        → Turn p
            (record p { second = (step p.second p.cache).0; cache = (step p.second p.cache).1 })

  -- Any interleaving of their steps.
  pub data Interleaved : Pair → Pair → Type 0 where
    same : {p : Pair} → Interleaved p p
    turn : {p q r : Pair} → Turn p q → Interleaved q r → Interleaved p r
