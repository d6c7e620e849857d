-- ===== src/Namespace/Resolver/Failures.antt =====
-- What a refresh of the cache leaves when Rancher fails.
use balticlsc_platform.Common.{String, List, [], ◌∷◌, ok, err, Error, for_each, ◌≡◌, refl, arith}
use balticlsc_platform.Rancher.Types.{Entity}
use balticlsc_platform.Rancher.Client.{Client}
use balticlsc_platform.Namespace.Resolver.{
  ProjectResolverCache, ProjectResolver, Runtime, projects_of, project_id_of, clear_cache,
  add_project, update_cache,
}
use balticlsc_platform.Namespace.Resolver.Refresh.{lookup-clear_cache, projects_of-clear_cache}

-- The cache holds nothing.
pub record IsEmpty (c : ProjectResolverCache) : Type 0 where
  pub users : (user : String) → projects_of user c ≡ []
  pub namespaces : (ns : String) → project_id_of ns c ≡ ""

clear_cache-IsEmpty : (c : ProjectResolverCache) → IsEmpty (clear_cache c)
unfolding project_id_of
clear_cache-IsEmpty c = record {
  users = projects_of-clear_cache c;
  namespaces = λ ns. ground (arith, lookup-clear_cache c ns);
}

module _ {W : Type 0} (client : Client W) (runtime : Runtime W) (s : ProjectResolver W) where
  interrupted :
      (p : Entity) (ps : List Entity) (e : Error) (w₁ w₂ : W)
      → client.get_projects s.cluster_id s.world ≡ (ok (p ∷ ps), w₁)
      → client.get_project_members p.id w₁ ≡ (err e, w₂)
      → update_cache client runtime s
        ≡ (err e, record s { cache = clear_cache s.cache; world = w₂ })
  unfolding update_cache for_each add_project
  interrupted p ps e w₁ w₂ listed failed =
      rw (listed, update_cache, for_each, add_project, failed) refl

  -- If Rancher lists the projects and then fails for the members of the first one, the refresh returns
  -- that error and leaves an empty cache, whatever it held before.
  pub update_cache-IsEmpty :
      (p : Entity) (ps : List Entity) (e : Error) (w₁ w₂ : W)
      → client.get_projects s.cluster_id s.world ≡ (ok (p ∷ ps), w₁)
      → client.get_project_members p.id w₁ ≡ (err e, w₂)
      → ((update_cache client runtime s).0 ≡ err e)
        × IsEmpty (update_cache client runtime s).1.cache
  update_cache-IsEmpty p ps e w₁ w₂ listed failed =
      rw (interrupted p ps e w₁ w₂ listed failed) (refl, clear_cache-IsEmpty s.cache)
