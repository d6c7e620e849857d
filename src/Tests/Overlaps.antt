-- ===== src/Tests/Overlaps.antt =====
-- Two refreshes that overlap, on the small cluster.
use balticlsc_platform.Common.{false, ok, none, [], ◌∷◌, ◌++◌, ◌≡◌, refl}
use balticlsc_platform.Namespace.Resolver.{
  UserProjectInfo, ProjectResolverCache, project_info, resolve_projects_by_user,
}
use balticlsc_platform.Namespace.Resolver.Refresh.{memberships}
use balticlsc_platform.Namespace.Resolver.Overlaps.{Interleaved, listed, sent}
use balticlsc_platform.Namespace.Resolver.Overlaps.Losses.{resolve_projects_by_user-loses}
use balticlsc_platform.Rancher.Types.{Entity}
use balticlsc_platform.Namespace.Admission.{review}
use balticlsc_platform.Namespace.Admission.Overlapped.{review-overlapped}
use balticlsc_platform.Tests.Cluster.{directory, rancher, runtime, start, binding}
use balticlsc_platform.Tests.Admission.{codec, request}

abbrev alice : UserProjectInfo
alice = record { is_owner = false; project_id = "p1"; project_name = "alice" }

-- The two projects of `root`, the second of which stays.
abbrev ops : Entity
ops = record { id = "p2"; name = "ops" }

resolve_projects_by_user-loses_example :
    (d : ProjectResolverCache) × Interleaved directory
      (record {
        first = listed directory.projects;
        second = listed directory.projects;
        cache = start.cache;
      })
      (record { first = sent; second = sent; cache = d })
    × ((resolve_projects_by_user rancher runtime "root" (record start { cache = d })).0
        ≡ ok (
            memberships directory (ops ∷ record { id = "p3"; name = "void" } ∷ []) "root"
            ++ memberships directory (ops ∷ record { id = "p3"; name = "void" } ∷ []) "root"))
resolve_projects_by_user-loses_example =
    resolve_projects_by_user-loses rancher runtime start directory
      (record { id = "p1"; name = "alice" }) ops (record { id = "p3"; name = "void" } ∷ [])
      (binding "root" "p2" "project-owner") (binding "" "p2" "project-owner" ∷ []) refl refl

review-overlapped_example :
    (d : ProjectResolverCache) × Interleaved directory
      (record {
        first = listed directory.projects;
        second = listed directory.projects;
        cache = start.cache;
      })
      (record { first = sent; second = sent; cache = d })
    × ((review codec rancher runtime (request "Namespace" "alice") (record start { cache = d })).0
        ≡ ok none)
unfolding project_info
review-overlapped_example =
    review-overlapped codec rancher runtime directory (request "Namespace" "alice") start alice refl
      refl
