-- ===== src/Tests/Resolver.antt =====
-- The resolver of the namespace controller, run on a small cluster.
use balticlsc_platform.Common.{String, none, ◌==◌, ok, ◌≡◌, refl, inl, not}
use balticlsc_platform.Common.Dict
use balticlsc_platform.Namespace.Resolver.{
  find_user, ProjectResolver, projects_of, project_id_of, update_cache, resolve_projects_by_user,
  resolve_project_id_by_namespace, find_cached_user, find_user_by_project,
}
use balticlsc_platform.Namespace.Resolver.Refresh.{
  IsSnapshot, memberships, project_of, update_cache-IsSnapshot,
}
use balticlsc_platform.Namespace.Resolver.Answers.{
  IsFresh, id_or_empty, resolve_projects_by_user_correct, resolve_project_id_by_namespace_correct,
}
use balticlsc_platform.Namespace.Resolver.Users.{
  Decides, owner_answer, find_user_by_project-missing,
}
use balticlsc_platform.Tests.Cluster.{
  directory, rancher, runtime, start, rancher-Serves, runtime-RangesOverKeys,
}

-- An empty cache agrees with every directory.
pub start-IsFresh : IsFresh directory start.cache
unfolding projects_of project_id_of Dict.lookup
start-IsFresh = record { users = λ user. inl refl; namespaces = λ ns. inl refl }

update_cache-IsSnapshot_example :
    ((update_cache rancher runtime start).0 ≡ ok tt)
    × IsSnapshot directory directory.projects (update_cache rancher runtime start).1.cache
    × ((update_cache rancher runtime start).1.cluster_id ≡ "c")
update_cache-IsSnapshot_example =
    update_cache-IsSnapshot rancher runtime directory start rancher-Serves

resolve_projects_by_user_correct_example :
    ((resolve_projects_by_user rancher runtime "root" start).0
      ≡ ok (memberships directory directory.projects "root"))
    × IsFresh directory (resolve_projects_by_user rancher runtime "root" start).1.cache
resolve_projects_by_user_correct_example =
    resolve_projects_by_user_correct rancher runtime directory "root" start rancher-Serves
      start-IsFresh

resolve_project_id_by_namespace_correct_example :
    ((resolve_project_id_by_namespace rancher runtime "ops" start).0
      ≡ ok (
        id_or_empty (project_of directory directory.projects "ops"),
        not (project_id_of "ops" start.cache == ""),
      ))
    × IsFresh directory (resolve_project_id_by_namespace rancher runtime "ops" start).1.cache
resolve_project_id_by_namespace_correct_example =
    resolve_project_id_by_namespace_correct rancher runtime directory "ops" start rancher-Serves
      start-IsFresh

abbrev pub loaded : ProjectResolver (Unit {0})
loaded = (update_cache rancher runtime start).1

nothing_cached : (find_cached_user rancher runtime "p3" start).0 ≡ none
unfolding find_cached_user find_user Dict.keys
nothing_cached = refl

-- Nobody has `p3`, and the answer is the group binding of `p2`.
find_user_by_project-missing_example :
    (user : String) × Decides directory "p3" user
    × ((find_user_by_project rancher runtime "p3" start).0
        ≡ owner_answer user (memberships directory directory.projects user))
find_user_by_project-missing_example =
    find_user_by_project-missing rancher runtime directory "p3" start runtime-RangesOverKeys
      rancher-Serves nothing_cached
