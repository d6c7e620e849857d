-- ===== src/Tests/Pods.antt =====
-- The reviews of pods, and a Rancher that fails, at concrete inputs.
use balticlsc_platform.Common.{
  inl, inr, sym, arith, Bool-cases, eq_iff, List, ◌==◌, if◌then◌else◌, String, true, [], ◌∷◌, some,
  ok, err, ◌≡◌, ◌↔◌, refl, All,
}
use balticlsc_platform.Common.Dict
use balticlsc_platform.Rancher.Client.{Client}
use balticlsc_platform.Namespace.Resolver.{
  ProjectResolver, update_cache, project_info, project_id_of, projects_of, find_project,
}
use balticlsc_platform.Namespace.Resolver.Failures.{IsEmpty, update_cache-IsEmpty}
use balticlsc_platform.Namespace.Admission.{AdmissionRequest, Verdict, approve, review}
use balticlsc_platform.Namespace.Admission.Pods.{IsWithin}
use balticlsc_platform.Namespace.Admission.Exempt.{review-approves}
use balticlsc_platform.Namespace.Admission.PodReviews.{review-checks_unowned}
use balticlsc_platform.Namespace.Admission.Special.{review-approves_special}
use balticlsc_platform.Namespace.Resolver.Unowned.{IsUnowned}
use balticlsc_platform.Namespace.Resolver.Special.{IsSpecial}
use balticlsc_platform.Namespace.Resolver.Refresh.{Directory, Serves}
use balticlsc_platform.Namespace.Resolver.Answers.{IsFresh}
use balticlsc_platform.Rancher.Types.{Member}
use balticlsc_platform.Tests.Cluster.{
  directory, rancher, runtime, start, rancher-Serves, runtime-RangesOverKeys, binding,
}
use balticlsc_platform.Tests.Resolver.{start-IsFresh}
use balticlsc_platform.Tests.Admission.{request, container, codec}

abbrev pod_in : String → AdmissionRequest
pod_in ns = record (request "Pod" "alice") { namespace = ns }

review-approves_example :
    (review codec rancher runtime (pod_in "elsewhere") start).0 ≡ ok (some approve)
review-approves_example =
    review-approves codec rancher runtime directory (pod_in "elsewhere") start
      (some (container ∷ [])) rancher-Serves start-IsFresh refl refl refl

-- A Rancher where `alice` and `bob` are members of the first project, and `root` owns the second.
abbrev shared_members : String → List Member
shared_members id =
    if id == "p1"
    then binding "alice" "p1" "project-member" ∷ binding "bob" "p1" "project-member" ∷ []
    else if id == "p2"
    then binding "root" "p2" "project-owner" ∷ []
    else []

abbrev shared : Directory
shared = record directory { members = shared_members }

abbrev sharing : Client (Unit {0})
sharing = record rancher { get_project_members = λ id w. (ok (shared_members id), w) }

sharing-Serves : Serves sharing runtime "c" shared
sharing-Serves = record {
  projects = λ w. refl;
  members = λ id w. refl;
  namespaces = λ id w. refl;
  opa = λ c w. (200, refl);
}

start-IsFresh-shared : IsFresh shared start.cache
unfolding projects_of project_id_of Dict.lookup
start-IsFresh-shared = record { users = λ user. inl refl; namespaces = λ ns. inl refl }

p1-IsUnowned : IsUnowned shared "p1"
unfolding find_project project_info
p1-IsUnowned = record { user = "alice"; has = λ h. cc h; unowned = λ v h. ground (arith, h) }

review-checks_unowned_example :
    (v : Verdict) × ((review codec sharing runtime (pod_in "alice-ns") start).0 ≡ ok (some v))
    × ((v.allowed ≡ true) ↔ All (IsWithin codec) (container ∷ []))
review-checks_unowned_example =
    review-checks_unowned codec sharing runtime shared (pod_in "alice-ns") start "p1"
      (container ∷ []) sharing-Serves start-IsFresh-shared runtime-RangesOverKeys refl refl refl
      refl p1-IsUnowned

p2-IsSpecial : IsSpecial shared "p2"
unfolding find_project project_info
p2-IsSpecial = record {
  users = λ v. elim (Bool-cases ("root" == v)) [
    | inl root ↦ inr (rw (sym ((eq_iff "root" v).0 root)) (_, refl, refl))
    | inr other ↦ inl (ground (arith, other))
  ];
  named = refl;
}

review-approves_special_example :
    (review codec sharing runtime (pod_in "ops") start).0 ≡ ok (some approve)
review-approves_special_example =
    review-approves_special codec sharing runtime shared (pod_in "ops") start "p2"
      (some (container ∷ [])) sharing-Serves start-IsFresh-shared runtime-RangesOverKeys refl refl
      refl refl p2-IsSpecial

-- A cache from before.
abbrev old : ProjectResolver (Unit {0})
old = record start {
  cache = record { user2projects = []; namespace2project_id = ("old-ns", "p9") ∷ [] };
}

-- A Rancher that has no members for the first project.
abbrev broken : Client (Unit {0})
broken = record rancher { get_project_members = λ _ w. (err "no members", w) }

update_cache-IsEmpty_example :
    ((update_cache broken runtime old).0 ≡ err "no members")
    × IsEmpty (update_cache broken runtime old).1.cache
update_cache-IsEmpty_example =
    update_cache-IsEmpty broken runtime old (record { id = "p1"; name = "alice" })
      (record { id = "p2"; name = "ops" } ∷ record { id = "p3"; name = "void" } ∷ []) "no members"
      tt tt refl refl
