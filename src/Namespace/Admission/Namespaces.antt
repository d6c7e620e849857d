-- ===== src/Namespace/Admission/Namespaces.antt =====
-- What the webhook decides about a namespace.
use balticlsc_platform.Common.{
  String, ◌<>◌, Bool, true, false, List, [], ◌∷◌, Option, none, some, ◌==◌, starts_with, inl, inr,
  ◌≡◌, refl, arith, if◌then◌else◌, Result, ok, Bool-cases, ap,
}
use mathlib.Core.Option.{some-injective}
use balticlsc_platform.Common.Dict
use balticlsc_platform.Common.Dict.{Dict, lookup-insert, lookup-copy}
use balticlsc_platform.Rancher.Client.{Client}
use balticlsc_platform.Namespace.Resolver.{
  UserProjectInfo, ProjectResolver, Runtime, resolve_projects_by_user,
}
use balticlsc_platform.Namespace.Resolver.Refresh.{Directory, Serves, memberships}
use balticlsc_platform.Namespace.Resolver.Answers.{IsFresh, resolve_projects_by_user_correct}
use balticlsc_platform.Namespace.Admission.{
  AdmissionRequest, NamespaceObject, Codec, Verdict, annotations, project_key, annotate,
  namespace_verdict, review_in_projects, review_namespace, review,
}

-- The annotations that a namespace gets: its own, but for the project's ID, which is always that of
-- the user's project.
pub lookup-annotate :
    (project : String) (ns : NamespaceObject) (k : String)
    → Dict.lookup k (annotate project ns)
      ≡ (if project_key == k then some project else Dict.lookup k ns.annotations)
unfolding annotate
lookup-annotate project ns k = ground (
  arith,
  lookup-insert project_key k project (Dict.copy ns.annotations),
  lookup-copy ns.annotations k,
)

-- The project of a user with one project, which the user does not own.
abbrev pub sole_membership : List UserProjectInfo → Option UserProjectInfo
sole_membership [] = none
sole_membership (info ∷ []) = if info.is_owner then none else some info
sole_membership (_ ∷ _ ∷ _) = none

abbrev pub is_prefixed : NamespaceObject → UserProjectInfo → Bool
is_prefixed ns info = starts_with ns.name info.project_name

-- What a namespace in the project of its user gets.
pub record IsPlaced (info : UserProjectInfo) (ns : NamespaceObject) (v : Verdict) : Type 0 where
  pub by_name : v.allowed ≡ is_prefixed ns info
  pub patch :
      v.allowed ≡ true
      → (a : Dict String) × (v.patch_ops
          ≡ record { op = "add"; path = "/metadata/annotations"; value = annotations a } ∷ [])
        × ((k : String)
            → Dict.lookup k a
              ≡ (if project_key == k then some info.project_id else Dict.lookup k ns.annotations))
  pub denial :
      v.allowed ≡ false
      → (v.patch_ops ≡ [])
        × (v.denied_reason ≡ "Namespace must start with '" <> info.project_name <> "'")

namespace_verdict-IsPlaced :
    (info : UserProjectInfo) (ns : NamespaceObject) → IsPlaced info ns (namespace_verdict info ns)
unfolding namespace_verdict
namespace_verdict-IsPlaced info ns = elim (Bool-cases (is_prefixed ns info)) [
  | inl prefixed ↦ record {
    by_name = rw prefixed;
    patch = λ h. (annotate info.project_id ns, rw prefixed, lookup-annotate info.project_id ns);
    denial = λ h. cc (h, prefixed);
  }
  | inr unprefixed ↦ record {
    by_name = rw unprefixed;
    patch = λ h. cc (h, unprefixed);
    denial = λ h. rw unprefixed (refl, refl);
  }
]

module _ {Q W : Type 0} (codec : Codec Q) (client : Client W) (runtime : Runtime W) where
  pub review_in_projects-none :
      (r : AdmissionRequest) (l : List UserProjectInfo) (s : ProjectResolver W)
      → sole_membership l ≡ none
      → review_in_projects codec client runtime r l s ≡ (ok none, s)
  unfolding review_in_projects
  review_in_projects-none r [] s h = refl
  review_in_projects-none r (info ∷ []) s h = ground arith
  review_in_projects-none r (_ ∷ _ ∷ _) s h = refl

  review_in_projects-some :
      (r : AdmissionRequest) (l : List UserProjectInfo) (s : ProjectResolver W)
      (info : UserProjectInfo) (ns : NamespaceObject)
      → sole_membership l ≡ some info
      → codec.unmarshal_namespace r.object ≡ inr (some ns)
      → review_in_projects codec client runtime r l s ≡ (ok (some (namespace_verdict info ns)), s)
  unfolding review_in_projects
  review_in_projects-some r [] s info ns h p = cc
  review_in_projects-some r (i ∷ []) s info ns h p = elim (Bool-cases i.is_owner) [
    | inl owned ↦ cc (rw owned at h)
    | inr member ↦
        rw (member, p)
          (ap (λ j. (ok (some (namespace_verdict j ns)), s))
            (some-injective i info (simp member at h)))
  ]
  review_in_projects-some r (_ ∷ _ ∷ _) s info ns h p = cc

  pub review_namespace-eq :
      (r : AdmissionRequest) (s t : ProjectResolver W) (l : List UserProjectInfo)
      → r.kind ≡ "Namespace"
      → resolve_projects_by_user client runtime r.username s ≡ (ok l, t)
      → review codec client runtime r s ≡ review_in_projects codec client runtime r l t
  unfolding review review_namespace
  review_namespace-eq r s t l kind done = rw (kind, review, done)

  module _ (dir : Directory) (r : AdmissionRequest) (s : ProjectResolver W) where
    resolved :
        Serves client runtime s.cluster_id dir
        → IsFresh dir s.cache
        → resolve_projects_by_user client runtime r.username s ≡ (
          ok (memberships dir dir.projects r.username),
          (resolve_projects_by_user client runtime r.username s).1,
        )
    resolved h fresh i = (
      (resolve_projects_by_user_correct client runtime dir r.username s h fresh).0 i,
      (resolve_projects_by_user client runtime r.username s).1,
    )

    -- A namespace of a user who is a member of exactly one project and does not own it, while Rancher
    -- and OPA are undisturbed: it is allowed exactly if its name starts with the project's. It then
    -- gets one operation, which sets the annotations to its own ones with the project's ID for the
    -- key of the project, also where the request named another project; else it gets no operation
    -- and a reason that names the prefix.
    pub review-places :
        (info : UserProjectInfo) (ns : NamespaceObject)
        → Serves client runtime s.cluster_id dir
        → IsFresh dir s.cache
        → r.kind ≡ "Namespace"
        → sole_membership (memberships dir dir.projects r.username) ≡ some info
        → codec.unmarshal_namespace r.object ≡ inr (some ns)
        → (v : Verdict) × ((review codec client runtime r s).0 ≡ ok (some v)) × IsPlaced info ns v
    review-places info ns h fresh kind sole parsed = (
      namespace_verdict info ns,
      rw (review_namespace-eq r s _ _ kind (resolved h fresh)) (
          ap (λ (x : Result (Option Verdict) × ProjectResolver W). x.0)
            (review_in_projects-some r _ _ info ns sole parsed)),
      namespace_verdict-IsPlaced info ns,
    )

    -- A user with no project, with several projects, or with one project that the user owns: the
    -- review ends with no verdict and no error.
    pub review-ignores :
        Serves client runtime s.cluster_id dir
        → IsFresh dir s.cache
        → r.kind ≡ "Namespace"
        → sole_membership (memberships dir dir.projects r.username) ≡ none
        → (review codec client runtime r s).0 ≡ ok none
    review-ignores h fresh kind sole = rw (review_namespace-eq r s _ _ kind (resolved h fresh)) (
        ap (λ (x : Result (Option Verdict) × ProjectResolver W). x.0)
          (review_in_projects-none r _ _ sole))
