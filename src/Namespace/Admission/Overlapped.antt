-- ===== src/Namespace/Admission/Overlapped.antt =====
-- A namespace at the webhook after two refreshes that overlapped.
use balticlsc_platform.Common.{[], ◌∷◌, ◌++◌, Option, none, Result, ok, ◌≡◌, ◌≢◌, refl, ap, ◌∙◌}
use balticlsc_platform.Rancher.Client.{Client}
use balticlsc_platform.Namespace.Resolver.{
  UserProjectInfo, ProjectResolverCache, ProjectResolver, Runtime, projects_of,
}
use balticlsc_platform.Namespace.Resolver.Refresh.{Directory, memberships}
use balticlsc_platform.Namespace.Resolver.Answers.{resolve_projects_by_user-cached}
use balticlsc_platform.Namespace.Resolver.Overlaps.{Interleaved, listed, sent}
use balticlsc_platform.Namespace.Resolver.Overlaps.Outcomes.{overlap, overlap-projects_of}
use balticlsc_platform.Namespace.Admission.{AdmissionRequest, Codec, Verdict, review}
use balticlsc_platform.Namespace.Admission.Namespaces.{review_in_projects-none, review_namespace-eq}

-- A user who is listed twice has several projects.
doubled_ignored :
    {Q W : Type 0} (codec : Codec Q) (client : Client W) (runtime : Runtime W)
    (r : AdmissionRequest) (t : ProjectResolver W) (info : UserProjectInfo)
    → r.kind ≡ "Namespace"
    → projects_of r.username t.cache ≡ info ∷ info ∷ []
    → (review codec client runtime r t).0 ≡ ok none
doubled_ignored codec client runtime r t info kind twice =
    let listed_users : projects_of r.username t.cache ≢ [] = λ e. cc in
    let cached = resolve_projects_by_user-cached client runtime r.username t listed_users in
    ap (λ (x : Result (Option Verdict) × _). x.0)
      (review_namespace-eq codec client runtime r t t (info ∷ info ∷ []) kind
          (cached ∙ ap (λ l. (ok l, t)) twice)
        ∙ review_in_projects-none codec client runtime r (info ∷ info ∷ []) t refl)

-- Whatever the cache holds: two refreshes that Rancher answers from one directory can overlap so that
-- the webhook, on the cache that they leave, ends the review of a namespace with no verdict and no
-- error, although the directory binds the user of the request once only.
pub review-overlapped :
    {Q W : Type 0} (codec : Codec Q) (client : Client W) (runtime : Runtime W) (dir : Directory)
    (r : AdmissionRequest) (s : ProjectResolver W) (info : UserProjectInfo)
    → r.kind ≡ "Namespace"
    → memberships dir dir.projects r.username ≡ info ∷ []
    → (d : ProjectResolverCache) × Interleaved dir
        (record { first = listed dir.projects; second = listed dir.projects; cache = s.cache })
        (record { first = sent; second = sent; cache = d })
      × ((review codec client runtime r (record s { cache = d })).0 ≡ ok none)
review-overlapped codec client runtime dir r s info kind once = (
  _,
  overlap dir s.cache,
  doubled_ignored codec client runtime r _ info kind
      (overlap-projects_of dir s.cache r.username ∙ ap (λ l. l ++ l) once),
)
