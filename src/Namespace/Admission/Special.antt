-- ===== src/Namespace/Admission/Special.antt =====
-- The pods of projects that only owners have.
use balticlsc_platform.Common.{
  String, Bool, Option, some, List, ◌==◌, inl, inr, ok, ◌≡◌, refl, false, not, ap, ◌∙◌, sym, subst,
}
use balticlsc_platform.Rancher.Client.{Client}
use balticlsc_platform.Namespace.Resolver.{
  ProjectResolver, Runtime, resolve_project_id_by_namespace, project_id_of,
}
use balticlsc_platform.Namespace.Resolver.Users.{RangesOverKeys}
use balticlsc_platform.Namespace.Resolver.Refresh.{Directory, Serves, project_of}
use balticlsc_platform.Namespace.Resolver.Answers.{
  IsFresh, id_or_empty, resolve_project_id_by_namespace_correct,
}
use balticlsc_platform.Namespace.Resolver.Special.{IsSpecial, Special, find_user_by_project-Special}
use balticlsc_platform.Namespace.Admission.{
  AdmissionRequest, Codec, Container, approve, pod_project, is_special_project, review_pod, review,
}
use balticlsc_platform.Namespace.Admission.PodReviews.{placed_resolver, cluster_id-placed}

module _ {Q W : Type 0} (codec : Codec Q) (client : Client W) (runtime : Runtime W)
    (r : AdmissionRequest) (s : ProjectResolver W) (id : String) (cached : Bool) where
  approves :
      (pod : Option (List (Container Q)))
      → r.kind ≡ "Pod"
      → codec.unmarshal_pod r.object ≡ inr pod
      → (resolve_project_id_by_namespace client runtime r.namespace s).0 ≡ ok (id, cached)
      → (id == "") ≡ false
      → Special client runtime id (placed_resolver codec client runtime r s id cached)
      → (review codec client runtime r s).0 ≡ ok (some approve)
  unfolding review review_pod pod_project is_special_project
  approves pod kind parsed placed known (inl (user, owned)) =
      rw (kind, review, review_pod, parsed, pod_project, placed, known, is_special_project, owned)
        refl
  approves pod kind parsed placed known (inr (e, failed)) =
      rw (kind, review, review_pod, parsed, pod_project, placed, known, is_special_project, failed)
        refl

-- A pod in a namespace of a project that only owners without another project have, or nobody at all,
-- where no binding lacks a user, while nothing disturbs Rancher and OPA: it is allowed as it is,
-- whatever its containers ask for.
pub review-approves_special :
    {Q W : Type 0} (codec : Codec Q) (client : Client W) (runtime : Runtime W) (dir : Directory)
    (r : AdmissionRequest) (s : ProjectResolver W) (id : String) (pod : Option (List (Container Q)))
    → Serves client runtime s.cluster_id dir
    → IsFresh dir s.cache
    → RangesOverKeys runtime
    → r.kind ≡ "Pod"
    → codec.unmarshal_pod r.object ≡ inr pod
    → project_of dir dir.projects r.namespace ≡ some id
    → (id == "") ≡ false
    → IsSpecial dir id
    → (review codec client runtime r s).0 ≡ ok (some approve)
review-approves_special codec client runtime dir r s id pod h fresh visits kind parsed listed known
      special =
    let (found, still) =
      resolve_project_id_by_namespace_correct client runtime dir r.namespace s h fresh in
    let cached = not (project_id_of r.namespace s.cache == "") in
    let serves =
      subst (λ (c : String). Serves client runtime c dir)
        (sym (cluster_id-placed codec client runtime dir r s h)) h in
    let t = (resolve_project_id_by_namespace client runtime r.namespace s).1 in
    approves codec client runtime r s id cached pod kind parsed
      (found ∙ ap (λ o. ok (id_or_empty o, cached)) listed) known
      (find_user_by_project-Special client runtime dir id t visits serves still special)
