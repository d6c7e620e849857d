-- ===== src/Namespace/Admission/Exempt.antt =====
-- The pods that the webhook does not look into.
use balticlsc_platform.Common.{String, Option, none, some, List, ok, inr, ◌≡◌, refl}
use balticlsc_platform.Rancher.Client.{Client}
use balticlsc_platform.Namespace.Resolver.{
  ProjectResolver, Runtime, resolve_project_id_by_namespace,
}
use balticlsc_platform.Namespace.Resolver.Refresh.{Directory, Serves, project_of}
use balticlsc_platform.Namespace.Resolver.Answers.{IsFresh, resolve_project_id_by_namespace_correct}
use balticlsc_platform.Namespace.Admission.{
  AdmissionRequest, Codec, Container, approve, pod_project, review_pod, review,
}

module _ {Q W : Type 0} (codec : Codec Q) (client : Client W) (runtime : Runtime W) where
  pub pod_project-ok :
      (ns : String) (s : ProjectResolver W) (id : String) (b : _)
      → (resolve_project_id_by_namespace client runtime ns s).0 ≡ ok (id, b)
      → pod_project codec client runtime ns s
        ≡ (ok id, (resolve_project_id_by_namespace client runtime ns s).1)
  unfolding pod_project
  pod_project-ok ns s id b h = rw (h, pod_project) refl

  -- A pod in a namespace that no project lists, while nothing disturbs Rancher and OPA: it is allowed
  -- as it is, whatever its containers ask for.
  pub review-approves :
      (dir : Directory) (r : AdmissionRequest) (s : ProjectResolver W)
      (pod : Option (List (Container Q)))
      → Serves client runtime s.cluster_id dir
      → IsFresh dir s.cache
      → r.kind ≡ "Pod"
      → codec.unmarshal_pod r.object ≡ inr pod
      → project_of dir dir.projects r.namespace ≡ none
      → (review codec client runtime r s).0 ≡ ok (some approve)
  unfolding review review_pod
  review-approves dir r s pod h fresh kind parsed outside =
      let (found, _) =
        resolve_project_id_by_namespace_correct client runtime dir r.namespace s h fresh in
      rw (kind, review, review_pod, parsed, pod_project-ok r.namespace s _ _ found, outside) refl
