-- ===== src/Namespace/Admission/PodReviews.antt =====
-- Which pods the webhook looks into, by the owner of their project.
use balticlsc_platform.Common.{
  inl, String, Bool, true, false, some, List, ◌==◌, ok, inr, ◌≡◌, ◌↔◌, refl, All, not, ap, ◌∙◌, sym,
  subst, Bool-cases, eq_iff,
}
use balticlsc_platform.Rancher.Client.{Client}
use balticlsc_platform.Namespace.Resolver.{
  ProjectResolver, Runtime, resolve_project_id_by_namespace, find_user_by_project, project_id_of,
}
use balticlsc_platform.Namespace.Resolver.Users.{RangesOverKeys}
use balticlsc_platform.Namespace.Resolver.Refresh.{Directory, Serves, project_of, update_cache_lem}
use balticlsc_platform.Namespace.Resolver.Answers.{
  IsFresh, id_or_empty, resolve_absent_namespace, resolve_known_namespace,
  resolve_project_id_by_namespace_correct,
}
use balticlsc_platform.Namespace.Resolver.Unowned.{IsUnowned, find_user_by_project_unowned}
use balticlsc_platform.Namespace.Admission.{
  AdmissionRequest, Codec, Container, Verdict, approve, pod_project, is_special_project,
  check_containers, check_pod, review_pod, review,
}
use balticlsc_platform.Namespace.Admission.Pods.{IsWithin, check_pod-allowed}

module _ {Q W : Type 0} (codec : Codec Q) (client : Client W) (runtime : Runtime W)
    (r : AdmissionRequest) (s : ProjectResolver W) (id : String) (cached : Bool) where
  -- The resolver after the project of the namespace was looked up.
  abbrev pub placed_resolver : ProjectResolver W
  placed_resolver = (resolve_project_id_by_namespace client runtime r.namespace s).1

  -- By the results of the two searches.
  review-checks :
      (cs : List (Container Q)) (user : String)
      → RangesOverKeys runtime
      → r.kind ≡ "Pod"
      → codec.unmarshal_pod r.object ≡ inr (some cs)
      → (resolve_project_id_by_namespace client runtime r.namespace s).0 ≡ ok (id, cached)
      → (id == "") ≡ false
      → (find_user_by_project client runtime id placed_resolver).0 ≡ ok (user, false)
      → (v : Verdict) × ((review codec client runtime r s).0 ≡ ok (some v))
        × ((v.allowed ≡ true) ↔ All (IsWithin codec) cs)
  unfolding review review_pod pod_project is_special_project check_pod
  review-checks cs user visits kind parsed placed known member =
      let u = (find_user_by_project client runtime id placed_resolver).1 in
      (
        (check_containers codec client runtime 0 cs approve u).0,
        rw
            (
              kind, review, review_pod, parsed, pod_project, placed, known, is_special_project,
              member, check_pod,
            )
            refl,
        check_pod-allowed codec client runtime cs u visits,
      )

module _ {Q W : Type 0} (codec : Codec Q) (client : Client W) (runtime : Runtime W)
    (dir : Directory) where
  pub cluster_id-placed :
      (r : AdmissionRequest) (s : ProjectResolver W)
      → Serves client runtime s.cluster_id dir
      → (resolve_project_id_by_namespace client runtime r.namespace s).1.cluster_id ≡ s.cluster_id
  cluster_id-placed r s h = elim (Bool-cases (project_id_of r.namespace s.cache == "")) [
    | inl unknown ↦
        let (w, done) = update_cache_lem client runtime dir s h in
        let absent = (eq_iff (project_id_of r.namespace s.cache) "").0 unknown in
        ap (λ p. p.1.cluster_id)
          (resolve_absent_namespace client runtime r.namespace s _ absent done)
    | inr known ↦
        ap (λ p. p.1.cluster_id) (resolve_known_namespace client runtime r.namespace s known)
  ]

  -- A pod in a namespace of a project that has a member and that nobody owns, while nothing disturbs
  -- Rancher and OPA, whatever of the directory the cache holds: the review gives a verdict, which
  -- allows the pod exactly if every container states its requests and has no limit above the request
  -- for the same resource; a missing limit, and a request above the limit, are allowed.
  pub review-checks_unowned :
      (r : AdmissionRequest) (s : ProjectResolver W) (id : String) (cs : List (Container Q))
      → Serves client runtime s.cluster_id dir
      → IsFresh dir s.cache
      → RangesOverKeys runtime
      → r.kind ≡ "Pod"
      → codec.unmarshal_pod r.object ≡ inr (some cs)
      → project_of dir dir.projects r.namespace ≡ some id
      → (id == "") ≡ false
      → IsUnowned dir id
      → (v : Verdict) × ((review codec client runtime r s).0 ≡ ok (some v))
        × ((v.allowed ≡ true) ↔ All (IsWithin codec) cs)
  review-checks_unowned r s id cs h fresh visits kind parsed listed known unowned =
      let (found, still) =
        resolve_project_id_by_namespace_correct client runtime dir r.namespace s h fresh in
      let cached = not (project_id_of r.namespace s.cache == "") in
      let serves =
        subst (λ (c : String). Serves client runtime c dir) (sym (cluster_id-placed r s h)) h in
      let (user, member) =
        find_user_by_project_unowned client runtime dir id
          (resolve_project_id_by_namespace client runtime r.namespace s).1 visits serves still
          unowned in
      review-checks codec client runtime r s id cached cs user visits kind parsed
        (found ∙ ap (λ o. ok (id_or_empty o, cached)) listed) known member
