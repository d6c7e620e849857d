-- ===== src/Namespace/Admission/Kept.antt =====
-- The controller's reviews on a cache that agrees with what Rancher holds.
use balticlsc_platform.Common.{
  String, ℕ, List, [], ◌∷◌, Option, none, some, ◌==◌, ◌⊎◌, inl, inr, Error, Result, ok, err, ◌+◌,
  panicked, ◌≡◌, refl, arith, Keeps, >>=-Keeps, if-Keeps,
}
use balticlsc_platform.Rancher.Client.{Client}
use balticlsc_platform.Namespace.Resolver.{
  UserProjectInfo, ProjectResolver, Runtime, resolve_projects_by_user,
  resolve_project_id_by_namespace, find_user_by_project,
}
use balticlsc_platform.Namespace.Resolver.Refresh.{Directory, Serves}
use balticlsc_platform.Namespace.Admission.{
  AdmissionRequest, Codec, approve, Container, Verdict, check_containers, check_pod, pod_project,
  is_special_project, review_pod, review_in_projects, review_namespace, review,
}
use balticlsc_platform.Namespace.Admission.Http.{
  HttpRequest, Exchange, parse_request, respond, respond_to, do_serve_admit_func, finish,
  serve_admit_func, reject, on_resolver,
}
use balticlsc_platform.Namespace.Resolver.Kept.{
  Agrees, resolve_projects_by_user-Agrees, resolve_project_id_by_namespace-Agrees,
  find_user_by_project-Agrees,
}

module _ {Q : Type 0} (codec : Codec Q) {W : Type 0} (client : Client W) (runtime : Runtime W) where
  -- An error of the resolver changes the answer only.
  pod_project-resolves :
      (ns : String) (s : ProjectResolver W)
      → (pod_project codec client runtime ns s).1
        ≡ (resolve_project_id_by_namespace client runtime ns s).1
  unfolding pod_project
  pod_project-resolves ns s = ground arith

  is_special_project-finds :
      (id : String) (s : ProjectResolver W)
      → (is_special_project codec client runtime id s).1
        ≡ (find_user_by_project client runtime id s).1
  unfolding is_special_project
  is_special_project-finds id s = ground arith

module _ {Q : Type 0} (codec : Codec Q) {W : Type 0} (client : Client W) (runtime : Runtime W)
    (cluster : String) (dir : Directory) (serves : Serves client runtime cluster dir) where
  pod_project-Agrees :
      (ns : String) → Keeps (Agrees cluster dir) (pod_project codec client runtime ns)
  pod_project-Agrees ns s h =
      rw (pod_project-resolves codec client runtime ns s)
        (resolve_project_id_by_namespace-Agrees client runtime cluster dir serves ns s h)

  is_special_project-Agrees :
      (id : String) → Keeps (Agrees cluster dir) (is_special_project codec client runtime id)
  is_special_project-Agrees id s h =
      rw (is_special_project-finds codec client runtime id s)
        (find_user_by_project-Agrees client runtime cluster dir serves id s h)

  check_containers-Agrees :
      (cs : List (Container Q)) (i : ℕ) (v : Verdict) (s : ProjectResolver W)
      → Agrees cluster dir s
      → Agrees cluster dir (check_containers codec client runtime i cs v s).1
  unfolding check_containers
  check_containers-Agrees [] i v s h = h
  check_containers-Agrees (c ∷ cs) i v s h =
      check_containers-Agrees cs (i + 1) _ _
        (record { same_cluster = h.same_cluster; fresh = h.fresh })

  check_pod-Agrees :
      (pod : Option (List (Container Q)))
      → Keeps (Agrees cluster dir) (check_pod codec client runtime pod)
  unfolding check_pod
  check_pod-Agrees none s h = h
  check_pod-Agrees (some cs) s h = check_containers-Agrees cs 0 approve s h

  review_pod-Agrees :
      (r : AdmissionRequest) → Keeps (Agrees cluster dir) (review_pod codec client runtime r)
  unfolding review_pod
  review_pod-Agrees r s h = by_pod (codec.unmarshal_pod r.object) refl
    where
      by_pod :
          (pod : Error ⊎ Option (List (Container Q)))
          → codec.unmarshal_pod r.object ≡ pod
          → Agrees cluster dir (review_pod codec client runtime r s).1
      by_pod (inl x) e = rw (e, review_pod) h
      by_pod (inr pod) e =
          rw (e, review_pod)
            (>>=-Keeps (Agrees cluster dir) (pod_project codec client runtime r.namespace) _
              (pod_project-Agrees r.namespace)
              (λ project.
                if-Keeps (Agrees cluster dir) (project == "") _ _ (λ t k. k)
                  (>>=-Keeps (Agrees cluster dir) (is_special_project codec client runtime project)
                    _ (is_special_project-Agrees project)
                    (λ special.
                      if-Keeps (Agrees cluster dir) special _ _ (λ t k. k) (check_pod-Agrees pod))))
              s h)

  -- This step changes nothing.
  review_in_projects-stays :
      (r : AdmissionRequest) (plist : List UserProjectInfo) (s : ProjectResolver W)
      → (review_in_projects codec client runtime r plist s).1 ≡ s
  unfolding review_in_projects
  review_in_projects-stays r [] s = refl
  review_in_projects-stays r (_ ∷ _ ∷ _) s = refl
  review_in_projects-stays r (info ∷ []) s = ground arith

  review_namespace-Agrees :
      (r : AdmissionRequest) → Keeps (Agrees cluster dir) (review_namespace codec client runtime r)
  unfolding review_namespace
  review_namespace-Agrees r =
      >>=-Keeps (Agrees cluster dir) (resolve_projects_by_user client runtime r.username) _
        (resolve_projects_by_user-Agrees client runtime cluster dir serves r.username)
        (λ plist s h. rw (review_in_projects-stays r plist s) h)

  pub review-Agrees :
      (r : AdmissionRequest) → Keeps (Agrees cluster dir) (review codec client runtime r)
  unfolding review
  review-Agrees r =
      if-Keeps (Agrees cluster dir) (r.kind == "Namespace") _ _ (review_namespace-Agrees r) (
        if-Keeps (Agrees cluster dir) (r.kind == "Pod") _ _
          (>>=-Keeps (Agrees cluster dir) (review_pod codec client runtime r) _
            (review_pod-Agrees r) (λ v s h. h))
          (λ s h. h))

-- An exchange whose resolver agrees.
abbrev AgreesInside : {W : Type 0} → String → Directory → Exchange W → Type 0
AgreesInside cluster dir x = Agrees cluster dir x.resolver

module _ {Q : Type 0} (codec : Codec Q) {W : Type 0} where
  -- Parsing and responding touch the writer only.
  parse_request-resolver :
      (req : HttpRequest) (x : Exchange W) → (parse_request codec req x).1.resolver ≡ x.resolver
  unfolding parse_request reject
  parse_request-resolver req x = ground arith

  respond_to-resolver :
      (uid : String) (v : Option Verdict) (x : Exchange W)
      → (respond_to codec uid v x).1.resolver ≡ x.resolver
  unfolding respond reject
  respond_to-resolver uid none x = refl
  respond_to-resolver uid (some v) x = ground arith

finish-resolver :
    {W : Type 0} (r : Result String) (x : Exchange W) → (finish r x).1.resolver ≡ x.resolver
unfolding finish
finish-resolver (ok bytes) x = refl
finish-resolver (err e) x = refl
finish-resolver (panicked e) x = refl

module _ {Q : Type 0} (codec : Codec Q) {W : Type 0} (client : Client W) (runtime : Runtime W)
    (cluster : String) (dir : Directory) (serves : Serves client runtime cluster dir) where
  do_serve_admit_func-Agrees :
      (req : HttpRequest)
      → Keeps (AgreesInside cluster dir) (do_serve_admit_func codec client runtime req)
  unfolding do_serve_admit_func
  do_serve_admit_func-Agrees req =
      >>=-Keeps (AgreesInside cluster dir) (parse_request codec req) _
        (λ x h. rw (parse_request-resolver codec req x) h)
        (λ r.
          >>=-Keeps (AgreesInside cluster dir) (on_resolver (review codec client runtime r)) _
            (λ x h. review-Agrees codec client runtime cluster dir serves r x.resolver h)
            (λ v x h. rw (respond_to-resolver codec r.uid v x) h))

  -- Whatever the request is and whatever comes of it, the resolver still agrees.
  pub serve_admit_func-Agrees :
      (req : HttpRequest)
      → Keeps (AgreesInside cluster dir) (serve_admit_func codec client runtime req)
  unfolding serve_admit_func
  serve_admit_func-Agrees req x h =
      rw
        (finish-resolver (do_serve_admit_func codec client runtime req x).0
          (do_serve_admit_func codec client runtime req x).1)
        (do_serve_admit_func-Agrees req x h)
