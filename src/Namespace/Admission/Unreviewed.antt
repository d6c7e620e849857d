-- ===== src/Namespace/Admission/Unreviewed.antt =====
-- The answers to requests for namespaces that the webhook reaches no verdict on.
use balticlsc_platform.Common.{String, [], none, Error, ok, err, ◌≡◌, refl, ap, ◌∙◌}
use balticlsc_platform.Rancher.Client.{Client}
use balticlsc_platform.Namespace.Resolver.{
  ProjectResolver, Runtime, projects_of, update_cache, resolve_projects_by_user,
}
use balticlsc_platform.Namespace.Resolver.Refresh.{Directory, Serves, memberships}
use balticlsc_platform.Namespace.Resolver.Answers.{IsFresh}
use balticlsc_platform.Namespace.Admission.{AdmissionRequest, Codec, review, review_namespace}
use balticlsc_platform.Namespace.Admission.Http.{
  HttpRequest, Exchange, fresh_writer, serve_admit_func,
}
use balticlsc_platform.Namespace.Admission.Namespaces.{sole_membership, review-ignores}
use balticlsc_platform.Namespace.Admission.Outcomes.{
  Holds, sent, serve_admit_func-ignores, serve_admit_func-failed,
}

module _ {Q W : Type 0} (codec : Codec Q) (client : Client W) (runtime : Runtime W) where
  unlisted :
      (user : String) (s : ProjectResolver W) (e : Error) (w : W)
      → projects_of user s.cache ≡ []
      → client.get_projects s.cluster_id s.world ≡ (err e, w)
      → resolve_projects_by_user client runtime user s ≡ (err e, record s { world = w })
  unfolding resolve_projects_by_user update_cache
  unlisted user s e w unknown failed =
      rw (unknown, resolve_projects_by_user, failed, update_cache) refl

  review_unlisted :
      (r : AdmissionRequest) (s : ProjectResolver W) (e : Error) (w : W)
      → r.kind ≡ "Namespace"
      → projects_of r.username s.cache ≡ []
      → client.get_projects s.cluster_id s.world ≡ (err e, w)
      → review codec client runtime r s ≡ (err e, record s { world = w })
  unfolding review review_namespace
  review_unlisted r s e w kind unknown failed =
      rw (kind, review, unlisted r.username s e w unknown failed, review_namespace) refl

  -- A request for a namespace whose user the cache does not know, when Rancher cannot list its
  -- projects: Rancher's error goes out with the status 500, and the cache keeps what it holds.
  pub serve_admit_func_unlisted :
      (req : HttpRequest) (r : AdmissionRequest) (x : Exchange W) (e : Error) (w : W)
      → x.writer ≡ fresh_writer
      → Holds codec req r
      → r.kind ≡ "Namespace"
      → projects_of r.username x.resolver.cache ≡ []
      → client.get_projects x.resolver.cluster_id x.resolver.world ≡ (err e, w)
      → serve_admit_func codec client runtime req x
        ≡ (ok tt, record { writer = sent 500 e; resolver = record x.resolver { world = w } })
  serve_admit_func_unlisted req r x e w fresh holds kind unknown failed =
      let done = review_unlisted r x.resolver e w kind unknown failed in
      serve_admit_func-failed codec client runtime req r x e fresh holds (ap (λ p. p.0) done)
      ∙ ap (λ p. (ok tt, record { writer = sent 500 e; resolver = p.1 })) done

  -- A request for a namespace by a user who does not have exactly one project in the directory, or
  -- owns it, while nothing disturbs Rancher and OPA: the answer has the status 200 and an empty body,
  -- and is no review.
  pub serve_admit_func_unreviewed :
      (dir : Directory) (req : HttpRequest) (r : AdmissionRequest) (x : Exchange W)
      → Serves client runtime x.resolver.cluster_id dir
      → IsFresh dir x.resolver.cache
      → x.writer ≡ fresh_writer
      → Holds codec req r
      → r.kind ≡ "Namespace"
      → sole_membership (memberships dir dir.projects r.username) ≡ none
      → ((serve_admit_func codec client runtime req x).0 ≡ ok tt)
        × ((serve_admit_func codec client runtime req x).1.writer ≡ sent 200 "")
  serve_admit_func_unreviewed dir req r x h known fresh holds kind sole =
      let done = review-ignores codec client runtime dir r x.resolver h known kind sole in
      let answered = serve_admit_func-ignores codec client runtime req r x fresh holds done in
      (ap (λ p. p.0) answered, ap (λ p. p.1.writer) answered)
