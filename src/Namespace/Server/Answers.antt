-- ===== src/Namespace/Server/Answers.antt =====
-- What the webhook answers after any run from its start.
use balticlsc_platform.Common.{String, ℕ, Bool, List, some, inr, ◌≡◌, refl}
use balticlsc_platform.Rancher.Http.{Transport, Gjson}
use balticlsc_platform.Namespace.Resolver.{UserProjectInfo, ProjectResolver, Runtime}
use balticlsc_platform.Namespace.Resolver.Refresh.{Directory, memberships}
use balticlsc_platform.Namespace.Admission.{
  AdmissionRequest, AdmissionResponse, NamespaceObject, Codec, PatchOperation, Verdict,
}
use balticlsc_platform.Namespace.Admission.Namespaces.{sole_membership, IsPlaced, review-places}
use balticlsc_platform.Namespace.Admission.Http.{HttpRequest, response_for, serve_admit_func}
use balticlsc_platform.Namespace.Admission.Outcomes.{Holds, sent, serve_admit_func-answers}
use balticlsc_platform.Namespace.Server.{Platform}
use balticlsc_platform.Namespace.Server.Runs.{
  exchange_of, client_of, IsReached, IsPublished, IsReached-IsFresh,
}

-- Go's JSON encoder takes every patch and every response, which are made of texts and flags.
pub record Marshals {Q : Type 0} (codec : Codec Q) : Type 0 where
  pub patch : (ops : List PatchOperation) → (bytes : String) × (codec.marshal_patch ops ≡ inr bytes)
  pub review : (r : AdmissionResponse) → (bytes : String) × (codec.marshal_review r ≡ inr bytes)

module _ {J W : Type 0} (gjson : Gjson J) (send : Transport W) (platform : Platform W) {Q : Type 0}
    (codec : Codec Q) (runtime : Runtime W) (port : ℕ) (url cluster token : String) (disable : Bool)
    (dir : Directory) (w : W) (t : ProjectResolver W) where
  -- From its start, and after any sequence of requests and of changes elsewhere in which Rancher's
  -- answers keep showing one directory and OPA answers: a POST that holds the request for a
  -- namespace, of a user whom the directory makes a member, not the owner, of exactly one project, is
  -- answered with the status 200 and the encoded review of that request, whose verdict puts the
  -- namespace into the project exactly if its name starts with the project's.
  pub Served-places :
      (req : HttpRequest) (r : AdmissionRequest) (info : UserProjectInfo) (ns : NamespaceObject)
      → IsPublished gjson send platform codec runtime port url cluster token disable dir w t
      → IsReached gjson send platform codec runtime port url cluster token disable dir w t
      → Marshals codec
      → Holds codec req r
      → r.kind ≡ "Namespace"
      → sole_membership (memberships dir dir.projects r.username) ≡ some info
      → codec.unmarshal_namespace r.object ≡ inr (some ns)
      → (v : Verdict) × (patch : String) × (bytes : String) × IsPlaced info ns v
        × (codec.marshal_patch v.patch_ops ≡ inr patch)
        × (codec.marshal_review (response_for r.uid v patch) ≡ inr bytes)
        × ((serve_admit_func codec
              (client_of gjson send platform codec runtime port url cluster token disable dir w t)
              runtime
              req
              (exchange_of t)).1.writer
            ≡ sent 200 bytes)
  unfolding response_for
  Served-places req r info ns published run marshals holds kind sole parsed =
      let client =
        client_of gjson send platform codec runtime port url cluster token disable dir w t in
      let (here, fresh) =
        IsReached-IsFresh gjson send platform codec runtime port url cluster token disable dir w t
          published run in
      let (v, reviewed, placed) =
        review-places codec client runtime dir r t info ns here fresh kind sole parsed in
      let (patch, p) = marshals.patch v.patch_ops in
      let (bytes, b) = marshals.review (response_for r.uid v patch) in
      (
        v,
        patch,
        bytes,
        placed,
        p,
        b,
        λ i.
            (serve_admit_func-answers codec client runtime req r (exchange_of t) v patch bytes refl
              holds reviewed p b i).1.writer,
      )
