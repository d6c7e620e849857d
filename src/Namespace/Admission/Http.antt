-- ===== src/Namespace/Admission/Http.antt =====
-- namespace-controller/server/admission_controller.go: `DoServeAdmitFunc` around the review, and
-- `ServeAdmitFunc`.
use balticlsc_platform.Common.{
  String, ◌<>◌, ℕ, Option, none, some, ◌==◌, not, if◌then◌else◌, ◌⊎◌, inl, inr, Error, Result, ok,
  err, panicked, Exec, pure, raise, ◌>>=◌,
}
use balticlsc_platform.Rancher.Client.{Client}
use balticlsc_platform.Namespace.Resolver.{ProjectResolver, Runtime}
use balticlsc_platform.Namespace.Admission.{
  AdmissionRequest, AdmissionResponse, Codec, Verdict, review,
}

-- `body` is what reading the body gives.
pub record HttpRequest : Type 0 where
  pub method : String
  pub content_type : String
  pub body : Error ⊎ String

-- What has been sent: the status line, if any, and the body.
pub record ResponseWriter : Type 0 where
  pub status : Option ℕ
  pub body : String

pub record Exchange (W : Type 0) : Type 0 where
  pub writer : ResponseWriter
  pub resolver : ProjectResolver W

abbrev pub fresh_writer : ResponseWriter
fresh_writer = record { status = none; body = "" }

-- Only the first status counts.
unfoldable pub write_header : ℕ → ResponseWriter → ResponseWriter
write_header code w = elim w.status [ none ↦ record w { status = some code } | some _ ↦ w ]

-- A body without a status has the status 200.
unfoldable pub write : String → ResponseWriter → ResponseWriter
unfolding write_header
write bytes w = let w' = write_header 200 w in record w' { body = w'.body <> bytes }

-- The response for a verdict, with the patch that was marshaled.
unfoldable pub response_for : String → Verdict → String → AdmissionResponse
response_for uid v patch = record {
  uid = uid;
  allowed = v.allowed;
  patch = if v.allowed then some patch else none;
  result = if v.allowed then none else some v.denied_reason;
}

module _ {W : Type 0} where
  -- `w.WriteHeader(code)`, and an error.
  unfoldable pub reject : {A : Type 0} → ℕ → Error → Exec (Exchange W) A
  unfolding write_header
  reject code e x = (err e, record x { writer = write_header code x.writer })

  abbrev pub on_resolver : {A : Type 0} → Exec (ProjectResolver W) A → Exec (Exchange W) A
  on_resolver m x = let (r, s) = m x.resolver in (r, record x { resolver = s })

module _ {Q : Type 0} (codec : Codec Q) {W : Type 0} where
  -- The checks before the review.
  unfoldable pub parse_request : HttpRequest → Exec (Exchange W) AdmissionRequest
  unfolding reject
  parse_request req =
      if not (req.method == "POST")
      then reject 405 ("Invalid method " <> req.method <> ", only POST requests are allowed")
      else elim req.body [
        | inl e ↦ reject 400 ("Could not read request body: " <> e)
        | inr body ↦
            if not (req.content_type == "application/json")
            then reject 400 (
                "Unsupported content type " <> req.content_type
                <> ", only application/json is supported")
            else elim (codec.decode body) [
              | inl e ↦ reject 400 ("Could not deserialize request: " <> e)
              | inr none ↦ reject 400 "Malformed admission review: request is nil"
              | inr (some r) ↦ pure r
            ]
      ]

  -- The end of `DoServeAdmitFunc`.
  unfoldable pub respond : String → Verdict → Exec (Exchange W) String
  unfolding reject response_for
  respond uid v = elim (codec.marshal_patch v.patch_ops) [
    | inl e ↦ reject 500 ("Could not marshal JSON patch: " <> e)
    | inr patch ↦ elim (codec.marshal_review (response_for uid v patch)) [
      | inl e ↦ raise ("Marshaling response: " <> e)
      | inr bytes ↦ pure bytes
    ]
  ]

  abbrev pub respond_to : String → Option Verdict → Exec (Exchange W) String
  respond_to uid none = pure ""
  respond_to uid (some v) = respond uid v

-- What `ServeAdmitFunc` does with the result. A panic aborts the exchange.
unfoldable pub finish : {W : Type 0} → Result String → Exchange W → Result (Unit {0}) × Exchange W
finish (ok bytes) x = (ok tt, record x { writer = write bytes x.writer })
finish (err e) x = (ok tt, record x { writer = write e (write_header 500 x.writer) })
finish (panicked e) x = (panicked e, x)

module _ {Q : Type 0} (codec : Codec Q) {W : Type 0} (client : Client W) (runtime : Runtime W) where
  unfoldable pub do_serve_admit_func : HttpRequest → Exec (Exchange W) String
  do_serve_admit_func req = do
    r ← parse_request codec req
    verdict ← on_resolver (review codec client runtime r)
    respond_to codec r.uid verdict

  unfoldable pub serve_admit_func : HttpRequest → Exec (Exchange W) (Unit {0})
  unfolding finish
  serve_admit_func req x = let (r, x') = do_serve_admit_func req x in finish r x'
