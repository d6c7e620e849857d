-- ===== src/Namespace/Admission/Outcomes.antt =====
-- What goes back over HTTP, for each way in which a request can end.
use balticlsc_platform.Common.{
  String, ℕ, Option, none, some, ◌==◌, inr, ◌≡◌, refl, arith, if◌then◌else◌, ok, err, ap,
}
use text.Mathlib.TextLemmas.{nil-append}
use balticlsc_platform.Rancher.Client.{Client}
use balticlsc_platform.Namespace.Resolver.{Runtime}
use balticlsc_platform.Namespace.Admission.{AdmissionRequest, Codec, Verdict, review}
use balticlsc_platform.Namespace.Admission.Http.{
  HttpRequest, ResponseWriter, Exchange, fresh_writer, write_header, write, response_for,
  parse_request, respond, respond_to, do_serve_admit_func, serve_admit_func,
}

abbrev pub sent : ℕ → String → ResponseWriter
sent code bytes = record { status = some code; body = bytes }

module _ {Q : Type 0} (codec : Codec Q) where
  -- The request passes all checks, and holds an admission request.
  pub record Holds (req : HttpRequest) (r : AdmissionRequest) : Type 0 where
    pub raw : String
    pub by_post : req.method ≡ "POST"
    pub is_json : req.content_type ≡ "application/json"
    pub is_read : req.body ≡ inr raw
    pub decoded : codec.decode raw ≡ inr (some r)

module _ {Q W : Type 0} (codec : Codec Q) where
  parse_request-Holds :
      (req : HttpRequest) (r : AdmissionRequest) (x : Exchange W)
      → Holds codec req r
      → parse_request codec req x ≡ (ok r, x)
  unfolding parse_request
  parse_request-Holds req r x h =
      rw (h.by_post, parse_request) (rw h.is_read (rw h.is_json (rw h.decoded refl)))

  -- The status of a request that a check rejects.
  parse_request-err :
      (req : HttpRequest) (x : Exchange W) (e : String)
      → x.writer ≡ fresh_writer
      → (parse_request codec req x).0 ≡ err e
      → ((parse_request codec req x).1.writer.status
          ≡ some (if req.method == "POST" then 400 else 405))
        × ((parse_request codec req x).1.writer.body ≡ "")
        × ((parse_request codec req x).1.resolver ≡ x.resolver)
  unfolding parse_request
  parse_request-err req x e fresh h = (ground arith, ground arith, ground arith)

responds :
    {Q W : Type 0} (codec : Codec Q) (uid : String) (v : Verdict) (x : Exchange W)
    (patch bytes : String)
    → codec.marshal_patch v.patch_ops ≡ inr patch
    → codec.marshal_review (response_for uid v patch) ≡ inr bytes
    → respond codec uid v x ≡ (ok bytes, x)
unfolding respond
responds codec uid v x patch bytes p b = rw (p, respond, b)

-- The status that was set first stays.
rejected_writer :
    (w : ResponseWriter) (code : ℕ) (e : String)
    → w.status ≡ some code
    → w.body ≡ ""
    → write e (write_header 500 w) ≡ sent code e
unfolding write write_header
rejected_writer w code e status body = rw (status, body) (ap (sent code) (nil-append e))

write-fresh :
    (w : ResponseWriter) (bytes : String) → w ≡ fresh_writer → write bytes w ≡ sent 200 bytes
unfolding write write_header
write-fresh w bytes fresh = rw fresh (ap (sent 200) (nil-append bytes))

write-failed :
    (w : ResponseWriter) (e : String) → w ≡ fresh_writer → write e (write_header 500 w) ≡ sent 500 e
unfolding write write_header
write-failed w e fresh = rw fresh (ap (sent 500) (nil-append e))

module _ {Q : Type 0} (codec : Codec Q) {W : Type 0} (client : Client W) (runtime : Runtime W) where
  rejected :
      (req : HttpRequest) (x : Exchange W) (e : String)
      → (parse_request codec req x).0 ≡ err e
      → do_serve_admit_func codec client runtime req x ≡ (err e, (parse_request codec req x).1)
  unfolding do_serve_admit_func
  rejected req x e h = rw (h, do_serve_admit_func)

  -- A request that a check rejects: the error goes out with the status 405 if the method is not POST
  -- and with 400 otherwise, never with the 500 that is set afterwards, and the resolver is left alone.
  pub serve_admit_func-rejected :
      (req : HttpRequest) (x : Exchange W) (e : String)
      → x.writer ≡ fresh_writer
      → (parse_request codec req x).0 ≡ err e
      → serve_admit_func codec client runtime req x
        ≡ (ok tt, record x { writer = sent (if req.method == "POST" then 400 else 405) e })
  unfolding serve_admit_func
  serve_admit_func-rejected req x e fresh h =
      let (status, body, kept) = parse_request-err codec req x e fresh h in
      rw (rejected req x e h, rejected_writer _ _ e status body, kept)

  -- The exchange after the review.
  abbrev after_review : AdmissionRequest → Exchange W → Exchange W
  after_review r x = record x { resolver = (review codec client runtime r x.resolver).1 }

  reviewed :
      (req : HttpRequest) (r : AdmissionRequest) (x : Exchange W) (o : Option Verdict)
      → Holds codec req r
      → (review codec client runtime r x.resolver).0 ≡ ok o
      → do_serve_admit_func codec client runtime req x ≡ respond_to codec r.uid o (after_review r x)
  unfolding do_serve_admit_func
  reviewed req r x o holds done =
      rw (parse_request-Holds codec req r x holds, do_serve_admit_func, done)

  failed :
      (req : HttpRequest) (r : AdmissionRequest) (x : Exchange W) (e : String)
      → Holds codec req r
      → (review codec client runtime r x.resolver).0 ≡ err e
      → do_serve_admit_func codec client runtime req x ≡ (err e, after_review r x)
  unfolding do_serve_admit_func
  failed req r x e holds done =
      rw (parse_request-Holds codec req r x holds, do_serve_admit_func, done)

  -- A request that is reviewed and whose response can be marshaled: the answer has the status 200
  -- and is the review of the request's own UID with the verdict, the patch if it is allowed and the
  -- reason if it is not.
  pub serve_admit_func-answers :
      (req : HttpRequest) (r : AdmissionRequest) (x : Exchange W) (v : Verdict)
      (patch bytes : String)
      → x.writer ≡ fresh_writer
      → Holds codec req r
      → (review codec client runtime r x.resolver).0 ≡ ok (some v)
      → codec.marshal_patch v.patch_ops ≡ inr patch
      → codec.marshal_review (record {
        uid = r.uid;
        allowed = v.allowed;
        patch = if v.allowed then some patch else none;
        result = if v.allowed then none else some v.denied_reason;
      })
        ≡ inr bytes
      → serve_admit_func codec client runtime req x ≡ (
        ok tt,
        record { writer = sent 200 bytes; resolver = (review codec client runtime r x.resolver).1 },
      )
  unfolding serve_admit_func response_for
  serve_admit_func-answers req r x v patch bytes fresh holds done p b = rw (
    reviewed req r x (some v) holds done,
    responds codec r.uid v (after_review r x) patch bytes p b,
    write-fresh x.writer bytes fresh,
  )

  -- A request whose review ends with no verdict and no error is answered by an empty body with the
  -- status 200, and not by a review.
  pub serve_admit_func-ignores :
      (req : HttpRequest) (r : AdmissionRequest) (x : Exchange W)
      → x.writer ≡ fresh_writer
      → Holds codec req r
      → (review codec client runtime r x.resolver).0 ≡ ok none
      → serve_admit_func codec client runtime req x ≡ (
        ok tt,
        record { writer = sent 200 ""; resolver = (review codec client runtime r x.resolver).1 },
      )
  unfolding serve_admit_func
  serve_admit_func-ignores req r x fresh holds done =
      rw (reviewed req r x none holds done, write-fresh x.writer "" fresh)

  -- An error of the review is answered by its message with the status 500.
  pub serve_admit_func-failed :
      (req : HttpRequest) (r : AdmissionRequest) (x : Exchange W) (e : String)
      → x.writer ≡ fresh_writer
      → Holds codec req r
      → (review codec client runtime r x.resolver).0 ≡ err e
      → serve_admit_func codec client runtime req x ≡ (
        ok tt,
        record { writer = sent 500 e; resolver = (review codec client runtime r x.resolver).1 },
      )
  unfolding serve_admit_func
  serve_admit_func-failed req r x e fresh holds done =
      rw (failed req r x e holds done, write-failed x.writer e fresh)
