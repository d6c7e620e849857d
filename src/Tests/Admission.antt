-- ===== src/Tests/Admission.antt =====
-- The webhook of the namespace controller, run on a small cluster; quantities are numbers.
use Prim.Native.Nat.{compare}
use balticlsc_platform.Common.{
  String, ℕ, true, false, [], ◌∷◌, Option, none, some, ◌==◌, if◌then◌else◌, ok, err, Result, ◌≡◌,
  ◌↔◌, refl, inl, inr, All, Among, show_nat, for_each,
}
use balticlsc_platform.Common.Dict
use balticlsc_platform.Namespace.Resolver.{
  project_info, UserProjectInfo, clear, projects_of, update_cache, resolve_projects_by_user,
  clear_cache, add_member, add_namespace, add_project, send_cache,
}
use balticlsc_platform.Namespace.Admission.{
  AdmissionRequest, AdmissionResponse, NamespaceObject, Container, Codec, Verdict, PatchOperation,
  approve, review, review_namespace, review_pod, review_in_projects, namespace_verdict,
  check_containers, check_pod, pod_project, is_special_project, check_requests, check_present,
  limit_path,
}
use balticlsc_platform.Namespace.Admission.Pods.{IsWithin, check_pod-allowed}
use balticlsc_platform.Namespace.Admission.Limits.{FillsOne, patch_ops-check_pod}
use balticlsc_platform.Namespace.Admission.Namespaces.{IsPlaced, review-places, review-ignores}
use balticlsc_platform.Namespace.Admission.Http.{
  HttpRequest, Exchange, fresh_writer, parse_request, serve_admit_func,
}
use balticlsc_platform.Namespace.Admission.Outcomes.{
  Holds, sent, serve_admit_func-rejected, serve_admit_func-answers,
}
use balticlsc_platform.Rancher.Client.{Client}
use balticlsc_platform.Namespace.Admission.Unreviewed.{
  serve_admit_func_unlisted, serve_admit_func_unreviewed,
}
use balticlsc_platform.Tests.Cluster.{
  directory, rancher, runtime, start, rancher-Serves, runtime-RangesOverKeys,
}
use balticlsc_platform.Tests.Resolver.{start-IsFresh}

abbrev pub request : String → String → AdmissionRequest
request kind user = record {
  uid = "u1";
  kind = kind;
  username = user;
  namespace = "alice-ns";
  object = "object";
}

abbrev pub alice_ns : NamespaceObject
alice_ns = record { name = "alice-ns"; annotations = ("field.cattle.io/projectId", "p2") ∷ [] }

abbrev pub container : Container ℕ
container = record {
  name = "main";
  requests = some (("cpu", 2) ∷ ("memory", 5) ∷ []);
  limits = some (("cpu", 2) ∷ []);
}

abbrev pub codec : Codec ℕ
codec = record {
  decode = λ raw.
      if raw == "alice"
      then inr (some (request "Namespace" "alice"))
      else if raw == "root"
      then inr (some (request "Namespace" "root"))
      else inl "bad";
  unmarshal_namespace = λ raw. inr (some alice_ns);
  unmarshal_pod = λ raw. inr (some (container ∷ []));
  marshal_patch = λ ops. inr "patch";
  marshal_review = λ r. inr (if r.allowed then "allowed" else "denied");
  cmp = compare;
  quantity_text = show_nat;
}

check_pod-allowed_example :
    ((check_containers codec rancher runtime 0 (container ∷ []) approve start).0.allowed ≡ true)
    ↔ All (IsWithin codec) (container ∷ [])
check_pod-allowed_example =
    check_pod-allowed codec rancher runtime (container ∷ []) start runtime-RangesOverKeys

abbrev memory_limit : PatchOperation
memory_limit = record {
  op = "add";
  path = "/spec/containers/0/resources/limits/memory";
  value = balticlsc_platform.Namespace.Admission.PatchValue.text "5";
}

patch_ops-check_pod_example :
    Among memory_limit
      (check_containers codec rancher runtime 0 (container ∷ []) approve start).0.patch_ops
    ↔ FillsOne codec 0 (container ∷ []) memory_limit
patch_ops-check_pod_example =
    patch_ops-check_pod codec rancher runtime runtime-RangesOverKeys (container ∷ []) start
      memory_limit

pod_run :
    check_containers codec rancher runtime 0 (container ∷ []) approve start
    ≡ (record approve { patch_ops = memory_limit ∷ [] }, start)
unfolding check_containers Dict.keys Dict.lookup limit_path show_nat
pod_run = refl

abbrev pub alice_project : UserProjectInfo
alice_project = record { is_owner = false; project_id = "p1"; project_name = "alice" }

review-places_example :
    (v : Verdict) × ((review codec rancher runtime (request "Namespace" "alice") start).0
      ≡ ok (some v))
    × IsPlaced alice_project alice_ns v
unfolding project_info
review-places_example =
    review-places codec rancher runtime directory (request "Namespace" "alice") start alice_project
      alice_ns rancher-Serves start-IsFresh refl refl refl

review-ignores_example :
    (review codec rancher runtime (request "Namespace" "root") start).0 ≡ ok none
unfolding project_info
review-ignores_example =
    review-ignores codec rancher runtime directory (request "Namespace" "root") start rancher-Serves
      start-IsFresh refl refl

abbrev pub post : String → HttpRequest
post raw = record { method = "POST"; content_type = "application/json"; body = inr raw }

abbrev exchange : Exchange (Unit {0})
exchange = record { writer = fresh_writer; resolver = start }

pub alice-Holds : Holds codec (post "alice") (request "Namespace" "alice")
alice-Holds = record {
  raw = "alice";
  by_post = refl;
  is_json = refl;
  is_read = refl;
  decoded = refl;
}

root-Holds : Holds codec (post "root") (request "Namespace" "root")
root-Holds = record { raw = "root"; by_post = refl; is_json = refl; is_read = refl; decoded = refl }

serve_admit_func_unreviewed_example :
    ((serve_admit_func codec rancher runtime (post "root") exchange).0 ≡ ok tt)
    × ((serve_admit_func codec rancher runtime (post "root") exchange).1.writer ≡ sent 200 "")
unfolding project_info
serve_admit_func_unreviewed_example =
    serve_admit_func_unreviewed codec rancher runtime directory (post "root")
      (request "Namespace" "root") exchange rancher-Serves start-IsFresh refl root-Holds refl refl

-- Opens what a review of a namespace runs through.
run : Codec ℕ → String → Result (Option Verdict)
unfolding review review_namespace resolve_projects_by_user review_in_projects update_cache
    clear_cache clear for_each add_project add_member add_namespace send_cache projects_of
    project_info Dict.lookup Dict.insert Dict.keys
run c user = (review c rancher runtime (request "Namespace" user) start).0

alice_reviewed :
    (review codec rancher runtime (request "Namespace" "alice") start).0
    ≡ ok (some (namespace_verdict alice_project alice_ns))
unfolding run
alice_reviewed = refl

serve_admit_func-answers_example :
    serve_admit_func codec rancher runtime (post "alice") exchange ≡ (
      ok tt,
      record {
        writer = sent 200 "allowed";
        resolver = (review codec rancher runtime (request "Namespace" "alice") start).1;
      },
    )
unfolding namespace_verdict
serve_admit_func-answers_example =
    serve_admit_func-answers codec rancher runtime (post "alice") (request "Namespace" "alice")
      exchange (namespace_verdict alice_project alice_ns) "patch" "allowed" refl alice-Holds
      alice_reviewed refl refl

serve_admit_func-rejected_example :
    serve_admit_func codec rancher runtime (record (post "alice") { method = "GET" }) exchange ≡ (
      ok tt,
      record exchange { writer = sent 405 "Invalid method GET, only POST requests are allowed" },
    )
unfolding parse_request
serve_admit_func-rejected_example =
    serve_admit_func-rejected codec rancher runtime (record (post "alice") { method = "GET" })
      exchange "Invalid method GET, only POST requests are allowed" refl refl

-- A Rancher that is away.
abbrev away : Client (Unit {0})
away = record rancher { get_projects = λ _ w. (err "no connection", w) }

serve_admit_func_unlisted_example :
    serve_admit_func codec away runtime (post "alice") exchange
    ≡ (ok tt, record { writer = sent 500 "no connection"; resolver = start })
unfolding projects_of Dict.lookup
serve_admit_func_unlisted_example =
    serve_admit_func_unlisted codec away runtime (post "alice") (request "Namespace" "alice")
      exchange "no connection" tt refl alice-Holds refl refl refl
