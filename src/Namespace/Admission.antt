-- ===== src/Namespace/Admission.antt =====
-- namespace-controller/server/admission_controller.go: what the webhook decides.
-- The HTTP side is in Admission/Http.
pub mod Http
pub mod Outcomes
pub mod Pods
pub mod Limits
pub mod Exempt
pub mod PodReviews
pub mod Special
pub mod Unreviewed
pub mod Kept
pub mod Overlapped
pub mod Namespaces
use Prim.Native.Nat.{Ordering}
use mathlib.Core.List.{foldl}
use balticlsc_platform.Common.{
  String, ◌<>◌, ℕ, ◌+◌, Bool, true, false, List, [], ◌∷◌, ◌++◌, Option, none, some, ◌==◌, ◌&&◌,
  ◌||◌, if◌then◌else◌, ◌⊎◌, inl, inr, Error, Result, ok, err, panicked, Exec, pure, raise, panic,
  ◌>>=◌, starts_with, show_nat,
}
use balticlsc_platform.Common.Dict
use balticlsc_platform.Common.Dict.{Dict}
use balticlsc_platform.Rancher.Client.{Client}
use balticlsc_platform.Namespace.Resolver.{
  UserProjectInfo, ProjectResolver, Runtime, resolve_projects_by_user,
  resolve_project_id_by_namespace, find_user_by_project,
}

-- The part of an admission request that the controller reads; `object` is the raw JSON.
pub record AdmissionRequest : Type 0 where
  pub uid : String
  pub kind : String
  pub username : String
  pub namespace : String
  pub object : String

-- A response: `result` is the message of the status.
pub record AdmissionResponse : Type 0 where
  pub uid : String
  pub allowed : Bool
  pub patch : Option String
  pub result : Option String

pub data PatchValue : Type 0 where
  text : String → PatchValue
  annotations : Dict String → PatchValue

pub record PatchOperation : Type 0 where
  pub op : String
  pub path : String
  pub value : PatchValue

pub record NamespaceObject : Type 0 where
  pub name : String
  pub annotations : Dict String

-- `requests` and `limits` are maps, which may be nil.
pub record Container (Q : Type 0) : Type 0 where
  pub name : String
  pub requests : Option (Dict Q)
  pub limits : Option (Dict Q)

-- The libraries that the controller calls: JSON, the API's deserializer and resource quantities.
-- A JSON `null` gives a nil pointer.
pub record Codec (Q : Type 0) : Type 0 where
  pub decode : String → Error ⊎ Option AdmissionRequest
  pub unmarshal_namespace : String → Error ⊎ Option NamespaceObject
  pub unmarshal_pod : String → Error ⊎ Option (List (Container Q))
  pub marshal_patch : List PatchOperation → Error ⊎ String
  pub marshal_review : AdmissionResponse → Error ⊎ String
  pub cmp : Q → Q → Ordering
  pub quantity_text : Q → String

-- The variables `patchOps`, `allowed` and `deniedReason`.
pub record Verdict : Type 0 where
  pub patch_ops : List PatchOperation
  pub allowed : Bool
  pub denied_reason : String

abbrev pub approve : Verdict
approve = record { patch_ops = []; allowed = true; denied_reason = "denied" }

unfoldable pub is_kube_namespace : String → Bool
is_kube_namespace ns = ns == "kube-public" || ns == "kube-system"

abbrev pub project_key : String
project_key = "field.cattle.io/projectId"

unfoldable pub annotate : String → NamespaceObject → Dict String
annotate project ns = Dict.insert project_key project (Dict.copy ns.annotations)

unfoldable pub namespace_verdict : UserProjectInfo → NamespaceObject → Verdict
unfolding annotate
namespace_verdict info ns =
    if starts_with ns.name info.project_name
    then record {
      patch_ops =
          record {
            op = "add";
            path = "/metadata/annotations";
            value = annotations (annotate info.project_id ns);
          }
          ∷ [];
      allowed = true;
      denied_reason = "denied";
    }
    else record {
      patch_ops = [];
      allowed = false;
      denied_reason = "Namespace must start with '" <> info.project_name <> "'";
    }

-- A missing entry of a map, or of a nil map.
abbrev pub entry {ℓ} : {V : Type ℓ} → String → Option (Dict V) → Option V
entry k none = none
entry k (some m) = Dict.lookup k m

abbrev pub keys_of {ℓ} : {V : Type ℓ} → Option (Dict V) → List String
keys_of none = []
keys_of (some m) = Dict.keys m

unfoldable pub limit_path : ℕ → String → String
limit_path i rtype = "/spec/containers/" <> show_nat i <> "/resources/limits/" <> rtype

module _ {Q : Type 0} (codec : Codec Q) where
  -- `Cmp(...) == 1`
  abbrev pub exceeds : Q → Q → Bool
  exceeds l r = elim (codec.cmp l r) [ Ordering.gt ↦ true | _ ↦ false ]

  abbrev pub add_limit : ℕ → String → Q → PatchOperation
  add_limit i rtype r = record {
    op = "add";
    path = limit_path i rtype;
    value = text (codec.quantity_text r);
  }

  -- The body of the loop over the requests of container `i`, at a request with its quantity.
  unfoldable pub check_request : ℕ → String → Q → Option Q → Verdict → Verdict
  check_request i rtype r none v = record v { patch_ops = v.patch_ops ++ add_limit i rtype r ∷ [] }
  check_request i rtype r (some l) v =
      if exceeds l r
      then record v {
        allowed = false;
        denied_reason =
            "Resource limit."
            <> rtype
            <> ": "
            <> codec.quantity_text l
            <> " is higher than the request."
            <> rtype
            <> ": "
            <> codec.quantity_text r;
      }
      else v

  -- The loop over the requests, in the order of the `range`.
  unfoldable pub check_requests : ℕ → Container Q → List String → Verdict → Verdict
  unfolding check_request
  check_requests i c [] v = v
  check_requests i c (rtype ∷ names) v = elim (entry rtype c.requests) [
    | none ↦ check_requests i c names v
    | some r ↦ check_requests i c names (check_request i rtype r (entry rtype c.limits) v)
  ]

  -- After the loop: requests that are missing altogether.
  unfoldable pub check_present : Container Q → Verdict → Verdict
  check_present c v = elim c.requests [
    | none ↦
        if v.allowed
        then record v {
          allowed = false;
          denied_reason = "Resource requests are missing for container " <> c.name;
        }
        else v
    | some _ ↦ v
  ]

  module _ {W : Type 0} (client : Client W) (runtime : Runtime W) where
    unfoldable pub check_containers :
        ℕ → List (Container Q) → Verdict → ProjectResolver W → Verdict × ProjectResolver W
    unfolding check_requests check_present
    check_containers i [] v s = (v, s)
    check_containers i (c ∷ cs) v s =
        let (names, w) = runtime.shuffle (keys_of c.requests) s.world in
        check_containers (i + 1) cs (check_present c (check_requests i c names v))
          (record s { world = w })

    -- `pod.Spec` of a nil pointer panics.
    unfoldable pub check_pod : Option (List (Container Q)) → Exec (ProjectResolver W) Verdict
    check_pod none s = panic "nil pointer dereference" s
    check_pod (some containers) s =
        let (v, s') = check_containers 0 containers approve s in (ok v, s')

    -- The project of the namespace; an error counts as no project.
    unfoldable pub pod_project : String → Exec (ProjectResolver W) String
    pod_project ns s =
        let (r, s') = resolve_project_id_by_namespace client runtime ns s in
        elim r [ ok (id, _) ↦ (ok id, s') | err _ ↦ (ok "", s') | panicked e ↦ (panicked e, s') ]

    -- `err != nil || isOwner`
    unfoldable pub is_special_project : String → Exec (ProjectResolver W) Bool
    is_special_project id s =
        let (r, s') = find_user_by_project client runtime id s in
        elim r [
          | ok (_, owner) ↦ (ok owner, s')
          | err _ ↦ (ok true, s')
          | panicked e ↦ (panicked e, s')
        ]

    unfoldable pub review_pod : AdmissionRequest → Exec (ProjectResolver W) Verdict
    review_pod r s = elim (codec.unmarshal_pod r.object) [
      | inl e ↦ (err e, s)
      | inr pod ↦
          (do
            project ← pod_project r.namespace
            if project == "" then pure approve else do
              special ← is_special_project project
              if special then pure approve else check_pod pod)
            s
    ]

    -- A namespace for the only project of its user. `none` is a return with no bytes and no error.
    unfoldable pub review_in_projects :
        AdmissionRequest → List UserProjectInfo → Exec (ProjectResolver W) (Option Verdict)
    unfolding namespace_verdict
    review_in_projects r [] = pure none
    review_in_projects r (_ ∷ _ ∷ _) = pure none
    review_in_projects r (info ∷ []) =
        if info.is_owner then pure none else elim (codec.unmarshal_namespace r.object) [
          | inl e ↦ raise e
          | inr none ↦ panic "nil pointer dereference"
          | inr (some ns) ↦ pure (some (namespace_verdict info ns))
        ]

    unfoldable pub review_namespace : AdmissionRequest → Exec (ProjectResolver W) (Option Verdict)
    review_namespace r = do
      plist ← resolve_projects_by_user client runtime r.username
      review_in_projects r plist

    -- The `switch` over the kind.
    unfoldable pub review : AdmissionRequest → Exec (ProjectResolver W) (Option Verdict)
    review r =
        if r.kind == "Namespace"
        then review_namespace r
        else if r.kind == "Pod"
        then (do v ← review_pod r; pure (some v))
        else pure (some approve)
