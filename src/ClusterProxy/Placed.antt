-- ===== src/ClusterProxy/Placed.antt =====
-- The namespaces of the cluster proxy (`PrepareWorkspace`) at the webhook of the namespace controller.
use balticlsc_platform.Common.{String, ◌<>◌, true, [], ◌∷◌, some, ok, inr, ◌≡◌, ◌∙◌}
use text.Mathlib.TextPositions.{starts_with-append}
use balticlsc_platform.Common.Dict
use balticlsc_platform.Common.Dict.{Dict, lookup-insert}
use balticlsc_platform.Rancher.Client.{Client}
use balticlsc_platform.Namespace.Resolver.{UserProjectInfo, ProjectResolver, Runtime}
use balticlsc_platform.Namespace.Resolver.Refresh.{Directory, Serves, memberships}
use balticlsc_platform.Namespace.Resolver.Answers.{IsFresh}
use balticlsc_platform.Namespace.Admission.{
  AdmissionRequest, NamespaceObject, Codec, Verdict, annotations, project_key, review,
}
use balticlsc_platform.Namespace.Admission.Namespaces.{sole_membership, is_prefixed, review-places}
use balticlsc_platform.ClusterProxy.Proto.{XWorkspace, quota_of}
use balticlsc_platform.ClusterProxy.Conf.{ClusterProxyConf, get_ns_name_for_batch, get_project_id}
use balticlsc_platform.ClusterProxy.Workspace.{workspace_namespace, quota_text}

abbrev pub quota_key : String
quota_key = "field.cattle.io/resourceQuota"

-- The namespace as the API passes it to the webhook.
unfoldable pub namespace_object : ClusterProxyConf → XWorkspace → NamespaceObject
unfolding workspace_namespace
namespace_object proxy input =
    let ns = workspace_namespace proxy input in
    record { name = ns.name; annotations = ns.annotations }

namespace_object-prefixed :
    (proxy : ClusterProxyConf) (input : XWorkspace) (info : UserProjectInfo)
    → info.project_name ≡ proxy.project_name
    → is_prefixed (namespace_object proxy input) info ≡ true
unfolding namespace_object get_ns_name_for_batch
namespace_object-prefixed proxy input info h =
    rw h (starts_with-append proxy.project_name ("-" <> input.batch_id))

namespace_object-quota :
    (proxy : ClusterProxyConf) (input : XWorkspace)
    → Dict.lookup quota_key (namespace_object proxy input).annotations
      ≡ some (quota_text (quota_of input))
unfolding namespace_object
namespace_object-quota proxy input =
    lookup-insert quota_key quota_key (quota_text (quota_of input))
      (Dict.insert project_key (get_project_id proxy) Dict.empty)

-- What a namespace of the proxy gets: the project of the webhook's user and its own quota.
pub record IsWorkspaceOf (info : UserProjectInfo) (input : XWorkspace) (v : Verdict) : Type 0 where
  pub allowed : v.allowed ≡ true
  pub patch :
      (a : Dict String) × (v.patch_ops
        ≡ record { op = "add"; path = "/metadata/annotations"; value = annotations a } ∷ [])
      × (Dict.lookup project_key a ≡ some info.project_id)
      × (Dict.lookup quota_key a ≡ some (quota_text (quota_of input)))

-- A namespace that the cluster proxy makes for a batch, in the name of a user who is a member, not the
-- owner, of exactly one project, the project whose name the proxy carries, and while Rancher and OPA
-- are undisturbed: the webhook allows it, for every batch ID, and its patch keeps the quota of the
-- batch and sets that project.
pub review-workspace :
    {Q W : Type 0} (codec : Codec Q) (client : Client W) (runtime : Runtime W) (dir : Directory)
    (r : AdmissionRequest) (s : ProjectResolver W) (info : UserProjectInfo)
    (proxy : ClusterProxyConf) (input : XWorkspace)
    → Serves client runtime s.cluster_id dir
    → IsFresh dir s.cache
    → r.kind ≡ "Namespace"
    → sole_membership (memberships dir dir.projects r.username) ≡ some info
    → codec.unmarshal_namespace r.object ≡ inr (some (namespace_object proxy input))
    → info.project_name ≡ proxy.project_name
    → (v : Verdict) × ((review codec client runtime r s).0 ≡ ok (some v))
      × IsWorkspaceOf info input v
review-workspace codec client runtime dir r s info proxy input serves fresh kind sole parsed named =
    let ns = namespace_object proxy input in
    let (v, reviewed, placed) =
      review-places codec client runtime dir r s info ns serves fresh kind sole parsed in
    let allowed = placed.by_name ∙ namespace_object-prefixed proxy input info named in
    let (a, ops, kept) = placed.patch allowed in
    (
      v,
      reviewed,
      record {
        allowed = allowed;
        patch = (a, ops, kept project_key, kept quota_key ∙ namespace_object-quota proxy input);
      },
    )
