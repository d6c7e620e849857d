-- ===== src/ClusterProxy/Disposal.antt =====
-- A disposal (`DisposeBalticModule` of cluster-proxy/server/main.go) on a cluster that removes what is
-- there, and a run with its disposal.
use balticlsc_platform.Common.{String, Bool, true, List, none, ◌≡◌}
use balticlsc_platform.ClusterProxy.Kube.{Kube, Volume}
use balticlsc_platform.ClusterProxy.Cluster.{
  Ref, claim, config, service, deployment, listed, Separate, IsCluster,
}
use balticlsc_platform.ClusterProxy.Created.{volume_refs}
use balticlsc_platform.ClusterProxy.Unused.{Unused}

-- The cluster finds and removes what is there.
pub record Removes {Q W : Type 0} (kube : Kube Q W) (exists : W → Ref → Bool) : Type 0 where
  pub get_deployment :
      (ns name : String) (w : W)
      → exists w (deployment ns name) ≡ true
      → (kube.get_deployment ns name w).0.1 ≡ none
  pub delete_pvc :
      (ns name : String) (w : W)
      → exists w (claim ns name) ≡ true
      → (kube.delete_pvc ns name w).0 ≡ none
  pub delete_config_map :
      (ns name : String) (w : W)
      → exists w (config ns name) ≡ true
      → (kube.delete_config_map ns name w).0 ≡ none
  pub delete_service :
      (ns name : String) (w : W)
      → exists w (service ns name) ≡ true
      → (kube.delete_service ns name w).0 ≡ none
  pub delete_deployment :
      (ns name : String) (w : W)
      → exists w (deployment ns name) ≡ true
      → (kube.delete_deployment ns name w).0 ≡ none

module _ {Q W : Type 0} (kube : Kube Q W) (exists : W → Ref → Bool)
    (cluster : IsCluster kube exists) (removes : Removes kube exists) (ns : String) where
  -- All of these are there.
  abbrev There : List Ref → W → Type 0
  There refs w = (r : Ref) → listed r refs ≡ true → exists w r ≡ true

  -- What is there of a module that was run.
  record IsRun (m : String) (vs : List Volume) (w : W) : Type 0 where
    deployed : exists w (deployment ns m) ≡ true
    served : exists w (service ns m) ≡ true
    stored : There (volume_refs ns vs) w
    separate : Separate (volume_refs ns vs)
    read : (kube.get_deployment ns m w).0.0.volumes ≡ vs
