-- ===== src/ClusterProxy/Storage.antt =====
-- The objects behind the volumes of a deployment of the cluster proxy: claims and config maps.
use balticlsc_platform.Common.{
  String, true, false, List, [], ◌∷◌, Option, none, some, ◌≡◌, refl, arith, subst, Bool-cases, inl,
  inr,
}
use balticlsc_platform.ClusterProxy.Kube.{ConfigMapSource, Volume}
use balticlsc_platform.ClusterProxy.Cluster.{
  Ref, claim, config, service, deployment, same, same-eq, listed, listed-append,
}
use balticlsc_platform.ClusterProxy.Created.{source_refs, volume_refs}
use balticlsc_platform.ClusterProxy.Leaks.{is_storage}

-- Listed, so not the same as one that is not.
pub listed_apart :
    (q r : Ref) (rs : List Ref) → listed q rs ≡ false → listed r rs ≡ true → same q r ≡ false
listed_apart q r rs absent present = elim (Bool-cases (same q r)) [
  | inl e ↦ cc (subst (λ x. listed x rs ≡ false) (same-eq q r e) absent, present)
  | inr e ↦ e
]

storage_apart : (s r : Ref) → is_storage s ≡ true → same s r ≡ true → is_storage r ≡ true
storage_apart s r h e = subst (λ x. is_storage x ≡ true) (same-eq s r e) h

source_storage :
    (ns name : String) (c : Option String) (m : Option ConfigMapSource) (r : Ref)
    → listed r (source_refs ns name c m) ≡ true
    → is_storage r ≡ true
source_storage ns name (some _) m r h = storage_apart (claim ns name) r refl (ground (arith, h))
source_storage ns name none (some _) r h = storage_apart (config ns name) r refl (ground (arith, h))
source_storage ns name none none r h = cc

pub volumes_storage :
    (ns : String) (vs : List Volume) (r : Ref)
    → listed r (volume_refs ns vs) ≡ true
    → is_storage r ≡ true
volumes_storage ns [] r h = cc
volumes_storage ns (v ∷ vs) r h =
    let first = source_refs ns v.name v.persistent_volume_claim v.config_map in
    elim (Bool-cases (listed r first)) [
      | inl e ↦ source_storage ns v.name v.persistent_volume_claim v.config_map r e
      | inr e ↦
          volumes_storage ns vs r (ground (arith, listed-append r first (volume_refs ns vs), e))
    ]

pub service_apart : (a b : String) (r : Ref) → is_storage r ≡ true → same (service a b) r ≡ false
service_apart a b (claim c d) h = refl
service_apart a b (config c d) h = refl
service_apart a b (service c d) h = cc
service_apart a b (deployment c d) h = cc

pub deployment_apart :
    (a b : String) (r : Ref) → is_storage r ≡ true → same (deployment a b) r ≡ false
deployment_apart a b (claim c d) h = refl
deployment_apart a b (config c d) h = refl
deployment_apart a b (service c d) h = cc
deployment_apart a b (deployment c d) h = cc
