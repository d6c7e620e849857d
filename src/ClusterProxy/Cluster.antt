-- ===== src/ClusterProxy/Cluster.antt =====
-- What the proxy relies on of the Kubernetes API: a create or a delete that returns no error adds or
-- removes the named object and touches no other, one that returns an error changes nothing, and a
-- create returns no error only if the object was not there. An object counts as there until its
-- deletion has been accepted.
use balticlsc_platform.Common.{
  String, Bool, true, false, not, List, [], ◌∷◌, ◌++◌, Option, none, some, ◌==◌, ◌&&◌, ◌||◌, any,
  Error, ◌≡◌, ◌≢◌, refl, arith, eq_iff, eq_refl,
}
use balticlsc_platform.ClusterProxy.Kube.{
  Kube, Deployment, PersistentVolumeClaim, ConfigMap, Service,
}

-- An object of a namespace: the namespace, and the name.
pub data Ref : Type 0 where
  claim config service deployment : String → String → Ref

abbrev pub same : Ref → Ref → Bool
same (claim a b) (claim c d) = a == c && b == d
same (config a b) (config c d) = a == c && b == d
same (service a b) (service c d) = a == c && b == d
same (deployment a b) (deployment c d) = a == c && b == d
same _ _ = false

abbrev pub listed : Ref → List Ref → Bool
listed r refs = any (λ s. same s r) refs

pub listed-append : (r : Ref) (a b : List Ref) → listed r (a ++ b) ≡ (listed r a || listed r b)
listed-append r [] b = refl
listed-append r (s ∷ a) b = ground (arith, listed-append r a b)

both : (a b c d : String) → (a == c && b == d) ≡ true → (a ≡ c) × (b ≡ d)
both a b c d h = ((eq_iff a c).0 (ground arith), (eq_iff b d).0 (ground arith))

pub same-eq : (a b : Ref) → same a b ≡ true → a ≡ b
same-eq (claim a b) (claim c d) h = let (p, q) = both a b c d h in rw (p, q) refl
same-eq (config a b) (config c d) h = let (p, q) = both a b c d h in rw (p, q) refl
same-eq (service a b) (service c d) h = let (p, q) = both a b c d h in rw (p, q) refl
same-eq (deployment a b) (deployment c d) h = let (p, q) = both a b c d h in rw (p, q) refl
same-eq _ _ h = cc

pub same_refl : (a : Ref) → same a a ≡ true
same_refl (claim a b) = rw (eq_refl a, eq_refl b) refl
same_refl (config a b) = rw (eq_refl a, eq_refl b) refl
same_refl (service a b) = rw (eq_refl a, eq_refl b) refl
same_refl (deployment a b) = rw (eq_refl a, eq_refl b) refl

-- Each ref stands once.
abbrev pub Separate : List Ref → Type 0
Separate [] = Unit
Separate (r ∷ rs) = (listed r rs ≡ false) × Separate rs

pub Separate-append_left : (a b : List Ref) → Separate (a ++ b) → Separate a
Separate-append_left [] b h = tt
Separate-append_left (r ∷ a) b h =
    (ground (arith, listed-append r a b, h.0), Separate-append_left a b h.1)

Separate-append :
    (a b : List Ref)
    → ((r : Ref) → listed r a ≡ true → listed r b ≡ false)
    → Separate a
    → Separate b
    → Separate (a ++ b)
Separate-append [] b apart h k = k
Separate-append (r ∷ a) b apart h k = (
  ground (arith, listed-append r a b, h.0, apart r (ground (arith, same_refl r))),
  Separate-append a b (λ s l. apart s (ground (arith, l))) h.1 k,
)

abbrev pub is_ok : Option Error → Bool
is_ok none = true
is_ok (some _) = false

module _ {W : Type 0} (exists : W → Ref → Bool) where
  -- The refs were added to the objects, and none of them was there.
  pub record Grown (w : W) (refs : List Ref) (w' : W) : Type 0 where
    pub after : (r : Ref) → exists w' r ≡ (listed r refs || exists w r)
    pub fresh : (r : Ref) → listed r refs ≡ true → exists w r ≡ false
    pub separate : Separate refs

  -- The refs were removed.
  pub record Shrunk (w : W) (refs : List Ref) (w' : W) : Type 0 where
    pub after : (r : Ref) → exists w' r ≡ (not (listed r refs) && exists w r)

  -- The same objects.
  abbrev pub Kept : W → W → Type 0
  Kept w w' = (r : Ref) → exists w' r ≡ exists w r

  pub record Creates (ref : Ref) (w : W) (e : Option Error) (w' : W) : Type 0 where
    pub done : e ≡ none → Grown w (ref ∷ []) w'
    pub failed : e ≢ none → Kept w w'

  pub record Deletes (ref : Ref) (w : W) (e : Option Error) (w' : W) : Type 0 where
    pub done : e ≡ none → Shrunk w (ref ∷ []) w'
    pub failed : e ≢ none → Kept w w'

  pub Grown-nil : (w : W) → Grown w [] w
  Grown-nil w = record { after = λ r. refl; fresh = λ r h. cc; separate = tt }

  pub Grown-trans : (u v w : W) (a b : List Ref) → Grown u a v → Grown v b w → Grown u (a ++ b) w
  Grown-trans u v w a b g h = record {
    after = λ r. ground (arith, g.after r, h.after r, listed-append r a b);
    fresh = λ r l. ground (arith, g.after r, g.fresh r, h.fresh r, listed-append r a b);
    separate =
        Separate-append a b (λ r l. ground (arith, g.after r, h.fresh r)) g.separate h.separate;
  }

  pub Shrunk-nil : (w : W) → Shrunk w [] w
  Shrunk-nil w = record { after = λ r. refl }

  pub Shrunk-trans :
      (u v w : W) (a b : List Ref) → Shrunk u a v → Shrunk v b w → Shrunk u (a ++ b) w
  Shrunk-trans u v w a b g h = record {
    after = λ r. ground (arith, g.after r, h.after r, listed-append r a b);
  }

  pub Shrunk-of-Kept : (u v w : W) (a : List Ref) → Kept u v → Shrunk v a w → Shrunk u a w
  Shrunk-of-Kept u v w a k h = record { after = λ r. ground (arith, k r, h.after r) }

  -- To remove what was added restores the objects.
  pub Shrunk-Grown :
      (u v w : W) (a b : List Ref)
      → ((r : Ref) → listed r a ≡ listed r b)
      → Grown u a v
      → Shrunk v b w
      → Kept u w
  Shrunk-Grown u v w a b e g h r = ground (arith, e r, g.after r, g.fresh r, h.after r)

-- The behaviour of a cluster whose objects are `exists`.
pub record IsCluster {Q W : Type 0} (kube : Kube Q W) (exists : W → Ref → Bool) : Type 0 where
  pub create_pvc :
      (ns : String) (p : PersistentVolumeClaim Q) (w : W)
      → Creates exists (claim ns p.name) w (kube.create_pvc ns p w).0 (kube.create_pvc ns p w).1
  pub create_config_map :
      (ns : String) (c : ConfigMap) (w : W)
      → Creates exists
          (config ns c.name)
          w
          (kube.create_config_map ns c w).0
          (kube.create_config_map ns c w).1
  pub create_service :
      (ns : String) (s : Service) (w : W)
      → Creates exists
          (service ns s.name)
          w
          (kube.create_service ns s w).0
          (kube.create_service ns s w).1
  pub create_deployment :
      (ns : String) (d : Deployment Q) (w : W)
      → Creates exists
          (deployment ns d.name)
          w
          (kube.create_deployment ns d w).0
          (kube.create_deployment ns d w).1
  pub delete_pvc :
      (ns name : String) (w : W)
      → Deletes exists (claim ns name) w (kube.delete_pvc ns name w).0 (kube.delete_pvc ns name w).1
  pub delete_config_map :
      (ns name : String) (w : W)
      → Deletes exists
          (config ns name)
          w
          (kube.delete_config_map ns name w).0
          (kube.delete_config_map ns name w).1
  pub delete_service :
      (ns name : String) (w : W)
      → Deletes exists
          (service ns name)
          w
          (kube.delete_service ns name w).0
          (kube.delete_service ns name w).1
  pub delete_deployment :
      (ns name : String) (w : W)
      → Deletes exists
          (deployment ns name)
          w
          (kube.delete_deployment ns name w).0
          (kube.delete_deployment ns name w).1
  -- A read changes nothing.
  pub get_deployment : (ns name : String) (w : W) → Kept exists w (kube.get_deployment ns name w).1
  -- A deployment that was just created is read back with its volumes.
  pub read_back :
      (ns : String) (d : Deployment Q) (w : W)
      → (kube.create_deployment ns d w).0 ≡ none
      → (kube.get_deployment ns d.name (kube.create_deployment ns d w).1).0.0.volumes ≡ d.volumes
  -- What is not there is not read: the deployment beside the error is empty.
  pub absent :
      (ns name : String) (w : W)
      → exists w (deployment ns name) ≡ false
      → (kube.get_deployment ns name w).0.0.volumes ≡ []
