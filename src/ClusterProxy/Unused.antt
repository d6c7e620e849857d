-- ===== src/ClusterProxy/Unused.antt =====
-- A cluster that holds nothing of a module of the cluster proxy.
use balticlsc_platform.Common.{
  String, ℕ, ◌+◌, ◌≤◌, Bool, false, [], ◌∷◌, inr, ◌==◌, ◌≡◌, ◌≢◌, arith, Bool-cases, inl, eq_iff,
}
use balticlsc_platform.ClusterProxy.Conf.{get_volume_name, get_volume_name-injective}
use balticlsc_platform.ClusterProxy.Cluster.{Ref, claim, config, service, deployment, same, Grown}

module _ {W : Type 0} (exists : W → Ref → Bool) (ns m : String) where
  -- Nothing of the module is there; of its claims, none from a number on.
  pub record Unused (from : ℕ) (w : W) : Type 0 where
    pub claims : (j : ℕ) → from ≤ j → exists w (claim ns (get_volume_name m j)) ≡ false
    pub map : exists w (config ns m) ≡ false
    pub served : exists w (service ns m) ≡ false
    pub deployed : exists w (deployment ns m) ≡ false

  other_claim :
      (i j : ℕ)
      → i ≢ j
      → same (claim ns (get_volume_name m i)) (claim ns (get_volume_name m j)) ≡ false
  other_claim i j h = elim (Bool-cases (get_volume_name m i == get_volume_name m j)) [
    | inl e ↦ absurd (h (get_volume_name-injective m i j ((eq_iff _ _).0 e)))
    | inr e ↦ ground (arith, e)
  ]

  pub Unused-claim :
      (i : ℕ) (w u : W)
      → Unused i w
      → Grown exists w (claim ns (get_volume_name m i) ∷ []) u
      → Unused (i + 1) u
  Unused-claim i w u h g = record {
    claims = λ j l. ground (
      arith,
      g.after (claim ns (get_volume_name m j)),
      h.claims j (omega arith),
      other_claim i j (λ e. omega (arith, e)),
    );
    map = ground (arith, g.after (config ns m), h.map);
    served = ground (arith, g.after (service ns m), h.served);
    deployed = ground (arith, g.after (deployment ns m), h.deployed);
  }

  -- No service and no deployment of the module.
  pub record Vacant (w : W) : Type 0 where
    pub served : exists w (service ns m) ≡ false
    pub deployed : exists w (deployment ns m) ≡ false

  pub Vacant-config : (w u : W) → Vacant w → Grown exists w (config ns m ∷ []) u → Vacant u
  Vacant-config w u h g = record {
    served = ground (arith, g.after (service ns m), h.served);
    deployed = ground (arith, g.after (deployment ns m), h.deployed);
  }
