-- ===== src/Namespace/Admission/Pods.antt =====
-- Which pods of an ordinary project the webhook lets pass, and the limits that it adds.
use balticlsc_platform.Common.{
  String, ℕ, ◌+◌, Bool, true, false, List, [], ◌∷◌, Option, none, some, ◌==◌, ◌&&◌, not, any, All,
  inl, inr, ◌≡◌, ◌≢◌, ◌↔◌, refl, arith, eq_iff, Bool-cases, ◌∙◌,
}
use balticlsc_platform.Common.Dict
use balticlsc_platform.Common.Dict.{Dict, lookup-keys}
use balticlsc_platform.Rancher.Client.{Client}
use balticlsc_platform.Namespace.Resolver.{ProjectResolver, Runtime}
use balticlsc_platform.Namespace.Resolver.Users.{RangesOverKeys}
use balticlsc_platform.Namespace.Admission.{
  Container, Codec, Verdict, approve, entry, keys_of, exceeds, check_request, check_requests,
  check_present, check_containers,
}

module _ {Q : Type 0} (codec : Codec Q) where
  -- A request with its limit, if any: the limit must not exceed the request.
  abbrev pub Fits : Q → Option Q → Type 0
  Fits r none = Unit
  Fits r (some l) = exceeds codec l r ≡ false

  -- The container has requests, and no limit exceeds its request.
  pub record IsWithin (c : Container Q) : Type 0 where
    pub present : c.requests ≢ none
    pub limited :
        (rtype : String) (r : Q) → entry rtype c.requests ≡ some r → Fits r (entry rtype c.limits)

  -- The same of the requests under these names alone, as a test.
  abbrev request_fits : Option Q → Option Q → Bool
  request_fits none o = true
  request_fits (some r) none = true
  request_fits (some r) (some l) = not (exceeds codec l r)

  abbrev fits_all : Container Q → List String → Bool
  fits_all c [] = true
  fits_all c (rtype ∷ names) =
      request_fits (entry rtype c.requests) (entry rtype c.limits) && fits_all c names

  allowed-check_request :
      (i : ℕ) (rtype : String) (r : Q) (o : Option Q) (v : Verdict)
      → (check_request codec i rtype r o v).allowed ≡ (v.allowed && request_fits (some r) o)
  unfolding check_request
  allowed-check_request i rtype r none v = ground arith
  allowed-check_request i rtype r (some l) v = ground arith

  allowed-check_requests :
      (i : ℕ) (c : Container Q) (names : List String) (v : Verdict)
      → (check_requests codec i c names v).allowed ≡ (v.allowed && fits_all c names)
  unfolding check_requests
  allowed-check_requests i c [] v = ground arith
  allowed-check_requests i c (rtype ∷ names) v =
      by_entry (entry rtype c.requests) refl (λ w. allowed-check_requests i c names w)
    where
      by_entry :
          (o : Option Q)
          → entry rtype c.requests ≡ o
          → ((w : Verdict)
              → (check_requests codec i c names w).allowed ≡ (w.allowed && fits_all c names))
          → (check_requests codec i c (rtype ∷ names) v).allowed
            ≡ (v.allowed && fits_all c (rtype ∷ names))
      by_entry none e ih = rw (e, check_requests) (ih v)
      by_entry (some r) e ih =
          let o = entry rtype c.limits in
          let w = check_request codec i rtype r o v in
          rw (e, check_requests) (ground (arith, ih w, allowed-check_request i rtype r o v))

  allowed-check_present :
      (c : Container Q) (v : Verdict)
      → ((check_present codec c v).allowed ≡ true) ↔ ((v.allowed ≡ true) × (c.requests ≢ none))
  unfolding check_present
  allowed-check_present c v = ground arith

  fits_all-at :
      (c : Container Q) (names : List String) (k : String)
      → fits_all c names ≡ true
      → any (λ j. j == k) names ≡ true
      → request_fits (entry k c.requests) (entry k c.limits) ≡ true
  fits_all-at c [] k h m = cc
  fits_all-at c (j ∷ names) k h m = ground (arith, fits_all-at c names k, eq_iff j k)

  fits_all_of :
      (c : Container Q) (names : List String)
      → ((k : String) → request_fits (entry k c.requests) (entry k c.limits) ≡ true)
      → fits_all c names ≡ true
  fits_all_of c [] h = refl
  fits_all_of c (j ∷ names) h = ground (arith, h j, fits_all_of c names h)

  -- Every request name is among the keys of the map.
  pub requested :
      (c : Container Q) (k : String) (r : Q)
      → entry k c.requests ≡ some r
      → any (λ j. j == k) (keys_of c.requests) ≡ true
  requested c k r = by_requests c.requests
    where
      by_requests :
          (o : Option (Dict Q)) → entry k o ≡ some r → any (λ j. j == k) (keys_of o) ≡ true
      by_requests none e = cc
      by_requests (some m) e = elim (Bool-cases (any (λ j. j == k) (Dict.keys m))) [
        | inl listed ↦ listed
        | inr unlisted ↦ cc (lookup-keys m k unlisted)
      ]

  Fits-of_test : (r : Q) (o : Option Q) → request_fits (some r) o ≡ true → Fits r o
  Fits-of_test r none h = tt
  Fits-of_test r (some l) h = ground arith

  test_of_Fits :
      (o : Option Q) (l : Option Q) → ((r : Q) → o ≡ some r → Fits r l) → request_fits o l ≡ true
  test_of_Fits none l h = refl
  test_of_Fits (some r) none h = refl
  test_of_Fits (some r) (some l) h = let fit = h r refl in ground arith

  -- The loop over one container's requests, in any order that visits them all.
  container_passes :
      (i : ℕ) (c : Container Q) (names : List String) (v : Verdict)
      → ((k : String) → any (λ j. j == k) names ≡ any (λ j. j == k) (keys_of c.requests))
      → ((check_present codec c (check_requests codec i c names v)).allowed ≡ true)
        ↔ ((v.allowed ≡ true) × IsWithin c)
  container_passes i c names v visits =
      let w = check_requests codec i c names v in
      (
        λ h.
            let (looped, present) = (allowed-check_present c w).0 h in
            let both = rw (allowed-check_requests i c names v) at looped in
            (
              ground arith,
              record {
                present = present;
                limited = λ k r e.
                    Fits-of_test r (entry k c.limits) (
                      rw e at
                        (fits_all-at c names k (ground arith) (visits k ∙ requested c k r e)));
              },
            ),
        λ h. (allowed-check_present c w).1 (
          rw (allowed-check_requests i c names v) (
              let fits =
                fits_all_of c names
                  (λ k. test_of_Fits (entry k c.requests) (entry k c.limits) (h.1.limited k)) in
              ground arith),
          h.1.present,
        ),
      )

  module _ {W : Type 0} (client : Client W) (runtime : Runtime W) where
    containers_pass :
        (i : ℕ) (cs : List (Container Q)) (v : Verdict) (s : ProjectResolver W)
        → RangesOverKeys runtime
        → ((check_containers codec client runtime i cs v s).0.allowed ≡ true)
          ↔ ((v.allowed ≡ true) × All IsWithin cs)
    unfolding check_containers
    containers_pass i [] v s visits = (λ h. (h, tt), λ h. h.0)
    containers_pass i (c ∷ cs) v s visits =
        let names = (runtime.shuffle (keys_of c.requests) s.world).0 in
        let t = record s { world = (runtime.shuffle (keys_of c.requests) s.world).1 } in
        let v' = check_present codec c (check_requests codec i c names v) in
        let one = container_passes i c names v (visits (keys_of c.requests) s.world) in
        let rest = containers_pass (i + 1) cs v' t visits in
        (
          λ h.
              let (first, others) = rest.0 h in
              let (before, here) = one.0 first in (before, (here, others)),
          λ h. rest.1 (one.1 (h.0, h.1.0), h.1.1),
        )

    -- A pod of an ordinary project is allowed exactly if every container states its requests and has
    -- no limit above the request for the same resource, whatever the order of the `range` loops.
    pub check_pod-allowed :
        (cs : List (Container Q)) (s : ProjectResolver W)
        → RangesOverKeys runtime
        → ((check_containers codec client runtime 0 cs approve s).0.allowed ≡ true)
          ↔ All IsWithin cs
    check_pod-allowed cs s visits =
        let both = containers_pass 0 cs approve s visits in
        (λ h. (both.0 h).1, λ h. both.1 (refl, h))
