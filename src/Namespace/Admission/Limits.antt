-- ===== src/Namespace/Admission/Limits.antt =====
-- The limits that the webhook adds to a pod.
use balticlsc_platform.Common.{
  String, ◌<>◌, show_nat, ℕ, ◌+◌, true, List, [], ◌∷◌, ◌++◌, Option, none, some, ◌==◌, any, ◌⊎◌,
  inl, inr, ◌≡◌, ◌↔◌, refl, arith, eq_iff, Bool-cases, append_assoc, append-nil, ◌∙◌, sym, Among,
  Among-append, Among-append_left, Among-append_right,
}
use balticlsc_platform.Rancher.Client.{Client}
use balticlsc_platform.Namespace.Resolver.{ProjectResolver, Runtime}
use balticlsc_platform.Namespace.Resolver.Users.{RangesOverKeys}
use balticlsc_platform.Namespace.Admission.{
  Container, Codec, Verdict, PatchOperation, approve, entry, keys_of, add_limit, limit_path, text,
  check_request, check_requests, check_present, check_containers,
}
use balticlsc_platform.Namespace.Admission.Pods.{requested}

module _ {Q : Type 0} (codec : Codec Q) where
  -- The operation adds, for container `i`, the text of a request at the path of its missing limit.
  pub record Fills (i : ℕ) (c : Container Q) (op : PatchOperation) : Type 0 where
    pub rtype : String
    pub request : Q
    pub is_requested : entry rtype c.requests ≡ some request
    pub unlimited : entry rtype c.limits ≡ none
    pub sets : op ≡ record {
      op = "add";
      path = "/spec/containers/" <> show_nat i <> "/resources/limits/" <> rtype;
      value = text (codec.quantity_text request);
    }

  -- It does so for one of the containers, the first of which has the number `i`.
  abbrev pub FillsOne : ℕ → List (Container Q) → PatchOperation → Type 0
  FillsOne i [] op = ⊥
  FillsOne i (c ∷ cs) op = Fills i c op ⊎ FillsOne (i + 1) cs op

  -- The operation for one request.
  abbrev limit_for : ℕ → String → Option Q → Option Q → List PatchOperation
  limit_for i rtype (some r) none = add_limit codec i rtype r ∷ []
  limit_for i rtype _ _ = []

  abbrev limits_for : ℕ → Container Q → List String → List PatchOperation
  limits_for i c [] = []
  limits_for i c (k ∷ names) =
      limit_for i k (entry k c.requests) (entry k c.limits) ++ limits_for i c names

  patch_ops-check_request :
      (i : ℕ) (rtype : String) (r : Q) (o : Option Q) (v : Verdict)
      → (check_request codec i rtype r o v).patch_ops ≡ v.patch_ops ++ limit_for i rtype (some r) o
  unfolding check_request
  patch_ops-check_request i rtype r none v = refl
  patch_ops-check_request i rtype r (some l) v = ground (arith, append-nil v.patch_ops)

  patch_ops-check_requests :
      (i : ℕ) (c : Container Q) (names : List String) (v : Verdict)
      → (check_requests codec i c names v).patch_ops ≡ v.patch_ops ++ limits_for i c names
  unfolding check_requests
  patch_ops-check_requests i c [] v = sym (append-nil v.patch_ops)
  patch_ops-check_requests i c (k ∷ names) v =
      by_entry (entry k c.requests) refl (λ w. patch_ops-check_requests i c names w)
    where
      by_entry :
          (o : Option Q)
          → entry k c.requests ≡ o
          → ((w : Verdict)
              → (check_requests codec i c names w).patch_ops ≡ w.patch_ops ++ limits_for i c names)
          → (check_requests codec i c (k ∷ names) v).patch_ops
            ≡ v.patch_ops ++ limits_for i c (k ∷ names)
      by_entry none e ih = rw (e, check_requests) (ih v)
      by_entry (some r) e ih =
          let l = entry k c.limits in
          rw (e, check_requests)
            (ih _ ∙ rw (patch_ops-check_request i k r l v) (append_assoc v.patch_ops _ _))

  patch_ops-check_present :
      (c : Container Q) (v : Verdict) → (check_present codec c v).patch_ops ≡ v.patch_ops
  unfolding check_present
  patch_ops-check_present c v = ground arith

  limit_for-Fills :
      (i : ℕ) (c : Container Q) (k : String) (op : PatchOperation) (o l : Option Q)
      → entry k c.requests ≡ o
      → entry k c.limits ≡ l
      → Among op (limit_for i k o l)
      → Fills i c op
  unfolding limit_path
  limit_for-Fills i c k op none l p q m = elim m [ ]
  limit_for-Fills i c k op (some r) (some l) p q m = elim m [ ]
  limit_for-Fills i c k op (some r) none p q (inl e) = record {
    rtype = k;
    request = r;
    is_requested = p;
    unlimited = q;
    sets = e;
  }
  limit_for-Fills i c k op (some r) none p q (inr m) = elim m [ ]

  limits_for-Fills :
      (i : ℕ) (c : Container Q) (names : List String) (op : PatchOperation)
      → Among op (limits_for i c names)
      → Fills i c op
  limits_for-Fills i c [] op m = elim m [ ]
  limits_for-Fills i c (k ∷ names) op m =
      let rest = limits_for-Fills i c names op in
      elim (Among-append op _ (limits_for i c names) m) [
        | inl here ↦ limit_for-Fills i c k op _ _ refl refl here
        | inr later ↦ rest later
      ]

  Fills-limits_for :
      (i : ℕ) (c : Container Q) (names : List String) (op : PatchOperation) (f : Fills i c op)
      → any (λ j. j == f.rtype) names ≡ true
      → Among op (limits_for i c names)
  unfolding limit_path
  Fills-limits_for i c [] op f m = cc
  Fills-limits_for i c (k ∷ names) op f m =
      let later = Fills-limits_for i c names op f in
      elim (Bool-cases (k == f.rtype)) [
        | inl same ↦
            Among-append_left op _ (limits_for i c names) (
              let e = (eq_iff k f.rtype).0 same in rw (e, f.is_requested, f.unlimited) (inl f.sets))
        | inr differ ↦
            Among-append_right op (limit_for i k (entry k c.requests) (entry k c.limits))
              (limits_for i c names) (later (ground arith))
      ]

  container-Fills :
      (i : ℕ) (c : Container Q) (names : List String) (v : Verdict) (op : PatchOperation)
      → ((k : String) → any (λ j. j == k) names ≡ any (λ j. j == k) (keys_of c.requests))
      → Among op (check_present codec c (check_requests codec i c names v)).patch_ops
        ↔ (Among op v.patch_ops ⊎ Fills i c op)
  container-Fills i c names v op visits =
      rw
        (
          patch_ops-check_present c (check_requests codec i c names v),
          patch_ops-check_requests i c names v,
        )
        (
          λ m. elim (Among-append op v.patch_ops (limits_for i c names) m) [
            | inl old ↦ inl old
            | inr new ↦ inr (limits_for-Fills i c names op new)
          ],
          elim [
            | inl old ↦ Among-append_left op v.patch_ops (limits_for i c names) old
            | inr f ↦ Among-append_right op v.patch_ops (limits_for i c names) (
                Fills-limits_for i c names op f
                  (visits f.rtype ∙ requested codec c f.rtype f.request f.is_requested))
          ],
        )

  module _ {W : Type 0} (client : Client W) (runtime : Runtime W)
      (visits : RangesOverKeys runtime) where
    containers_fill :
        (i : ℕ) (cs : List (Container Q)) (v : Verdict) (s : ProjectResolver W)
        (op : PatchOperation)
        → Among op (check_containers codec client runtime i cs v s).0.patch_ops
          ↔ (Among op v.patch_ops ⊎ FillsOne i cs op)
    unfolding check_containers
    containers_fill i [] v s op = (λ h. inl h, elim [ inl h ↦ h | inr h ↦ elim h [ ] ])
    containers_fill i (c ∷ cs) v s op =
        let names = (runtime.shuffle (keys_of c.requests) s.world).0 in
        let t = record s { world = (runtime.shuffle (keys_of c.requests) s.world).1 } in
        let v' = check_present codec c (check_requests codec i c names v) in
        let one = container-Fills i c names v op (visits (keys_of c.requests) s.world) in
        let rest = containers_fill (i + 1) cs v' t op in
        (
          λ h. elim (rest.0 h) [
            | inl before ↦ elim (one.0 before) [ inl old ↦ inl old | inr f ↦ inr (inl f) ]
            | inr f ↦ inr (inr f)
          ],
          elim [
            | inl old ↦ rest.1 (inl (one.1 (inl old)))
            | inr (inl f) ↦ rest.1 (inl (one.1 (inr f)))
            | inr (inr f) ↦ rest.1 (inr f)
          ],
        )

    -- The operations in the patch of a pod are exactly these, whatever the order of the `range` loops:
    -- for each request of each container that has no limit for its resource type, an `add` of the
    -- request's text at `/spec/containers/<number of the container>/resources/limits/<resource type>`.
    pub patch_ops-check_pod :
        (cs : List (Container Q)) (s : ProjectResolver W) (op : PatchOperation)
        → Among op (check_containers codec client runtime 0 cs approve s).0.patch_ops
          ↔ FillsOne 0 cs op
    patch_ops-check_pod cs s op =
        let both = containers_fill 0 cs approve s op in
        (λ h. elim (both.0 h) [ inl m ↦ elim m [ ] | inr f ↦ f ], λ f. both.1 (inr f))
