-- ===== src/ClusterProxy/Status.antt =====
-- What the status handlers of cluster-proxy/server/main.go report.
use balticlsc_platform.Common.{
  String, true, Among, List, [], ◌∷◌, Option, none, some, ◌==◌, if◌then◌else◌, any, select, Error,
  ◌≡◌, ◌≢◌, ◌⊎◌, ◌↔◌, inl, inr, refl, arith, ap, Bool-cases, eq_iff,
}
use balticlsc_platform.Common.Dict
use balticlsc_platform.Common.Dict.{Dict}
use balticlsc_platform.ClusterProxy.Proto.{ClusterStatusResponse, active, pending, error}
use balticlsc_platform.ClusterProxy.Kube.{Kube, Namespace}
use balticlsc_platform.ClusterProxy.Conf.{ClusterProxyConf, get_ns_name_for_batch}
use balticlsc_platform.ClusterProxy.Workspace.{
  value_at, is_quota_failure, scan_conditions, active_reply, check_reply, check_workspace_status,
}

-- The conditions of a namespace: none without the annotation, or without conditions in it.
abbrev pub conditions_of : (String → Option (List (Dict String))) → Namespace → List (Dict String)
conditions_of cattle_conditions ns = elim (Dict.lookup "cattle.io/status" ns.annotations) [
  | none ↦ []
  | some text ↦ elim (cattle_conditions text) [ none ↦ [] | some cs ↦ cs ]
]

abbrev pub quota_report : List (Dict String) → ClusterStatusResponse
quota_report [] = record { status = active; message = "Active" }
quota_report (c ∷ _) = record { status = error; message = value_at "Message" c }

scan_conditions-select :
    (cs : List (Dict String))
    → scan_conditions cs (record { status = active; message = "Active" })
      ≡ quota_report (select is_quota_failure cs)
unfolding scan_conditions
scan_conditions-select [] = refl
scan_conditions-select (c ∷ cs) = ground (arith, scan_conditions-select cs)

active_reply-eq :
    (parse : String → Option (List (Dict String))) (ns : Namespace)
    → active_reply parse ns ≡ quota_report (select is_quota_failure (conditions_of parse ns))
unfolding active_reply
active_reply-eq parse ns = by_text (Dict.lookup "cattle.io/status" ns.annotations) refl
  where
    by_text :
        (t : Option String)
        → Dict.lookup "cattle.io/status" ns.annotations ≡ t
        → active_reply parse ns ≡ quota_report (select is_quota_failure (conditions_of parse ns))
    by_text none e = rw (conditions_of, active_reply, e) refl
    by_text (some text) e = by_conditions (parse text) refl
      where
        by_conditions :
            (o : Option (List (Dict String)))
            → parse text ≡ o
            → active_reply parse ns
              ≡ quota_report (select is_quota_failure (conditions_of parse ns))
        by_conditions none f = rw (conditions_of, active_reply, e, f) refl
        by_conditions (some cs) f =
            rw (conditions_of, active_reply, e, f) (scan_conditions-select cs)

-- What is said of a namespace that was found.
abbrev pub workspace_report :
    (String → Option (List (Dict String))) → Namespace → ClusterStatusResponse
workspace_report parse ns =
    if ns.phase == "Active"
    then quota_report (select is_quota_failure (conditions_of parse ns))
    else record { status = pending; message = "Pending" }

quota_report-error :
    (cs : List (Dict String))
    → ((quota_report (select is_quota_failure cs)).status ≡ error)
      ↔ (any is_quota_failure cs ≡ true)
quota_report-error [] = (λ h. cc, λ h. cc)
quota_report-error (c ∷ cs) =
    let (there, back) = quota_report-error cs in
    elim (Bool-cases (is_quota_failure c)) [
      | inl fails ↦ (λ h. ground arith, λ h. rw fails)
      | inr fine ↦ (λ h. rw fine (there (rw fine at h)), λ h. rw fine (back (rw fine at h)))
    ]

workspace_report-error :
    (parse : String → Option (List (Dict String))) (ns : Namespace)
    → ((workspace_report parse ns).status ≡ error)
      ↔ ((ns.phase ≡ "Active") × (any is_quota_failure (conditions_of parse ns) ≡ true))
workspace_report-error parse ns =
    let (there, back) = quota_report-error (conditions_of parse ns) in
    elim (Bool-cases (ns.phase == "Active")) [
      | inl is_active ↦ (
        λ h. ((eq_iff ns.phase "Active").0 is_active, there (rw is_active at h)),
        λ h. rw is_active (back h.1),
      )
      | inr other ↦ (λ h. cc (rw other at h), λ h. cc (other, (eq_iff ns.phase "Active").1 h.0))
    ]

check_reply-found :
    (parse : String → Option (List (Dict String))) (ns : Namespace)
    → check_reply parse ns none ≡ (workspace_report parse ns, none)
unfolding check_reply
check_reply-found parse ns = elim (Bool-cases (ns.phase == "Active")) [
  | inl is_active ↦ rw is_active (ap (λ r. (r, none)) (active_reply-eq parse ns))
  | inr other ↦ rw other refl
]

-- A condition that says that the quota is not valid.
abbrev pub SaysInvalid : Dict String → Type 0
SaysInvalid c = (value_at "Type" c ≡ "ResourceQuotaValidated") × (value_at "Status" c ≡ "False")

is_quota_failure-SaysInvalid : (c : Dict String) → (is_quota_failure c ≡ true) ↔ SaysInvalid c
unfolding is_quota_failure
is_quota_failure-SaysInvalid c = (
  λ h. (
    (eq_iff (value_at "Type" c) "ResourceQuotaValidated").0 (ground arith),
    (eq_iff (value_at "Status" c) "False").0 (ground arith),
  ),
  λ h. ground (
    arith,
    (eq_iff (value_at "Type" c) "ResourceQuotaValidated").1 h.0,
    (eq_iff (value_at "Status" c) "False").1 h.1,
  ),
)

-- One of the conditions does.
abbrev pub OneInvalid : List (Dict String) → Type 0
OneInvalid cs = (c : Dict String) × Among c cs × SaysInvalid c

any-OneInvalid : (cs : List (Dict String)) → (any is_quota_failure cs ≡ true) ↔ OneInvalid cs
any-OneInvalid [] = (λ h. cc, λ k. let (c, m, says) = k in elim m [ ])
any-OneInvalid (d ∷ cs) =
    let (there, back) = any-OneInvalid cs in (there_from there, back_from back)
  where
    there_from :
        (any is_quota_failure cs ≡ true → OneInvalid cs)
        → any is_quota_failure (d ∷ cs) ≡ true
        → OneInvalid (d ∷ cs)
    there_from later h = elim (Bool-cases (is_quota_failure d)) [
      | inl fails ↦ (d, inl refl, (is_quota_failure-SaysInvalid d).0 fails)
      | inr fine ↦ let (c, m, says) = later (rw fine at h) in (c, inr m, says)
    ]

    back_from :
        (OneInvalid cs → any is_quota_failure cs ≡ true)
        → OneInvalid (d ∷ cs)
        → any is_quota_failure (d ∷ cs) ≡ true
    back_from later (c, inl e, says) = rw ((is_quota_failure-SaysInvalid d).1 (rw e at says)) refl
    back_from later (c, inr m, says) = ground (arith, later (c, m, says))

check_reply-error :
    (parse : String → Option (List (Dict String))) (ns : Namespace) (e : Option Error)
    → ((check_reply parse ns e).0.status ≡ error)
      ↔ ((e ≢ none) ⊎ ((ns.phase ≡ "Active") × OneInvalid (conditions_of parse ns)))
unfolding check_reply
check_reply-error parse ns (some m) = (λ h. inl (λ f. cc f), λ h. refl)
check_reply-error parse ns none =
    let (there, back) = workspace_report-error parse ns in
    rw (check_reply-found parse ns) (
      λ h.
          let (is_active, fails) = there h in
          inr (is_active, (any-OneInvalid (conditions_of parse ns)).0 fails),
      elim [
        | inl absent ↦ absurd (absent refl)
        | inr failing ↦ back (failing.0, (any-OneInvalid (conditions_of parse ns)).1 failing.1)
      ],
    )

module _ {Q W : Type 0} (kube : Kube Q W) (proxy : ClusterProxyConf) where
  -- A namespace that is found is reported pending until its phase is Active, then as an error with
  -- the message of its first condition that says that the quota is not valid, and as active if there
  -- is none; no error is returned beside it.
  pub check_workspace_status-found :
      (parse : String → Option (List (Dict String))) (batch_id : String) (w : W)
      → (kube.get_namespace (get_ns_name_for_batch proxy batch_id) w).0.1 ≡ none
      → (check_workspace_status proxy kube parse batch_id w).0 ≡ (
        workspace_report parse (kube.get_namespace (get_ns_name_for_batch proxy batch_id) w).0.0,
        none,
      )
  unfolding check_workspace_status
  check_workspace_status-found parse batch_id w found =
      rw (found, check_workspace_status) (check_reply-found parse _)

  -- The status is an error exactly if the namespace cannot be read (also if it is not found), or its
  -- phase is Active and one of its conditions has the type ResourceQuotaValidated and the status False.
  pub check_workspace_status-error :
      (parse : String → Option (List (Dict String))) (batch_id : String) (w : W)
      → ((check_workspace_status proxy kube parse batch_id w).0.0.status ≡ error) ↔ (
          ((kube.get_namespace (get_ns_name_for_batch proxy batch_id) w).0.1 ≢ none)
          ⊎ (((kube.get_namespace (get_ns_name_for_batch proxy batch_id) w).0.0.phase ≡ "Active")
              × OneInvalid (
                  conditions_of parse
                    (kube.get_namespace (get_ns_name_for_batch proxy batch_id) w).0.0)))
  unfolding check_workspace_status
  check_workspace_status-error parse batch_id w =
      check_reply-error parse _ (kube.get_namespace (get_ns_name_for_batch proxy batch_id) w).0.1
