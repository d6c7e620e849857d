-- ===== src/Rancher/DefaultClient/Requests.antt =====
-- The requests that `UpdateProject` of upstream/rancher-go/client/client.go sends for the members.
use balticlsc_platform.Common.{
  String, ◌<>◌, ◌==◌, if◌then◌else◌, ◌||◌, not, any, select, eq_iff, arith, ℕ, ◌>>=◌, continue,
  Bool-cases, inl, inr, List, [], ◌∷◌, ◌++◌, append_assoc, append-nil, Option, none, some, Result,
  ok, err, panicked, Exec, for_each, ◌≡◌, ◌≢◌, refl, sym, ◌∙◌, ap,
}
use balticlsc_platform.Rancher.Types.{Member, compare}
use balticlsc_platform.Rancher.Http.{
  Request, Response, Transport, Gjson, Payload, http_post, http_delete, text,
}
use balticlsc_platform.Rancher.DefaultClient.{Settings, query, has_status}
use balticlsc_platform.Rancher.DefaultClient.Writes.{
  has_member, missing_from, binding_payload, member_payload, add_project_member,
  delete_project_member, delete_at, update_members, logged, expect,
}

-- The transport notes each request, whatever its answer, and does not panic.
pub record IsRecorded {W : Type 0} (send : Transport W) (log : W → List Request) : Type 0 where
  pub notes : (req : Request) (w : W) → log (send req w).1 ≡ log w ++ req ∷ []
  pub returns : (req : Request) (w : W) (e : String) → (send req w).0 ≢ panicked e

module _ (settings : Settings) where
  abbrev pub adds_with : Option Payload → List Request
  adds_with none = []
  adds_with (some payload) =
      record {
        method = http_post;
        url = settings.server_url <> "/v3/projectroletemplatebinding";
        token = some settings.token;
        payload = some payload;
      }
      ∷ []

  -- The binding of a member: the principal is that of a user or of a group, by the type.
  abbrev pub binding_of : String → Member → Payload
  binding_of id m =
      ("type", text "projectRoleTemplateBinding")
      ∷ ("subjectKind", text m.member_type)
      ∷ ("userId", text m.user_id)
      ∷ ("projectRoleTemplateId", text "")
      ∷ ("projectId", text id)
      ∷ ("groupPrincipalId", text (if m.member_type == "Group" then m.principal_id else ""))
      ∷ ("userPrincipalId", text (if m.member_type == "User" then m.principal_id else ""))
      ∷ ("roleTemplateId", text m.role_template_id)
      ∷ []

  abbrev pub binds : String → Member → List Request
  binds id m =
      if m.member_type == "User" || m.member_type == "Group"
      then adds_with (some (binding_of id m))
      else []

  binds-member_payload : (id : String) (m : Member) → adds_with (member_payload id m) ≡ binds id m
  unfolding member_payload binding_payload
  binds-member_payload id m = elim (Bool-cases (m.member_type == "User")) [
    | inl user ↦ rw (user, (eq_iff m.member_type "User").0 user) refl
    | inr other ↦ elim (Bool-cases (m.member_type == "Group")) [
      | inl group ↦ rw (other, group) refl
      | inr neither ↦ rw (other, neither) refl
    ]
  ]

  abbrev pub delete_with : Member → List Request
  delete_with m =
      record {
        method = http_delete;
        url = settings.server_url <> ("/v3/projectRoleTemplateBindings/" <> m.id);
        token = some settings.token;
        payload = none;
      }
      ∷ []

-- The members of a list without a counterpart, by `Compare`, in another.
abbrev pub lacking : List Member → List Member → List Member
lacking others = select (λ m. not (any (λ o. compare o m) others))

any-has_member :
    (others : List Member) (m : Member) → has_member others m ≡ any (λ o. compare o m) others
unfolding has_member
any-has_member [] m = refl
any-has_member (o ∷ others) m = ground (arith, any-has_member others m)

lacking-missing_from :
    (others wanted : List Member) → missing_from others wanted ≡ lacking others wanted
unfolding missing_from
lacking-missing_from others [] = refl
lacking-missing_from others (m ∷ wanted) =
    ground (arith, any-has_member others m, lacking-missing_from others wanted)

abbrev pub flat : (Member → List Request) → List Member → List Request
flat f [] = []
flat f (m ∷ ms) = f m ++ flat f ms

flat-binds :
    (settings : Settings) (id : String) (ms : List Member)
    → flat (λ m. adds_with settings (member_payload id m)) ms ≡ flat (binds settings id) ms
flat-binds settings id [] = refl
flat-binds settings id (m ∷ ms) =
    rw (binds-member_payload settings id m, flat-binds settings id ms) refl

module _ {W J : Type 0} (send : Transport W) (settings : Settings) (gjson : Gjson J)
    (log : W → List Request) (recorded : IsRecorded send log) where
  -- A step that goes on, and has sent these requests.
  abbrev Sends : List Request → Exec W (Unit {0}) → Type 0
  Sends reqs m = (w : W) → ((m w).0 ≡ ok tt) × (log (m w).1 ≡ log w ++ reqs)

  expected :
      (code : ℕ) (message : String) (resp : Response) (w : W)
      → logged (expect send settings gjson code message resp) w ≡ (ok tt, w)
  unfolding expect
  expected code message resp w = elim (Bool-cases (has_status code resp)) [
    | inl h ↦ rw (h, expect) refl
    | inr h ↦ rw (h, expect) refl
  ]

  -- `logged (send req >>= …)`, after the answer.
  abbrev answered : ℕ → String → Result Response × W → Result (Unit {0}) × W
  answered code message (ok resp, w) = logged (expect send settings gjson code message resp) w
  answered code message (err e, w) = (ok tt, w)
  answered code message (panicked e, w) = (panicked e, w)

  abbrev after : ℕ → String → W → Result Response × W → Result (Unit {0}) × W
  after code message w p =
      logged (λ (v : W). continue p.0 (expect send settings gjson code message) p.1) w

  logged-answered :
      (req : Request) (code : ℕ) (message : String) (w : W) (r : Result Response)
      → (send req w).0 ≡ r
      → logged (send req >>= expect send settings gjson code message) w
        ≡ answered code message (r, (send req w).1)
  logged-answered req code message w (ok resp) e =
      ap (after code message w) (λ i. (e i, (send req w).1))
  logged-answered req code message w (err m) e =
      ap (after code message w) (λ i. (e i, (send req w).1))
  logged-answered req code message w (panicked m) e =
      ap (after code message w) (λ i. (e i, (send req w).1))

  request-Sends :
      (req : Request) (code : ℕ) (message : String)
      → Sends (req ∷ []) (logged (send req >>= expect send settings gjson code message))
  request-Sends req code message w = by_result (send req w).0 refl
    where
      by_result :
          (r : Result Response)
          → (send req w).0 ≡ r
          → ((logged (send req >>= expect send settings gjson code message) w).0 ≡ ok tt)
            × (log (logged (send req >>= expect send settings gjson code message) w).1
                ≡ log w ++ req ∷ [])
      by_result (ok resp) e =
          rw
            (
              logged-answered req code message w (ok resp) e,
              expected code message resp (send req w).1,
            )
            (refl, recorded.notes req w)
      by_result (err m) e =
          rw (logged-answered req code message w (err m) e) (refl, recorded.notes req w)
      by_result (panicked m) e = absurd (recorded.returns req w m e)

  add-Sends :
      (id : String) (m : Member)
      → Sends
          (adds_with settings (member_payload id m))
          (logged (add_project_member send settings gjson id m))
  unfolding add_project_member query
  add-Sends id m w = by_payload (member_payload id m) refl
    where
      by_payload :
          (p : Option Payload)
          → member_payload id m ≡ p
          → ((logged (add_project_member send settings gjson id m) w).0 ≡ ok tt)
            × (log (logged (add_project_member send settings gjson id m) w).1
                ≡ log w ++ adds_with settings (member_payload id m))
      by_payload none e = rw (e, add_project_member) (refl, sym (append-nil (log w)))
      by_payload (some payload) e =
          rw (e, add_project_member) (request-Sends _ 201 "add project member failed, code=" w)

  delete-Sends :
      (m : Member)
      → Sends (delete_with settings m) (logged (delete_project_member send settings gjson m.id))
  unfolding delete_project_member delete_at query
  delete-Sends m w = request-Sends _ 200 "delete failed, response=" w

  for_each-Sends :
      (ms : List Member) (f : Member → Exec W (Unit {0})) (reqs : Member → List Request)
      → ((m : Member) → Sends (reqs m) (f m))
      → Sends (flat reqs ms) (for_each ms f)
  unfolding for_each
  for_each-Sends [] f reqs each w = (refl, sym (append-nil (log w)))
  for_each-Sends (m ∷ ms) f reqs each w =
      let (done, sent) = each m w in
      let (rest, later) = for_each-Sends ms f reqs each (f m w).1 in
      rw (done) (rest, later ∙ rw sent (append_assoc (log w) (reqs m) (flat reqs ms)))

  -- Where `UpdateProject` comes to change the members, whatever answers its requests get, with errors
  -- and with any status: it sends one POST of a binding for each member that is wanted, has no
  -- counterpart by `Compare` and is a user or a group, in order, with the principal of a user as
  -- `userPrincipalId` and that of a group as `groupPrincipalId`, and then one DELETE for each member
  -- that is there and has no counterpart among the wanted, and this part ends without an error.
  pub update_members-Sends :
      (id : String) (old wanted : List Member) (w : W)
      → ((update_members send settings gjson id old wanted w).0 ≡ ok tt)
        × (log (update_members send settings gjson id old wanted w).1
            ≡ log w
              ++ flat (binds settings id) (lacking old wanted)
              ++ flat (delete_with settings) (lacking wanted old))
  unfolding update_members
  update_members-Sends id old wanted w =
      let first =
        for_each-Sends (missing_from old wanted)
          (λ m. logged (add_project_member send settings gjson id m))
          (λ m. adds_with settings (member_payload id m)) (add-Sends id) w in
      let u =
        (for_each (missing_from old wanted)
          (λ m. logged (add_project_member send settings gjson id m)) w).1 in
      let second =
        for_each-Sends (missing_from wanted old)
          (λ m. logged (delete_project_member send settings gjson m.id)) (delete_with settings)
          delete-Sends u in
      rw (first.0) (
        second.0,
        second.1
            ∙ rw
                (
                  first.1,
                  flat-binds settings id (missing_from old wanted),
                  lacking-missing_from old wanted,
                  lacking-missing_from wanted old,
                )
                refl,
      )
