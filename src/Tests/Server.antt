-- ===== src/Tests/Server.antt =====
-- The webhook over the default Rancher client, which talks to a server with one answer; a JSON value
-- is a list of rows here, and a text is a row with one unnamed column.
use balticlsc_platform.Common.{
  String, inr, true, false, List, [], ◌∷◌, map, none, some, ◌==◌, not, if◌then◌else◌, ok, panicked,
  ◌≡◌, ◌↔◌, ◌<◌, refl, inl, length,
}
use balticlsc_platform.Common.Dict
use balticlsc_platform.Common.Dict.{Dict}
use balticlsc_platform.Rancher.Types.{Member, member_type_user}
use balticlsc_platform.Rancher.Bytes.{bytes_of, has_prefix}
use balticlsc_platform.Rancher.Ldap.{parse_group_from_principal_id}
use balticlsc_platform.Rancher.Ldap.Ids.{
  IsGroupId, parse_group_from_principal_id-ok, parse_group_from_principal_id-panicked,
}
use balticlsc_platform.Rancher.Client.{Client}
use balticlsc_platform.Rancher.Http.{Transport, Gjson}
use balticlsc_platform.Rancher.DefaultClient.{Settings}
use balticlsc_platform.Rancher.DefaultClient.Reader.{default_client}
use balticlsc_platform.Namespace.Resolver.{
  ProjectResolver, project_info, empty_cache, project_id_of, resolve_projects_by_user,
  resolve_project_id_by_namespace,
}
use balticlsc_platform.Namespace.Resolver.Refresh.{Directory, memberships, project_of}
use balticlsc_platform.Namespace.Resolver.Answers.{id_or_empty}
use balticlsc_platform.Namespace.Resolver.OverHttp.{ShowsEntity, ShowsMember, Publishes}
use balticlsc_platform.Namespace.Admission.Http.{HttpRequest, response_for, serve_admit_func}
use balticlsc_platform.Namespace.Server.{
  Platform, new_project_resolver, admit_func_handler, mutating_server,
}
use balticlsc_platform.Namespace.Server.Runs.{
  exchange_of, Served, started, after, handled, Served_correct,
}
use balticlsc_platform.Tests.Cluster.{runtime}
use balticlsc_platform.Namespace.Server.Answers.{Marshals, Served-places}
use balticlsc_platform.Namespace.Admission.{Verdict}
use balticlsc_platform.Namespace.Admission.Namespaces.{IsPlaced}
use balticlsc_platform.Namespace.Admission.Outcomes.{sent}
use balticlsc_platform.Tests.Admission.{codec, post, request, alice_ns, alice_project, alice-Holds}

abbrev pub Rows : Type 0
Rows = List (Dict String)

abbrev row : String → Dict String
row id =
    ("id", id)
    ∷ ("name", "alice")
    ∷ ("userId", "alice")
    ∷ ("projectId", id)
    ∷ ("roleTemplateId", "project-member")
    ∷ ("userPrincipalId", "local://alice")
    ∷ []

abbrev rows : Rows
rows = row "p1" ∷ []

abbrev alone : String → Dict String
alone s = ("", s) ∷ []

abbrev value : String → Dict String → String
value name r = elim (Dict.lookup name r) [ none ↦ "" | some s ↦ s ]

abbrev first : String → Rows → String
first name [] = ""
first name (r ∷ _) = value name r

abbrev pub gjson : Gjson Rows
gjson = record {
  get_path = λ body path. if path == "data" then rows else map (λ r. alone (value "id" r)) rows;
  get = λ name rs. alone (first name rs) ∷ [];
  string = first "";
  array = map (λ r. r ∷ []);
  entries = map (λ r. ([], r ∷ []));
}

abbrev pub send : Transport (Unit {0})
send req w = (ok (record { status_code = 200; body = "" }), w)

abbrev settings : Settings
settings = record { server_url = "https://rancher"; token = "token" }

abbrev member : String → Member
member id = record {
  id = id;
  user_id = "alice";
  project_id = id;
  member_type = member_type_user;
  principal_id = "local://alice";
  role_template_id = "project-member";
}

abbrev published : Directory
published = record {
  projects = record { id = "p1"; name = "alice" } ∷ [];
  members = λ id. member "p1" ∷ [];
  namespaces = λ id. "p1" ∷ [];
}

row-ShowsEntity :
    (id : String)
    → (id == "") ≡ false
    → ShowsEntity gjson (row id ∷ []) (record { id = id; name = "alice" })
unfolding Dict.lookup
row-ShowsEntity id h = record { name = refl; id = refl; named = refl; identified = h }

row-ShowsMember : (id : String) → ShowsMember gjson (row id ∷ []) (member id)
unfolding Dict.lookup
row-ShowsMember id = record {
  id = refl;
  user_id = refl;
  project_id = refl;
  role = refl;
  principal = inl (refl, refl, refl);
}

published-Publishes : Publishes gjson send settings runtime "c" published
unfolding Dict.lookup
published-Publishes = record {
  projects = λ w. (record { status_code = 200; body = "" }, refl, (row-ShowsEntity "p1" refl, tt));
  members = λ id w. (record { status_code = 200; body = "" }, refl, (row-ShowsMember "p1", tt));
  namespaces = λ id w. (record { status_code = 200; body = "" }, refl, refl);
  opa = λ c w. (200, refl);
}

abbrev platform : Platform (Unit {0})
platform = record {
  get_env = λ name. "";
  join_path = λ dir file. file;
  skip_verify = λ w. w;
  listen_and_serve_tls = λ server cert key s. ("closed", s);
}

abbrev begun : ProjectResolver (Unit {0})
begun = record { cluster_id = "c"; cache = empty_cache; world = tt }

abbrev client : Client (Unit {0})
client = default_client gjson send settings

abbrev handle : HttpRequest → ProjectResolver (Unit {0}) → ProjectResolver (Unit {0})
handle req s = (serve_admit_func codec client runtime req (exchange_of s)).1.resolver

-- After two requests, the second with the wrong method.
abbrev later : ProjectResolver (Unit {0})
later = handle (record (post "alice") { method = "GET" }) (handle (post "alice") begun)

one_day : Served (mutating_server gjson send platform codec runtime 8443 client) begun later
unfolding mutating_server admit_func_handler Dict.lookup
one_day =
    after (after started (handled "/mutate" _ refl (post "alice") begun))
      (handled "/mutate" _ refl (record (post "alice") { method = "GET" }) _)

Served_correct_example :
    ((resolve_projects_by_user client runtime "alice" later).0
      ≡ ok (memberships published published.projects "alice"))
    × ((resolve_project_id_by_namespace client runtime "p1" later).0
        ≡ ok (
          id_or_empty (project_of published published.projects "p1"),
          not (project_id_of "p1" later.cache == ""),
        ))
unfolding new_project_resolver
Served_correct_example =
    Served_correct gjson send platform codec runtime 8443 "https://rancher" "c" "token" true
      published tt later "alice" "p1" published-Publishes one_day

codec-Marshals : Marshals codec
codec-Marshals = record {
  patch = λ ops. ("patch", refl);
  review = λ r. (if r.allowed then "allowed" else "denied", refl);
}

Served-places_example :
    (v : Verdict) × (patch : String) × (bytes : String) × IsPlaced alice_project alice_ns v
    × (codec.marshal_patch v.patch_ops ≡ inr patch)
    × (codec.marshal_review (response_for "u1" v patch) ≡ inr bytes)
    × ((serve_admit_func codec client runtime (post "alice") (exchange_of later)).1.writer
        ≡ sent 200 bytes)
unfolding new_project_resolver project_info
Served-places_example =
    Served-places gjson send platform codec runtime 8443 "https://rancher" "c" "token" true
      published tt later (post "alice") (request "Namespace" "alice") alice_project alice_ns
      published-Publishes one_day codec-Marshals alice-Holds refl refl refl

-- The panic of a short ID and the group of a long one.
parse_group_from_principal_id-panicked_example :
    ((e : String) × (parse_group_from_principal_id (bytes_of "openldap_group:/") ≡ panicked e)) ↔ (
      (has_prefix (bytes_of "openldap_group:/") (bytes_of "openldap_group") ≡ true)
      × (length (bytes_of "openldap_group:/") < 17))
parse_group_from_principal_id-panicked_example =
    parse_group_from_principal_id-panicked (bytes_of "openldap_group:/")

parse_group_from_principal_id-ok_example :
    (parse_group_from_principal_id (bytes_of "openldap_group://cn=ops,ou=groups")
      ≡ ok (bytes_of "ops"))
    ↔ IsGroupId (bytes_of "openldap_group://cn=ops,ou=groups") (bytes_of "ops")
parse_group_from_principal_id-ok_example =
    parse_group_from_principal_id-ok (bytes_of "openldap_group://cn=ops,ou=groups") (bytes_of "ops")
