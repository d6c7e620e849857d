-- ===== src/Tests/Rancher.antt =====
-- The Rancher client at concrete inputs, over a transport that only notes the requests.
use balticlsc_platform.Common.{
  String, false, List, [], ◌∷◌, ◌++◌, map, select, ok, ◌&&◌, ◌==◌, ◌≡◌, refl, All, if◌then◌else◌,
}
use balticlsc_platform.Rancher.Types.{Member}
use balticlsc_platform.Rancher.Http.{Request, Transport, Gjson}
use balticlsc_platform.Rancher.DefaultClient.{Settings, parse_entities}
use balticlsc_platform.Rancher.DefaultClient.Writes.{has_member, missing_from, update_members}
use balticlsc_platform.Rancher.DefaultClient.Members.{kept_of, missing_from-replaces}
use balticlsc_platform.Rancher.DefaultClient.Requests.{
  IsRecorded, binds, delete_with, lacking, flat, update_members-Sends,
}
use balticlsc_platform.Rancher.DefaultClient.Entities.{
  IsNamed, is_complete, entity, parse_entities-IsNamed,
}
use balticlsc_platform.Tests.Cluster.{binding}

abbrev old : List Member
old = binding "alice" "p1" "project-member" ∷ binding "root" "p1" "project-owner" ∷ []

abbrev wanted : List Member
wanted = binding "bob" "p1" "project-member" ∷ binding "root" "p1" "project-owner" ∷ []

missing_from-replaces_example :
    (has_member
        (kept_of old wanted ++ missing_from old wanted)
        (binding "bob" "p1" "project-member")
      ≡ has_member wanted (binding "bob" "p1" "project-member"))
    × ((has_member (missing_from wanted old) (binding "bob" "p1" "project-member")
          && has_member (missing_from old wanted) (binding "bob" "p1" "project-member"))
        ≡ false)
missing_from-replaces_example =
    missing_from-replaces old wanted (binding "bob" "p1" "project-member")

abbrev noting : Transport (List Request)
noting req w = (ok (record { status_code = 404; body = "" }), w ++ req ∷ [])

abbrev settings : Settings
settings = record { server_url = "https://rancher"; token = "t" }

-- JSON that is a name alone.
abbrev gjson : Gjson String
gjson = record {
  get_path = λ body path. body;
  get = λ name j. if name == "name" then j else "i1";
  string = λ j. j;
  array = λ j. j ∷ [];
  entries = λ j. ("", j) ∷ ("", "") ∷ [];
}

noting-IsRecorded : IsRecorded noting (λ w. w)
noting-IsRecorded = record { notes = λ req w. refl; returns = λ req w e f. cc f }

update_members-Sends_example :
    ((update_members noting settings gjson "p1" old wanted []).0 ≡ ok tt)
    × ((update_members noting settings gjson "p1" old wanted []).1
        ≡ []
          ++ flat (binds settings "p1") (lacking old wanted)
          ++ flat (delete_with settings) (lacking wanted old))
update_members-Sends_example =
    update_members-Sends noting settings gjson (λ w. w) noting-IsRecorded "p1" old wanted []

parse_entities-IsNamed_example :
    (parse_entities gjson "alice" "data"
      ≡ map (entity gjson) (select (is_complete gjson) (gjson.entries "alice")))
    × All IsNamed (parse_entities gjson "alice" "data")
parse_entities-IsNamed_example = parse_entities-IsNamed gjson "alice" "data"
