-- ===== src/Rancher/DefaultClient/Entities.antt =====
-- Which entities upstream/rancher-go/client/parsers.go takes from an answer.
use balticlsc_platform.Common.{
  String, Bool, false, List, [], ◌∷◌, map, select, ◌==◌, ◌||◌, not, ◌≡◌, ◌≢◌, refl, arith, All,
  Bool-cases, inl, inr, eq_iff,
}
use balticlsc_platform.Rancher.Types.{Entity}
use balticlsc_platform.Rancher.Http.{Gjson}
use balticlsc_platform.Rancher.DefaultClient.{field, entities_of, parse_entities}

-- An entity with a name and an ID.
pub record IsNamed (e : Entity) : Type 0 where
  pub name : e.name ≢ ""
  pub id : e.id ≢ ""

module _ {J : Type 0} (gjson : Gjson J) where
  abbrev pub is_complete : (J × J) → Bool
  is_complete (_, item) = not (field gjson "name" item == "" || field gjson "id" item == "")

  abbrev pub entity : (J × J) → Entity
  entity (_, item) = record { id = field gjson "id" item; name = field gjson "name" item }

  nonempty : (s : String) → (s == "") ≡ false → s ≢ ""
  nonempty s h e = cc (h, (eq_iff s "").1 e)

  entities_of-IsNamed : (items : List (J × J)) → All IsNamed (entities_of gjson items)
  unfolding entities_of
  entities_of-IsNamed [] = tt
  entities_of-IsNamed ((key, item) ∷ items) =
      let ih = entities_of-IsNamed items in
      let n = field gjson "name" item in
      let d = field gjson "id" item in
      elim (Bool-cases (n == "")) [
        | inl nameless ↦ rw nameless ih
        | inr named ↦ elim (Bool-cases (d == "")) [
          | inl anonymous ↦ rw (named, anonymous) ih
          | inr known ↦
              rw (named, known) (record { name = nonempty n named; id = nonempty d known }, ih)
        ]
      ]

  entities_of-select :
      (items : List (J × J)) → entities_of gjson items ≡ map entity (select is_complete items)
  unfolding entities_of
  entities_of-select [] = refl
  entities_of-select ((key, item) ∷ items) = ground (arith, entities_of-select items)

  -- The entities of an answer are exactly its items that have both a name and an ID, in order, and so
  -- each of them has a name and an ID that are not empty.
  pub parse_entities-IsNamed :
      (body path : String)
      → (parse_entities gjson body path
          ≡ map entity (select is_complete (gjson.entries (gjson.get_path body path))))
        × All IsNamed (parse_entities gjson body path)
  unfolding parse_entities
  parse_entities-IsNamed body path =
      let items = gjson.entries (gjson.get_path body path) in
      (entities_of-select items, entities_of-IsNamed items)
