-- ===== src/Rancher/Ldap/Ids.antt =====
-- Which principal IDs upstream/rancher-go/client/parsers.go takes a group from.
use balticlsc_platform.Common.{
  String, ◌<◌, true, false, ◌++◌, length, Option, none, some, ok, err, panicked, ◌≡◌, ◌↔◌, inl, inr,
  refl, sym, ◌∙◌, ap, Bool-cases,
}
use balticlsc_platform.Rancher.Bytes.{
  Bytes, bytes_of, has_prefix, cut, has_prefix-append, has_prefix-shape, cut-append, cut-shape,
  cut-none,
}
use balticlsc_platform.Rancher.Ldap.{parse_behind, parse_group_from_principal_id}
use balticlsc_platform.Rancher.Ldap.Names.{
  IsNamed, parse_name-named, parse_name-ok, parse_name-ne-panicked,
}

-- Three bytes, whatever they are, stand between the prefix and the distinguished name.
pub record IsGroupId (id group : Bytes) : Type 0 where
  pub gap : Bytes
  pub dn : Bytes
  pub three : length gap ≡ 3
  pub shape : id ≡ bytes_of "openldap_group" ++ (gap ++ dn)
  pub named : IsNamed dn group

parse_behind-ok :
    (o : Option Bytes) (group : Bytes)
    → parse_behind o ≡ ok group
    → (dn : Bytes) × (o ≡ some dn) × IsNamed dn group
unfolding parse_behind
parse_behind-ok none group h = cc
parse_behind-ok (some dn) group h = (dn, refl, parse_name-ok dn group h)

parse_behind-panicked :
    (o : Option Bytes) → ((e : String) × (parse_behind o ≡ panicked e)) ↔ (o ≡ none)
unfolding parse_behind
parse_behind-panicked none = (λ h. refl, λ h. ("slice bounds out of range", refl))
parse_behind-panicked (some dn) = (λ h. absurd (parse_name-ne-panicked dn h.0 h.1), λ h. cc h)

abbrev scheme : Bytes
scheme = bytes_of "openldap_group"

known :
    (id : Bytes)
    → has_prefix id scheme ≡ true
    → parse_group_from_principal_id id ≡ parse_behind (cut 17 id)
unfolding parse_group_from_principal_id
known id h = rw (h, parse_group_from_principal_id) refl

foreign :
    (id : Bytes)
    → has_prefix id scheme ≡ false
    → parse_group_from_principal_id id ≡ err "Invalid LDAP principalID"
unfolding parse_group_from_principal_id
foreign id h = rw (h, parse_group_from_principal_id) refl

-- A group is read exactly from the principal IDs that start with `openldap_group`, then any three
-- bytes, then `cn=` and the group, up to the end or the first comma or equals sign.
pub parse_group_from_principal_id-ok :
    (id group : Bytes) → (parse_group_from_principal_id id ≡ ok group) ↔ IsGroupId id group
parse_group_from_principal_id-ok id group = (there, back)
  where
    back : IsGroupId id group → parse_group_from_principal_id id ≡ ok group
    back h =
        let rest = cut-append h.gap h.dn in
        let cut_off : cut 17 id ≡ some h.dn =
          ap (cut 17) h.shape ∙ ap (λ n. cut n (h.gap ++ h.dn)) (sym h.three) ∙ rest in
        known id (ap (λ i. has_prefix i scheme) h.shape ∙ has_prefix-append scheme (h.gap ++ h.dn))
        ∙ ap parse_behind cut_off
        ∙ (unfold parse_behind in parse_name-named h.dn group h.named)

    there : parse_group_from_principal_id id ≡ ok group → IsGroupId id group
    there h = elim (Bool-cases (has_prefix id scheme)) [
      | inr other ↦ cc (foreign id other, h)
      | inl prefixed ↦
          let (t, e) = has_prefix-shape id scheme prefixed in
          let (dn, cut_off, named) =
            parse_behind-ok (cut 17 id) group (sym (known id prefixed) ∙ h) in
          let (gap, three, f) = cut-shape 3 t dn (ap (cut 17) (sym e) ∙ cut_off) in
          record {
            gap = gap;
            dn = dn;
            three = three;
            shape = e ∙ ap (λ l. scheme ++ l) f;
            named = named;
          }
    ]

-- An ID panics exactly if it starts with `openldap_group` and has fewer than 17 bytes.
pub parse_group_from_principal_id-panicked :
    (id : Bytes)
    → ((e : String) × (parse_group_from_principal_id id ≡ panicked e))
      ↔ ((has_prefix id (bytes_of "openldap_group") ≡ true) × (length id < 17))
parse_group_from_principal_id-panicked id = elim (Bool-cases (has_prefix id scheme)) [
  | inl prefixed ↦
      let (short, fails) = cut-none 17 id in
      let (there, back) = parse_behind-panicked (cut 17 id) in
      (
        λ h. (prefixed, short (there (h.0, sym (known id prefixed) ∙ h.1))),
        λ h. let (e, p) = back (fails h.1) in (e, known id prefixed ∙ p),
      )
  | inr other ↦ (λ h. cc (foreign id other, h.1), λ h. cc (h.0, other))
]
