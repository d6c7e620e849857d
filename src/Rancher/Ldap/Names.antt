-- ===== src/Rancher/Ldap/Names.antt =====
-- Which distinguished names upstream/rancher-go/client/parsers.go takes a group from.
use balticlsc_platform.Common.{
  String, List, [], ◌∷◌, ◌++◌, append_assoc, ok, panicked, ◌≡◌, ◌≢◌, ◌⊎◌, inl, inr, refl, sym,
  subst, ◌∙◌, arith, ap, Bool-cases,
}
use balticlsc_platform.Rancher.Bytes.{
  Bytes, bytes_of, same_bytes, split, Lacks, Ends, later_parts, same_bytes-eq, split-append,
  divided, Lacks-append,
}
use balticlsc_platform.Rancher.Ldap.{comma, equals, group_in, parse_name}

-- The group stands behind `cn=`, up to the next comma or equals sign, if any.
pub record IsNamed (dn group : Bytes) : Type 0 where
  pub tail : Bytes
  pub shape : dn ≡ bytes_of "cn=" ++ (group ++ tail)
  pub plain : Lacks comma group × Lacks equals group
  pub ends : Ends comma tail ⊎ Ends equals tail

-- A tail up to its first comma.
record Front (tail : Bytes) : Type 0 where
  front : Bytes
  back : Bytes
  shape : tail ≡ front ++ back
  lacks : Lacks comma front
  behind : Ends comma back
  ends : Ends equals front

Ends-Front : (tail : Bytes) → Ends comma tail ⊎ Ends equals tail → Front tail
Ends-Front tail ends =
    let (front, back, e, lacks, behind) = divided comma tail in by_front front back e lacks behind
  where
    by_front :
        (front back : Bytes)
        → tail ≡ front ++ back
        → Lacks comma front
        → Ends comma back
        → Front tail
    by_front [] back e lacks behind = record {
      front = [];
      back = back;
      shape = e;
      lacks = tt;
      behind = behind;
      ends = tt;
    }
    by_front (c ∷ front) back e lacks behind = record {
      front = c ∷ front;
      back = back;
      shape = e;
      lacks = lacks;
      behind = behind;
      ends = elim (rw e at ends) [ inl h ↦ cc (h, lacks.0) | inr h ↦ h ];
    }

pub parse_name-named : (dn group : Bytes) → IsNamed dn group → parse_name dn ≡ ok group
unfolding parse_name group_in
parse_name-named dn group h =
    let f = Ends-Front h.tail h.ends in
    let cn = bytes_of "cn=" ++ (group ++ f.front) in
    let first : dn ≡ cn ++ f.back =
      h.shape
      ∙ ap (λ t. bytes_of "cn=" ++ (group ++ t)) f.shape
      ∙ ap (λ l. bytes_of "cn=" ++ l) (sym (append_assoc group f.front f.back)) in
    let no_comma : Lacks comma cn =
      (refl, (refl, (refl, (Lacks-append comma group f.front).1 (h.plain.0, f.lacks)))) in
    let outer = split-append comma cn f.back no_comma f.behind in
    let inner =
      split-append equals (bytes_of "cn") (b'=' ∷ (group ++ f.front)) (refl, (refl, tt)) refl in
    let value = split-append equals group f.front h.plain.1 f.ends in
    rw (first, parse_name, outer, inner, value) refl

Ends-append :
    (tail back : Bytes)
    → Ends equals tail
    → Ends comma back
    → Ends comma (tail ++ back) ⊎ Ends equals (tail ++ back)
Ends-append [] back h k = inl k
Ends-append (c ∷ tail) back h k = inr h

-- Only the key `cn` is accepted.
group_in-ok :
    (key value group : Bytes) (parts : List Bytes)
    → group_in (key ∷ value ∷ parts) ≡ ok group
    → (key ≡ bytes_of "cn") × (value ≡ group)
unfolding group_in
group_in-ok key value group parts h = elim (Bool-cases (same_bytes key (bytes_of "cn"))) [
  | inl e ↦ (same_bytes-eq key (bytes_of "cn") e, ground (arith, rw e at h))
  | inr e ↦ cc (rw e at h)
]

-- What a name that is accepted looks like, from its parts.
accepted :
    (dn back key rest group : Bytes)
    → dn ≡ (key ++ rest) ++ back
    → Lacks comma (key ++ rest)
    → Ends comma back
    → Ends equals rest
    → group_in (key ∷ later_parts equals rest) ≡ ok group
    → IsNamed dn group
accepted dn back key [] group e lacks behind ends h = unfold group_in in cc h
accepted dn back key (c ∷ rest) group e lacks behind ends h =
    let (value, tail, g, plain, after) = divided equals rest in
    let parts = split-append equals value tail plain after in
    let (is_cn, same) =
      group_in-ok key value group (later_parts equals tail)
        (rw (ap (split equals) g ∙ parts) at h) in
    let (in_value, in_tail) =
      (Lacks-append comma value tail).0
        (subst (Lacks comma) g ((Lacks-append comma key (c ∷ rest)).0 lacks).1.1) in
    let sep : c ≡ equals = ground (arith, ends) in
    record {
      tail = tail ++ back;
      shape =
          e
          ∙ ap (λ k. (k ++ c ∷ rest) ++ back) is_cn
          ∙ ap (λ d. (bytes_of "cn" ++ d ∷ rest) ++ back) sep
          ∙ ap (λ r. bytes_of "cn=" ++ (r ++ back)) (g ∙ ap (λ v. v ++ tail) same)
          ∙ ap (λ r. bytes_of "cn=" ++ r) (append_assoc group tail back);
      plain = (subst (Lacks comma) same in_value, subst (Lacks equals) same plain);
      ends = Ends-append tail back after behind;
    }

pub parse_name-ok : (dn group : Bytes) → parse_name dn ≡ ok group → IsNamed dn group
unfolding parse_name
parse_name-ok dn group h =
    let (cn, back, e, lacks, behind) = divided comma dn in
    let (key, rest, f, plain, ends) = divided equals cn in
    let outer = ap (split comma) e ∙ split-append comma cn back lacks behind in
    let inner = ap (split equals) f ∙ split-append equals key rest plain ends in
    accepted dn back key rest group (e ∙ ap (λ l. l ++ back) f) (subst (Lacks comma) f lacks) behind
      ends (rw (outer, parse_name, inner) at h)

group_in-ne-panicked : (parts : List Bytes) (e : String) → group_in parts ≢ panicked e
unfolding group_in
group_in-ne-panicked [] e h = cc h
group_in-ne-panicked (key ∷ []) e h = cc h
group_in-ne-panicked (key ∷ value ∷ parts) e h =
    elim (Bool-cases (same_bytes key (bytes_of "cn"))) [
      | inl is_cn ↦ cc (rw is_cn at h)
      | inr other ↦ cc (rw other at h)
    ]

pub parse_name-ne-panicked : (dn : Bytes) (e : String) → parse_name dn ≢ panicked e
unfolding parse_name
parse_name-ne-panicked dn e h =
    let (cn, back, d, lacks, behind) = divided comma dn in
    let outer = ap (split comma) d ∙ split-append comma cn back lacks behind in
    group_in-ne-panicked (split equals cn) e (rw (outer, parse_name) at h)
