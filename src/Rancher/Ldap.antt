-- ===== src/Rancher/Ldap.antt =====
-- upstream/rancher-go/client/parsers.go: the group in an LDAP principal ID, in bytes.
pub mod Names
pub mod Ids
use balticlsc_platform.Common.{
  String, ℕ, ◌<◌, Bool, true, false, ◌&&◌, not, List, [], ◌∷◌, ◌++◌, append_assoc, append-nil,
  length, Option, none, some, if◌then◌else◌, Result, ok, err, panicked, ◌≡◌, ◌≢◌, ◌↔◌, ◌⊎◌, inl,
  inr, refl, sym, subst, ◌∙◌, arith, ap, Bool-cases,
}
use balticlsc_platform.Rancher.Bytes.{
  Bytes, bytes_of, same_bytes, has_prefix, cut, split, Lacks, Ends, later_parts, same_bytes_refl,
  has_prefix-append, has_prefix-shape, cut-append, cut-shape, cut-none, same_bytes-eq, split-append,
  divided, Lacks-append, is_byte,
}

abbrev pub comma : ℕ
comma = b','

abbrev pub equals : ℕ
equals = b'='

-- The value of the first part of a distinguished name.
unfoldable pub group_in : List Bytes → Result Bytes
group_in [] = err "Invalid CN value in the principalID"
group_in (key ∷ []) = err "Invalid CN value in the principalID"
group_in (key ∷ value ∷ _) =
    if same_bytes key (bytes_of "cn") then ok value else err "CN field not found"

unfoldable pub parse_name : Bytes → Result Bytes
unfolding group_in split
parse_name dn = elim (split comma dn) [
  | [] ↦ err "CN in the principalID not found"
  | cn ∷ _ ↦ group_in (split equals cn)
]

-- Behind the prefix that is cut off; the slice panics if the ID ends before.
unfoldable pub parse_behind : Option Bytes → Result Bytes
parse_behind none = panicked "slice bounds out of range"
parse_behind (some dn) = parse_name dn

-- `parseGroupFromPrincipalID`
unfoldable pub parse_group_from_principal_id : Bytes → Result Bytes
unfolding parse_behind
parse_group_from_principal_id id =
    if not (has_prefix id (bytes_of "openldap_group"))
    then err "Invalid LDAP principalID"
    else parse_behind (cut (length (bytes_of "openldap_group://")) id)
