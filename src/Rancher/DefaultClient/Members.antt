-- ===== src/Rancher/DefaultClient/Members.antt =====
-- The members that `UpdateProject` of upstream/rancher-go/client/client.go adds and deletes.
use balticlsc_platform.Common.{
  true, false, List, [], ◌∷◌, ◌++◌, select, not, ◌||◌, ◌&&◌, ◌≡◌, refl, arith, eq_iff,
}
use balticlsc_platform.Rancher.Types.{Member, compare}
use balticlsc_platform.Rancher.DefaultClient.Writes.{has_member, missing_from}

has_member-append :
    (a b : List Member) (m : Member) → has_member (a ++ b) m ≡ (has_member a m || has_member b m)
unfolding has_member
has_member-append [] b m = refl
has_member-append (x ∷ a) b m = ground (arith, has_member-append a b m)

-- `Compare` is an equivalence.
compare_trans : (a b c : Member) → compare a b ≡ true → compare b c ≡ true → compare a c ≡ true
unfolding compare
compare_trans a b c p q = ground (
  arith,
  eq_iff a.member_type b.member_type,
  eq_iff b.member_type c.member_type,
  eq_iff a.member_type c.member_type,
  eq_iff a.principal_id b.principal_id,
  eq_iff b.principal_id c.principal_id,
  eq_iff a.principal_id c.principal_id,
  eq_iff a.role_template_id b.role_template_id,
  eq_iff b.role_template_id c.role_template_id,
  eq_iff a.role_template_id c.role_template_id,
)

compare_comm : (a b : Member) → compare a b ≡ compare b a
unfolding compare
compare_comm a b = ground (
  arith,
  eq_iff a.member_type b.member_type,
  eq_iff b.member_type a.member_type,
  eq_iff a.principal_id b.principal_id,
  eq_iff b.principal_id a.principal_id,
  eq_iff a.role_template_id b.role_template_id,
  eq_iff b.role_template_id a.role_template_id,
)

-- Equal members are in the same lists.
has_member-compare :
    (l : List Member) (a b : Member) → compare a b ≡ true → has_member l a ≡ has_member l b
unfolding has_member
has_member-compare [] a b h = refl
has_member-compare (x ∷ l) a b h =
    ground (
      arith,
      has_member-compare l a b h,
      compare_trans x a b,
      compare_trans x b a,
      compare_comm a b,
    )

-- What is missing from a list is what is wanted and not in the list.
has_member-missing_from :
    (others wanted : List Member) (m : Member)
    → has_member (missing_from others wanted) m ≡ (has_member wanted m && not (has_member others m))
unfolding has_member missing_from
has_member-missing_from others [] m = refl
has_member-missing_from others (x ∷ wanted) m =
    ground (arith, has_member-missing_from others wanted m, has_member-compare others x m)

-- The members that stay.
abbrev pub kept_of : List Member → List Member → List Member
kept_of old wanted = select (λ x. not (has_member (missing_from wanted old) x)) old

has_member-kept :
    (deleted old : List Member) (m : Member)
    → has_member (select (λ x. not (has_member deleted x)) old) m
      ≡ (has_member old m && not (has_member deleted m))
unfolding has_member
has_member-kept deleted [] m = refl
has_member-kept deleted (x ∷ old) m =
    ground (arith, has_member-kept deleted old m, has_member-compare deleted x m)

-- Whatever members a project has and whatever it is to have: the members that `UpdateProject` does not
-- delete, with those it adds, are the ones that are wanted, where members count as the same by
-- `Compare`; and none is both deleted and added.
pub missing_from-replaces :
    (old wanted : List Member) (m : Member)
    → (has_member (kept_of old wanted ++ missing_from old wanted) m ≡ has_member wanted m)
      × ((has_member (missing_from wanted old) m && has_member (missing_from old wanted) m) ≡ false)
missing_from-replaces old wanted m =
    let deleted = has_member-missing_from wanted old m in
    let added = has_member-missing_from old wanted m in
    let kept = has_member-kept (missing_from wanted old) old m in
    let both = has_member-append (kept_of old wanted) (missing_from old wanted) m in
    (ground (arith, both, kept, added, deleted), ground (arith, added, deleted))
