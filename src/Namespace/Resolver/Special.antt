-- ===== src/Namespace/Resolver/Special.antt =====
-- What `FindUserByProject` answers for a project of owners only.
use balticlsc_platform.Common.{
  String, Bool, true, [], ◌∷◌, Option, none, some, Error, ok, err, ◌⊎◌, inl, inr, ◌≡◌, ◌==◌, refl,
  ap, ◌∙◌, Bool-cases, sym,
}
use balticlsc_platform.Rancher.Client.{Client}
use balticlsc_platform.Namespace.Resolver.{
  UserProjectInfo, ProjectResolver, Runtime, projects_of, find_project, find_cached_user,
  find_user_by_project,
}
use balticlsc_platform.Namespace.Resolver.Refresh.{Directory, Serves, memberships}
use balticlsc_platform.Namespace.Resolver.Answers.{IsFresh}
use balticlsc_platform.Namespace.Resolver.Users.{
  RangesOverKeys, owner_answer, find_user_by_project-cached, find_user_by_project-missing,
}

-- The user has one project, as its owner.
abbrev pub OwnsOne : Directory → String → Type 0
OwnsOne dir user =
    (info : UserProjectInfo) × (memberships dir dir.projects user ≡ info ∷ [])
    × (info.is_owner ≡ true)

-- Each user who has the project is an owner with no other project, and no binding lacks a user.
pub record IsSpecial (dir : Directory) (id : String) : Type 0 where
  pub users :
      (v : String) → (find_project id (memberships dir dir.projects v) ≡ none) ⊎ OwnsOne dir v
  pub named : memberships dir dir.projects "" ≡ []

-- The answers that make a project a special one.
abbrev pub Special : {W : Type 0} → Client W → Runtime W → String → ProjectResolver W → Type 0
Special client runtime id s =
    ((user : String) × ((find_user_by_project client runtime id s).0 ≡ ok (user, true)))
    ⊎ ((e : Error) × ((find_user_by_project client runtime id s).0 ≡ err e))

OwnsOne-mark :
    (dir : Directory) (id user : String) (owner : Bool)
    → OwnsOne dir user
    → find_project id (memberships dir dir.projects user) ≡ some owner
    → owner ≡ true
unfolding find_project
OwnsOne-mark dir id user owner (info, sole, owns) found =
    elim (Bool-cases (info.project_id == id)) [
      | inl same ↦ cc (rw (sole, same, owns) at found)
      | inr differ ↦ cc (rw (sole, differ) at found)
    ]

module _ {W : Type 0} (client : Client W) (runtime : Runtime W) (dir : Directory) (id : String)
    (s : ProjectResolver W) where
  -- A user whom a fresh cache knows to have the project.
  cached_owner :
      (user : String) (owner : Bool)
      → IsFresh dir s.cache
      → IsSpecial dir id
      → find_project id (projects_of user s.cache) ≡ some owner
      → owner ≡ true
  unfolding find_project
  cached_owner user owner fresh h found = elim (fresh.users user) [
    | inl absent ↦ cc (rw absent at found)
    | inr known ↦
        let listed = ap (find_project id) (sym known) ∙ found in
        elim (h.users user) [
          | inl nobody ↦ cc (nobody, listed)
          | inr owns ↦ OwnsOne-mark dir id user owner owns listed
        ]
  ]

  pub find_user_by_project-Special :
      RangesOverKeys runtime
      → Serves client runtime s.cluster_id dir
      → IsFresh dir s.cache
      → IsSpecial dir id
      → Special client runtime id s
  find_user_by_project-Special visits serves fresh h =
      by_search (find_cached_user client runtime id s).0 refl
    where
      by_search :
          (o : Option (String × Bool))
          → (find_cached_user client runtime id s).0 ≡ o
          → Special client runtime id s
      by_search (some (user, owner)) e =
          let (answered, found, kept) =
            find_user_by_project-cached client runtime id s user owner e in
          inl (user, answered ∙ ap (λ b. ok (user, b)) (cached_owner user owner fresh h found))
      by_search none e =
          let (user, decides, answered) =
            find_user_by_project-missing client runtime dir id s visits serves e in
          elim decides [
            | inl has ↦ elim (h.users user) [
              | inl nobody ↦ absurd (has nobody)
              | inr one ↦
                  let (info, sole, owns) = one in
                  inl (user, answered ∙ ap (owner_answer user) sole ∙ ap (λ b. ok (user, b)) owns)
            ]
            | inr nobody ↦ inr ("projectID not found", answered ∙ rw (nobody.0, h.named) refl)
          ]
