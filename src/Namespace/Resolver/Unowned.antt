-- ===== src/Namespace/Resolver/Unowned.antt =====
-- What `FindUserByProject` answers for a project that has a member and that nobody owns.
use balticlsc_platform.Common.{
  String, Bool, true, false, List, [], ◌∷◌, Option, none, some, ok, ◌==◌, inl, inr, ◌≡◌, ◌≢◌, refl,
  ap, ◌∙◌, Bool-cases, sym,
}
use balticlsc_platform.Rancher.Client.{Client}
use balticlsc_platform.Namespace.Resolver.{
  UserProjectInfo, ProjectResolver, Runtime, projects_of, find_project, find_cached_user,
  find_user_by_project,
}
use balticlsc_platform.Namespace.Resolver.Refresh.{Directory, Serves, memberships}
use balticlsc_platform.Namespace.Resolver.Answers.{IsFresh}
use balticlsc_platform.Namespace.Resolver.Users.{
  RangesOverKeys, owner_answer, find_user_by_project-cached, find_user_by_project-missing,
}

-- A user has the project, and no user's first entry for it is that of an owner.
pub record IsUnowned (dir : Directory) (id : String) : Type 0 where
  pub user : String
  pub has : find_project id (memberships dir dir.projects user) ≢ none
  pub unowned : (v : String) → find_project id (memberships dir dir.projects v) ≢ some true

owner_answer-unowned :
    (id user : String) (l : List UserProjectInfo)
    → find_project id l ≢ none
    → find_project id l ≢ some true
    → owner_answer user l ≡ ok (user, false)
unfolding find_project
owner_answer-unowned id user [] has unowned = absurd (has refl)
owner_answer-unowned id user (info ∷ []) has unowned = elim (Bool-cases (info.project_id == id)) [
  | inl same ↦ elim (Bool-cases info.is_owner) [
    | inl owner ↦ absurd (unowned (rw (same, owner) refl))
    | inr other ↦ rw other refl
  ]
  | inr differ ↦ absurd (has (rw differ refl))
]
owner_answer-unowned id user (info ∷ j ∷ l) has unowned = refl

module _ {W : Type 0} (client : Client W) (runtime : Runtime W) (dir : Directory) (id : String)
    (s : ProjectResolver W) where
  -- A user whom a fresh cache knows to have the project.
  cached_mark :
      (user : String) (owner : Bool)
      → IsFresh dir s.cache
      → IsUnowned dir id
      → find_project id (projects_of user s.cache) ≡ some owner
      → owner ≡ false
  unfolding find_project
  cached_mark user owner fresh h found = elim (fresh.users user) [
    | inl absent ↦ cc (rw absent at found)
    | inr known ↦ elim (Bool-cases owner) [
      | inl owns ↦ absurd (h.unowned user (ap (find_project id) (sym known) ∙ found ∙ ap some owns))
      | inr other ↦ other
    ]
  ]

  pub find_user_by_project_unowned :
      RangesOverKeys runtime
      → Serves client runtime s.cluster_id dir
      → IsFresh dir s.cache
      → IsUnowned dir id
      → (user : String) × ((find_user_by_project client runtime id s).0 ≡ ok (user, false))
  find_user_by_project_unowned visits serves fresh h =
      by_search (find_cached_user client runtime id s).0 refl
    where
      by_search :
          (o : Option (String × Bool))
          → (find_cached_user client runtime id s).0 ≡ o
          → (user : String) × ((find_user_by_project client runtime id s).0 ≡ ok (user, false))
      by_search (some (user, owner)) e =
          let (answered, found, kept) =
            find_user_by_project-cached client runtime id s user owner e in
          (user, answered ∙ ap (λ b. ok (user, b)) (cached_mark user owner fresh h found))
      by_search none e =
          let (user, decides, answered) =
            find_user_by_project-missing client runtime dir id s visits serves e in
          (
            user,
            answered ∙ elim decides [
              | inl has ↦ owner_answer-unowned id user _ has (h.unowned user)
              | inr nobody ↦ absurd (h.has (nobody.1 h.user))
            ],
          )
