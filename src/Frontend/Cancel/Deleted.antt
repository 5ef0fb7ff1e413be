-- ===== src/Frontend/Cancel/Deleted.antt =====
-- `delete_builds` of frontend/coprs_frontend/coprs/logic/builds_logic.py deletes all that it was asked
-- to delete, none of which runs or belongs to a persistent project, or nothing.
use copr.Base.{ℕ, ◌≡◌, ◌++◌, List, [], ◌∷◌, Bool, true, false, if◌then◌else◌, All, ◌⊎◌}
use copr.Base.Equality.{nat_eq, text_eq, bool_eq}
use copr.Base.Dict.{contains}
use copr.Frontend.User.{User}
use copr.Frontend.Build.{Build, finished}
use copr.Frontend.Cancel.Projects.{OfOneProject}
use copr.Frontend.Cancel.{
  Session, Outcome, Check, passes, refuses, unfinished, ToDelete, no_rights, conflicting,
  in_progress, bad_request, more_projects, done, ids_of,
}

-- A build that may go.
abbrev pub IsDeletable : Build → Type 0
IsDeletable b = (b.copr.persistent ≡ false) × (finished b ≡ true)

abbrev Allows : Build → Check → Type 0
Allows b passes = IsDeletable b
Allows b refuses = Unit
Allows b unfinished = Unit

-- With no refusals, all the builds are sorted for deletion.
abbrev IsSorted : List Build → ToDelete → Type 0
IsSorted bs sorted =
    sorted.refused ≡ [] → sorted.still_running ≡ [] → (sorted.to_delete ≡ bs) × All IsDeletable bs

-- The rows whose ids are not listed.
unfoldable pub without : List ℕ → List Build → List Build
unfolding contains
without ids [] = []
without ids (b ∷ bs) = let rest = without ids bs in if contains ids b.id then rest else b ∷ rest

-- The actions afterwards: one more for the builds, if there are some and it is to be sent.
unfoldable pub told : List Build → Bool → List (List ℕ) → List (List ℕ)
told [] send actions = actions
told (b ∷ bs) send actions = if send then actions ++ ids_of (b ∷ bs) ∷ [] else actions

-- What `delete_builds` did with the builds that it found and the ids that it did not find.
abbrev pub IsDeleted : List Build → List ℕ → Bool → Session → Outcome → Type 0
IsDeleted found missing send s no_rights = ⊥
IsDeleted found missing send s conflicting = ⊥
IsDeleted found missing send s in_progress = ⊥
IsDeleted found missing send s (bad_request refused running absent) = absent ≡ missing
IsDeleted found missing send s more_projects =
    (missing ≡ []) × All IsDeletable found × (send ≡ true) × ¬ OfOneProject found
IsDeleted found missing send s (done s') =
    (missing ≡ [])
    × All IsDeletable found
    × ((send ≡ false) ⊎ OfOneProject found)
    × (s'.builds ≡ without (ids_of found) s.builds)
    × (s'.delete_actions ≡ told found send s.delete_actions)
    × (s'.cancel_requests ≡ s.cancel_requests)
