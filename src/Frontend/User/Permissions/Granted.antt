-- ===== src/Frontend/User/Permissions/Granted.antt =====
-- Who grants the permissions that class CoprPermissionsLogic of
-- frontend/coprs_frontend/coprs/logic/coprs_logic.py writes.
use copr.Base.{◌≡◌, ◌⊎◌, ℕ, Option, List, Bool, inl, inr}
use copr.Base.Equality.{Text}
use copr.Frontend.User.{Copr, Permission, User, approved}
use copr.Frontend.User.Editors.{Editor, can_edit-Editor}
use copr.Frontend.User.Permissions.{
  Role, value, set_permissions, request_permission, copr_permissions_applier_change,
  update_permissions,
}
use copr.Frontend.User.Permissions.Level.{level}
use copr.Frontend.User.Permissions.Requests.{
  request_permission-GrantsNone, copr_permissions_applier_change-GrantsNone,
}
use copr.Frontend.User.Permissions.Edits.{set_permissions-ran, update_permissions-ran}

-- One operation that succeeds, with the tables before and after.
pub data Change (table : List Permission) : List Permission → Type 0 where
  requested :
      (copr : Copr) (user : User) (permission : Text) (req_bool : Option Bool)
      {changes : Option (ℕ × ℕ)} {table' : List Permission}
      → request_permission table copr user permission req_bool ≡ value (changes, table')
      → Change table table'
  applied :
      (user : User) (copr : Copr) (builder admin : Bool)
      → Change table (copr_permissions_applier_change table user copr builder admin)
  was_set :
      (request_user : User) (copr : Copr) (user : User) (permission state : Text)
      {changes : Option (ℕ × ℕ)} {table' : List Permission}
      → set_permissions table request_user copr user permission state ≡ value (changes, table')
      → Change table table'
  updated :
      (user : User) (copr : Copr) (permission : Permission) (new_builder new_admin : ℕ)
      {table' : List Permission}
      → update_permissions table user copr permission new_builder new_admin ≡ value table'
      → Change table table'

pub data Changes (table : List Permission) : List Permission → Type 0 where
  unchanged : Changes table table
  later :
      {middle last : List Permission}
      → Changes table middle
      → Change middle last
      → Changes table last

-- The operation is one that sets permissions in the project, by a user who may edit it.
unfoldable pub IsByEditor : ℕ → {t t' : List Permission} → Change t t' → Type 0
IsByEditor c (requested _ _ _ _ _) = ⊥
IsByEditor c (applied _ _ _ _) = ⊥
IsByEditor c {t} (was_set editor copr _ _ _ _) = Editor t editor copr × (copr.id ≡ c)
IsByEditor c {t} (updated editor copr _ _ _ _) = Editor t editor copr × (copr.id ≡ c)

unfoldable pub HasEditor : ℕ → {t t' : List Permission} → Changes t t' → Type 0
unfolding IsByEditor
HasEditor c unchanged = ⊥
HasEditor c (later before last) = HasEditor c before ⊎ IsByEditor c last

by_editor : (A E : Type 0) {id c : ℕ} → E → A ⊎ (id ≡ c) → A ⊎ (E × (id ≡ c))
by_editor A E may (inl a) = inl a
by_editor A E may (inr e) = inr (may, e)

Change-granted :
    {t t' : List Permission} (change : Change t t') (u c : ℕ) (r : Role)
    → level t' u c r ≡ approved
    → (level t u c r ≡ approved) ⊎ IsByEditor c change
unfolding IsByEditor
Change-granted (requested copr user permission req_bool ran) u c r h =
    inl (request_permission-GrantsNone _ copr user permission req_bool ran u c r h)
Change-granted (applied user copr builder admin) u c r h =
    inl (copr_permissions_applier_change-GrantsNone _ user copr builder admin u c r h)
Change-granted {t} (was_set editor copr user permission state ran) u c r h =
    let (may, grants) = set_permissions-ran t editor copr user permission state ran in
    by_editor (level t u c r ≡ approved) (Editor t editor copr) (can_edit-Editor t editor copr may)
      (grants u c r h)
Change-granted {t} (updated editor copr p b a ran) u c r h =
    let (may, grants) = update_permissions-ran t editor copr p b a ran in
    by_editor (level t u c r ≡ approved) (Editor t editor copr) (can_edit-Editor t editor copr may)
      (grants u c r h)

-- However permissions are requested and set, a permission that is approved in the end was approved from
-- the start, or some operation of the run set permissions in that project, for a user who could edit
-- it: a site's admin, the owner, one of the owning group, or one with an approved admin permission, in
-- the table of that moment or, where the user object has kept one under the project's name, as kept.
pub Changes-granted :
    {t t' : List Permission} (changes : Changes t t') (u c : ℕ) (r : Role)
    → level t' u c r ≡ approved
    → (level t u c r ≡ approved) ⊎ HasEditor c changes
unfolding HasEditor
Changes-granted unchanged u c r h = inl h
Changes-granted (later before last) u c r h = elim (Change-granted last u c r h) [
  | inl approved_before ↦ elim (Changes-granted before u c r approved_before) [
    | inl from_start ↦ inl from_start
    | inr edited ↦ inr (inl edited)
  ]
  | inr edited ↦ inr (inr edited)
]
