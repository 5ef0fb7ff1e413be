-- ===== src/Frontend/User.antt =====
-- frontend/coprs_frontend/coprs/models.py, class User: what a user may do in a project. A user object
-- keeps the permissions that it has looked up, by the project's name.
pub mod Cached
pub mod Editors
pub mod Permissions
use copr.Base.{
  ℕ, Option, none, some, List, [], ◌∷◌, Bool, true, false, not, ◌&&◌, ◌||◌, ◌==◌, if◌then◌else◌,
}
use copr.Base.Equality.{Text, text_eq}
use copr.Base.Dict.{Dict, get, put, contains}

-- `group` is the fas_name of the group that owns the project.
pub record Copr : Type 0 where
  pub id : ℕ
  pub name : Text
  pub user_id : ℕ
  pub group : Option Text
  pub persistent : Bool
  pub deleted : Bool
  pub auto_createrepo : Bool
  pub appstream : Bool

-- The row of CoprPermission, with the numbers of `PermissionEnum`.
pub record Permission : Type 0 where
  pub user_id : ℕ
  pub copr_id : ℕ
  pub copr_builder : ℕ
  pub copr_admin : ℕ

pub record User : Type 0 where
  pub id : ℕ
  pub admin : Bool
  pub user_teams : List Text
  pub cached : Dict Text (Option Permission)

-- helpers.py, PermissionEnum("approved")
abbrev pub approved : ℕ
approved = 2

-- CoprPermission.query.filter_by(user=self).filter_by(copr=copr).first()
unfoldable pub first_permission : List Permission → ℕ → ℕ → Option Permission
first_permission [] user_id copr_id = none
first_permission (p ∷ ps) user_id copr_id =
    if p.user_id == user_id && p.copr_id == copr_id
    then some p
    else first_permission ps user_id copr_id

unfoldable pub keep_permission :
    Option (Option Permission) → List Permission → User → Copr → Option Permission × User
unfolding first_permission
keep_permission (some p) table self copr = (p, self)
keep_permission none table self copr =
    let p = first_permission table self.id copr.id in
    (p, record self { cached = put self.cached copr.name p })

unfoldable pub permissions_for_copr : List Permission → User → Copr → Option Permission × User
unfolding keep_permission
permissions_for_copr table self copr = keep_permission (get self.cached copr.name) table self copr

unfoldable pub is_builder : Option Permission → Bool
is_builder none = false
is_builder (some p) = p.copr_builder == approved || p.copr_admin == approved

unfoldable pub is_admin : Option Permission → Bool
is_admin none = false
is_admin (some p) = p.copr_admin == approved

abbrev pub can_build_in_group : User → Text → Bool
can_build_in_group self group = contains self.user_teams group

-- Whether the project is the user's own or that of a group of theirs.
unfoldable pub is_owner : Option Text → User → Copr → Bool
is_owner (some group) self copr = can_build_in_group self group
is_owner none self copr = copr.user_id == self.id

unfoldable pub can_build_in : List Permission → User → Copr → Bool × User
unfolding is_owner is_builder permissions_for_copr
can_build_in table self copr =
    if self.admin
    then (true, self)
    else if is_owner copr.group self copr
    then (true, self)
    else let (p, self') = permissions_for_copr table self copr in (is_builder p, self')

-- With the default `ignore_admin=False`.
unfoldable pub can_edit : List Permission → User → Copr → Bool × User
unfolding is_owner is_admin permissions_for_copr
can_edit table self copr = by_group copr.group
  where
    by_permission : Bool → Bool × User
    by_permission in_group =
        if self.admin
        then (true, self)
        else let (p, self') = permissions_for_copr table self copr in
          (is_admin p || in_group, self')

    by_group : Option Text → Bool × User
    by_group none = if copr.user_id == self.id then (true, self) else by_permission false
    by_group (some group) = by_permission (can_build_in_group self group)
