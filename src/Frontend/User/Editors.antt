-- ===== src/Frontend/User/Editors.antt =====
-- Who may edit a project: what `can_edit` of frontend/coprs_frontend/coprs/models.py comes to.
use copr.Base.{
  ◌≡◌, refl, sym, ◌∙◌, Option, none, some, List, true, ◌||◌, arith, ==_iff, Bool-cases,
  Option-cases, inl, inr,
}
use copr.Base.Equality.{Text, text_eq}
use copr.Base.Dict.{get, contains}
use copr.Frontend.User.{
  Copr, Permission, User, approved, first_permission, keep_permission, permissions_for_copr,
  is_admin, is_owner, can_edit,
}

-- Why a user may edit a project. The last two are an approved admin permission: of the table, where the
-- user object has kept none under the project's name, or else the one that it has kept.
pub data Editor (table : List Permission) (self : User) (copr : Copr) : Type 0 where
  site_admin : self.admin ≡ true → Editor table self copr
  owner : copr.group ≡ none → copr.user_id ≡ self.id → Editor table self copr
  team :
      (g : Text) → copr.group ≡ some g → contains self.user_teams g ≡ true → Editor table self copr
  by_table :
      (p : Permission)
      → get self.cached copr.name ≡ none
      → first_permission table self.id copr.id ≡ some p
      → p.copr_admin ≡ approved
      → Editor table self copr
  by_kept :
      (p : Permission)
      → get self.cached copr.name ≡ some (some p)
      → p.copr_admin ≡ approved
      → Editor table self copr

can_edit_lem :
    (table : List Permission) (self : User) (copr : Copr)
    → (can_edit table self copr).0 ≡ (
        self.admin
        || (is_owner copr.group self copr || is_admin (permissions_for_copr table self copr).0))
unfolding can_edit is_owner
can_edit_lem table self copr = elim (Option-cases copr.group) [
  | inl e ↦ simp e (ground arith)
  | inr (g, e) ↦ simp e (ground arith)
]

owner-Editor :
    (table : List Permission) (self : User) (copr : Copr)
    → is_owner copr.group self copr ≡ true
    → Editor table self copr
unfolding is_owner
owner-Editor table self copr h = elim (Option-cases copr.group) [
  | inl e ↦ owner e ((==_iff copr.user_id self.id).0 (sym (simp e refl) ∙ h))
  | inr (g, e) ↦ team g e (sym (simp e refl) ∙ h)
]

is_admin-row :
    (o : Option Permission)
    → is_admin o ≡ true
    → (p : Permission) × (o ≡ some p) × (p.copr_admin ≡ approved)
unfolding is_admin
is_admin-row none h = ground (arith, h)
is_admin-row (some p) h = (p, refl, (==_iff p.copr_admin approved).0 h)

permission-Editor :
    (table : List Permission) (self : User) (copr : Copr)
    → is_admin (permissions_for_copr table self copr).0 ≡ true
    → Editor table self copr
unfolding permissions_for_copr keep_permission
permission-Editor table self copr h = elim (Option-cases (get self.cached copr.name)) [
  | inl e ↦
      let (p, found, high) =
        is_admin-row (first_permission table self.id copr.id) (sym (simp e refl) ∙ h) in
      by_table p e found high
  | inr (o, e) ↦
      let (p, kept, high) = is_admin-row o (sym (simp e refl) ∙ h) in
      by_kept p (e ∙ rw kept refl) high
]

pub can_edit-Editor :
    (table : List Permission) (self : User) (copr : Copr)
    → (can_edit table self copr).0 ≡ true
    → Editor table self copr
can_edit-Editor table self copr h =
    let test = sym (can_edit_lem table self copr) ∙ h in
    elim (Bool-cases self.admin) [
      | inl chief ↦ site_admin chief
      | inr lay ↦ elim (Bool-cases (is_owner copr.group self copr)) [
        | inl own ↦ owner-Editor table self copr own
        | inr other ↦ permission-Editor table self copr (ground (arith, test, lay, other))
      ]
    ]
