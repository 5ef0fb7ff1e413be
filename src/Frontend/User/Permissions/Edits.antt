-- ===== src/Frontend/User/Permissions/Edits.antt =====
-- What those who may edit a project set in class CoprPermissionsLogic of
-- frontend/coprs_frontend/coprs/logic/coprs_logic.py: `set_permissions` and `update_permissions`.
use mathlib.Core.Path.{subst}
use copr.Base.{
  ◌≡◌, ◌≢◌, ◌⊎◌, refl, sym, ap, ◌∙◌, ℕ, Option, none, some, List, [], ◌∷◌, true, arith, inl, inr,
  ==_iff, ◌==◌, if_cases, Bool-cases,
}
use copr.Base.Equality.{Text}
use copr.Frontend.User.{Copr, Permission, User, approved, first_permission, can_edit}
use copr.Frontend.User.Permissions.{
  Role, as_admin, as_builder, Outcome, value, set_permission, or_new, put_permission,
  validate_permission, merged, set_valid, set_permissions, update_rows, update_permissions,
}
use copr.Frontend.User.Permissions.Level.{
  level_in, level, is_of, first_permission-put_permission, is_of_ids, first_permission-of,
  value_path,
}

-- What is written is about one project.
abbrev pub GrantsIn : ℕ → List Permission → List Permission → Type 0
GrantsIn id table table' =
    (u c : ℕ) (r : Role) → level table' u c r ≡ approved → (level table u c r ≡ approved) ⊎ (id ≡ c)

merged_copr_id :
    (table : List Permission) (u c : ℕ) (o : Option Permission) (role : Role) (n : ℕ)
    → first_permission table u c ≡ o
    → (set_permission (or_new u c o) role n).copr_id ≡ c
unfolding or_new
merged_copr_id table u c none as_admin n found = refl
merged_copr_id table u c none as_builder n found = refl
merged_copr_id table u c (some p) as_admin n found =
    (is_of_ids p u c (first_permission-of table u c found)).1
merged_copr_id table u c (some p) as_builder n found =
    (is_of_ids p u c (first_permission-of table u c found)).1

put_permission-GrantsIn :
    (table : List Permission) (p : Permission) → GrantsIn p.copr_id table (put_permission table p)
unfolding level
put_permission-GrantsIn table p u c r after =
    if_cases
      (λ (o : Option Permission).
        level_in o r ≡ approved → (level table u c r ≡ approved) ⊎ (p.copr_id ≡ c))
      (is_of p u c) (λ yes h. inr (is_of_ids p u c yes).1) (λ no h. inl h)
      (sym (
          ap (λ (o : Option Permission). level_in o r)
            (first_permission-put_permission table p u c))
        ∙ after)

set_valid-GrantsIn :
    (table : List Permission) (copr : Copr) (user : User) (o : Option (Role × ℕ))
    {changes : Option (ℕ × ℕ)} {table' : List Permission}
    → set_valid table copr user o ≡ value (changes, table')
    → GrantsIn copr.id table table'
unfolding set_valid merged
set_valid-GrantsIn table copr user none ran = absurd cc
set_valid-GrantsIn table copr user (some (role, n)) ran =
    let o = first_permission table user.id copr.id in
    subst (GrantsIn copr.id table)
      (ap (λ (x : Option (ℕ × ℕ) × List Permission). x.1) (value_path ran))
      (subst
        (λ (id : ℕ).
          GrantsIn id table
            (put_permission table (set_permission (or_new user.id copr.id o) role n)))
        (merged_copr_id table user.id copr.id o role n refl)
        (put_permission-GrantsIn table (set_permission (or_new user.id copr.id o) role n)))

first_permission-update_rows :
    (table : List Permission) (id user b a u c : ℕ)
    → id ≢ c
    → first_permission (update_rows table id user b a) u c ≡ first_permission table u c
unfolding first_permission update_rows
first_permission-update_rows [] id user b a u c other = refl
first_permission-update_rows (p ∷ ps) id user b a u c other = ground (
  arith,
  other,
  first_permission-update_rows ps id user b a u c other,
  ==_iff p.copr_id id,
  ==_iff p.user_id user,
  ==_iff p.copr_id c,
  ==_iff p.user_id u,
)

update_rows-GrantsIn :
    (table : List Permission) (id user b a : ℕ) → GrantsIn id table (update_rows table id user b a)
unfolding level
update_rows-GrantsIn table id user b a u c r h = elim (Bool-cases (id == c)) [
  | inl same ↦ inr ((==_iff id c).0 same)
  | inr other ↦ inl (
      sym (
        ap (λ (o : Option Permission). level_in o r)
          (first_permission-update_rows table id user b a u c
            (λ e. ground (arith, e, other, ==_iff id c))))
      ∙ h)
]

pub set_permissions-ran :
    (table : List Permission) (editor : User) (copr : Copr) (user : User) (permission state : Text)
    {changes : Option (ℕ × ℕ)} {table' : List Permission}
    → set_permissions table editor copr user permission state ≡ value (changes, table')
    → ((can_edit table editor copr).0 ≡ true) × GrantsIn copr.id table table'
unfolding set_permissions
set_permissions-ran table editor copr user permission state {changes} {table'} ran =
    if_cases
      (λ (x : Outcome (Option (ℕ × ℕ) × List Permission)).
        x ≡ value (changes, table')
        → ((can_edit table editor copr).0 ≡ true) × GrantsIn copr.id table table')
      (can_edit table editor copr).0
      (λ may e. (
        may,
        set_valid-GrantsIn table copr user (validate_permission user copr permission state) e,
      ))
      (λ no e. absurd cc) ran

pub update_permissions-ran :
    (table : List Permission) (editor : User) (copr : Copr) (p : Permission) (b a : ℕ)
    {table' : List Permission}
    → update_permissions table editor copr p b a ≡ value table'
    → ((can_edit table editor copr).0 ≡ true) × GrantsIn copr.id table table'
unfolding update_permissions
update_permissions-ran table editor copr p b a {table'} ran =
    if_cases
      (λ (x : Outcome (List Permission)).
        x ≡ value table' → ((can_edit table editor copr).0 ≡ true) × GrantsIn copr.id table table')
      (can_edit table editor copr).0
      (λ may e. (
        may,
        subst (GrantsIn copr.id table) (value_path e)
            (update_rows-GrantsIn table copr.id p.user_id b a),
      ))
      (λ no e. absurd cc) ran
