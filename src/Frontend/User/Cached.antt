-- ===== src/Frontend/User/Cached.antt =====
-- What the permissions that a user object keeps by project name do to `can_build_in` of
-- frontend/coprs_frontend/coprs/models.py.
use mathlib.Core.Path.{subst}
use copr.Base.{
  ◌∙◌, if_ind, ◌≡◌, refl, sym, ap, Option, none, some, List, Bool, ◌||◌, if_cases, Bool-cases, inl,
  inr,
}
use copr.Base.Equality.{Text, text_eq, beq, beq_iff}
use copr.Base.Dict.{Dict, get, put, get-put}
use copr.Frontend.User.{
  Copr, Permission, User, first_permission, keep_permission, permissions_for_copr, is_builder,
  is_owner, can_build_in,
}

-- Whether the user may build in the project, by the table alone.
unfoldable pub may_build : List Permission → User → Copr → Bool
may_build table self copr =
    self.admin
    || (is_owner copr.group self copr || is_builder (first_permission table self.id copr.id))

-- What the user object keeps under the project's name, if anything, is the project's permission.
pub data IsKept (table : List Permission) (self : User) (copr : Copr) : Type 0 where
  unknown_yet : get self.cached copr.name ≡ none → IsKept table self copr
  known :
      get self.cached copr.name ≡ some (first_permission table self.id copr.id)
      → IsKept table self copr

permissions_for_copr_lem :
    (table : List Permission) (self : User) (copr : Copr)
    → IsKept table self copr
    → (permissions_for_copr table self copr).0 ≡ first_permission table self.id copr.id
unfolding permissions_for_copr keep_permission
permissions_for_copr_lem table self copr (unknown_yet h) = simp h
permissions_for_copr_lem table self copr (known h) = simp h

-- If what the user object keeps under the project's name, if anything, is the project's permission,
-- `can_build_in` answers by the table alone.
pub can_build_in-may_build :
    (table : List Permission) (self : User) (copr : Copr)
    → IsKept table self copr
    → (can_build_in table self copr).0 ≡ may_build table self copr
unfolding can_build_in may_build
can_build_in-may_build table self copr kept =
    if_cases (λ (r : Bool × User). r.0 ≡ may_build table self copr) self.admin (λ yes. simp yes)
      (λ no.
        if_cases (λ (r : Bool × User). r.0 ≡ may_build table self copr)
          (is_owner copr.group self copr) (λ own. simp (no, own))
          (λ other. simp (no, other, permissions_for_copr_lem table self copr kept)))

-- Once the permission of one project was looked up, with none kept under its name before, any project of the same name, of whatever
-- owner, is answered with that permission.
pub permissions_for_copr_same_name :
    (table : List Permission) (self : User) (copr other : Copr)
    → get self.cached copr.name ≡ none
    → copr.name ≡ other.name
    → (permissions_for_copr table (permissions_for_copr table self copr).1 other).0
      ≡ first_permission table self.id copr.id
unfolding permissions_for_copr keep_permission
permissions_for_copr_same_name table self copr other fresh same =
    let p = first_permission table self.id copr.id in
    let there : get (put self.cached copr.name p) other.name ≡ some p =
      get-put self.cached copr.name p other.name
      ∙ rw ((beq_iff copr.name other.name).1 same) refl in
    simp (fresh, there)

-- Looking up one project's permission leaves what is kept for another right, if projects of the same
-- name are the same project.
keep-IsKept :
    (table : List Permission) (self : User) (copr other : Copr)
    → (copr.name ≡ other.name → copr ≡ other)
    → IsKept table self copr
    → IsKept table self other
    → IsKept table (permissions_for_copr table self copr).1 other
unfolding permissions_for_copr keep_permission
keep-IsKept table self copr other one (known h) kept = simp h kept
keep-IsKept table self copr other one (unknown_yet h) kept =
    let p = first_permission table self.id copr.id in
    let found = get-put self.cached copr.name p other.name in
    let goal = λ (r : Option Permission × User). IsKept table r.1 other in
    subst (λ o. goal (keep_permission o table self copr)) (sym h)
      (elim (Bool-cases (beq copr.name other.name)) [
        | inl eq ↦
            let one' = one ((beq_iff copr.name other.name).0 eq) in
            known
              (found ∙ rw eq (ap (λ (c : Copr). some (first_permission table self.id c.id)) one'))
        | inr ne ↦ elim kept [
          | unknown_yet k ↦ unknown_yet (found ∙ rw ne k)
          | known k ↦ known (found ∙ rw ne k)
        ]
      ])

pub can_build_in-IsKept :
    (table : List Permission) (self : User) (copr other : Copr)
    → (copr.name ≡ other.name → copr ≡ other)
    → IsKept table self copr
    → IsKept table self other
    → IsKept table (can_build_in table self copr).1 other
unfolding can_build_in
can_build_in-IsKept table self copr other one mine kept =
    let P = λ (r : Bool × User). IsKept table r.1 other in
    if_ind P self.admin kept (
      if_ind P (is_owner copr.group self copr) kept
        (keep-IsKept table self copr other one mine kept))

is_owner_cached :
    (o : Option Text) (self : User) (c : Dict Text (Option Permission)) (d : Copr)
    → is_owner o (record self { cached = c }) d ≡ is_owner o self d
unfolding is_owner
is_owner_cached none self c d = refl
is_owner_cached (some group) self c d = refl

keep_permission_same_user :
    (o : Option (Option Permission)) (table : List Permission) (self : User) (c d : Copr)
    → may_build table (keep_permission o table self c).1 d ≡ may_build table self d
unfolding keep_permission may_build
keep_permission_same_user (some p) table self c d = refl
keep_permission_same_user none table self c d =
    rw
      (is_owner_cached d.group self (put self.cached c.name (first_permission table self.id c.id))
        d)
      refl

-- What a user may do does not depend on what was looked up.
pub can_build_in_same_user :
    (table : List Permission) (self : User) (c d : Copr)
    → may_build table (can_build_in table self c).1 d ≡ may_build table self d
unfolding can_build_in permissions_for_copr
can_build_in_same_user table self c d =
    let P = λ (r : Bool × User). may_build table r.1 d ≡ may_build table self d in
    if_ind P self.admin refl (
      if_ind P (is_owner c.group self c) refl
        (keep_permission_same_user (get self.cached c.name) table self c d))
