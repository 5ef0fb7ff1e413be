-- ===== src/Frontend/User/Permissions/Level.antt =====
-- The permissions that the table of class CoprPermissionsLogic of
-- frontend/coprs_frontend/coprs/logic/coprs_logic.py says a user has in a project.
use mathlib.Core.Path.{subst}
use copr.Base.{
  ◌≡◌, refl, sym, ap, ◌∙◌, ℕ, Option, none, some, List, [], ◌∷◌, Bool, true, arith, ==_iff, ◌&&◌,
  ◌==◌, if◌then◌else◌, if_cases,
}
use copr.Base.Maybe.{some_path}
use copr.Frontend.User.{Permission, approved, first_permission}
use copr.Frontend.User.Permissions.{Role, value, nothing, get_permission, put_permission}

-- What the table says of a user's permission in a project.
unfoldable pub level_in : Option Permission → Role → ℕ
level_in none r = nothing
level_in (some p) r = get_permission p r

unfoldable pub level : List Permission → ℕ → ℕ → Role → ℕ
unfolding level_in
level table u c r = level_in (first_permission table u c) r

abbrev pub is_of : Permission → ℕ → ℕ → Bool
is_of p u c = p.user_id == u && p.copr_id == c

pub first_permission-put_permission :
    (table : List Permission) (p : Permission) (u c : ℕ)
    → first_permission (put_permission table p) u c
      ≡ (if is_of p u c then some p else first_permission table u c)
unfolding first_permission put_permission
first_permission-put_permission [] p u c = refl
first_permission-put_permission (q ∷ qs) p u c = ground (
  arith,
  first_permission-put_permission qs p u c,
  ==_iff q.user_id p.user_id,
  ==_iff q.copr_id p.copr_id,
  ==_iff q.user_id u,
  ==_iff q.copr_id c,
  ==_iff p.user_id u,
  ==_iff p.copr_id c,
)

pub is_of_ids : (p : Permission) (u c : ℕ) → is_of p u c ≡ true → (p.user_id ≡ u) × (p.copr_id ≡ c)
is_of_ids p u c h = (
  ground (arith, h, ==_iff p.user_id u),
  ground (arith, h, ==_iff p.user_id u, ==_iff p.copr_id c),
)

-- A row that is found is one of the user and the project.
pub first_permission-of :
    (table : List Permission) (u c : ℕ) {p : Permission}
    → first_permission table u c ≡ some p
    → is_of p u c ≡ true
unfolding first_permission
first_permission-of [] u c found = ground (arith, found)
first_permission-of (q ∷ qs) u c {p} found =
    if_cases (λ (o : Option Permission). o ≡ some p → is_of p u c ≡ true) (is_of q u c)
      (λ yes e. subst (λ (x : Permission). is_of x u c ≡ true) (some_path e) yes)
      (λ no e. first_permission-of qs u c e) found

-- A row that is written with no approval that its key lacked changes no level to approved.
pub level-put_permission :
    (table : List Permission) (p : Permission)
    → ((r : Role) → get_permission p r ≡ approved → level table p.user_id p.copr_id r ≡ approved)
    → (u c : ℕ) (r : Role) → level (put_permission table p) u c r ≡ approved
    → level table u c r ≡ approved
unfolding level level_in
level-put_permission table p keeps u c r after =
    if_cases (λ (o : Option Permission). level_in o r ≡ approved → level table u c r ≡ approved)
      (is_of p u c)
      (λ yes same. rw (sym (is_of_ids p u c yes).0, sym (is_of_ids p u c yes).1) (keeps r same))
      (λ no h. h)
      (sym (
          ap (λ (o : Option Permission). level_in o r)
            (first_permission-put_permission table p u c))
        ∙ after)

pub level-found :
    (table : List Permission) (u c : ℕ) {p : Permission} (r : Role)
    → first_permission table u c ≡ some p
    → level table p.user_id p.copr_id r ≡ get_permission p r
unfolding level level_in
level-found table u c {p} r found =
    let (user, project) = is_of_ids p u c (first_permission-of table u c found) in
    rw (user, project, found) refl

pub value_path : {A : Type 0} {a b : A} → value a ≡ value b → a ≡ b
value_path h = cc
