-- ===== src/Frontend/User/Permissions/Requests.antt =====
-- What users ask for in class CoprPermissionsLogic of
-- frontend/coprs_frontend/coprs/logic/coprs_logic.py: `request_permission` and
-- `update_permissions_by_applier`.
use mathlib.Core.Path.{subst}
use copr.Base.{
  ◌≡◌, ◌≢◌, refl, ap, ◌∙◌, ℕ, Option, none, some, List, Bool, true, false, arith, ==_iff, ◌&&◌,
  ◌==◌, if_cases,
}
use copr.Base.Equality.{Text, codes, text_beq}
use copr.Base.Maybe.{some_path}
use copr.Frontend.User.{Copr, Permission, User, approved, first_permission}
use copr.Frontend.User.Permissions.{
  Role, as_admin, as_builder, Outcome, value, request, get_permission, set_permission, or_new,
  role_of, state_of, not_owner, valid_state, validate_permission, merged, request_valid,
  request_permission, preserved, apply_to, update_permissions_by_applier, permission_number,
  copr_permissions_applier_change,
}
use copr.Frontend.User.Permissions.Level.{level, level-put_permission, level-found, value_path}

-- Setting one permission to anything but approved.
merged-keeps :
    (table : List Permission) (u c : ℕ) (o : Option Permission) (role : Role) (n : ℕ)
    → first_permission table u c ≡ o
    → n ≢ approved
    → (r : Role) → get_permission (set_permission (or_new u c o) role n) r ≡ approved
    → level table
        (set_permission (or_new u c o) role n).user_id
        (set_permission (or_new u c o) role n).copr_id
        r
      ≡ approved
unfolding or_new
merged-keeps table u c none as_admin n found low as_admin h = absurd (low h)
merged-keeps table u c none as_admin n found low as_builder h = ground (arith, h)
merged-keeps table u c none as_builder n found low as_admin h = ground (arith, h)
merged-keeps table u c none as_builder n found low as_builder h = absurd (low h)
merged-keeps table u c (some p) as_admin n found low as_admin h = absurd (low h)
merged-keeps table u c (some p) as_admin n found low as_builder h =
    level-found table u c as_builder found ∙ h
merged-keeps table u c (some p) as_builder n found low as_admin h =
    level-found table u c as_admin found ∙ h
merged-keeps table u c (some p) as_builder n found low as_builder h = absurd (low h)

preserved-approved : (old new : ℕ) → new ≢ approved → preserved old new ≡ approved → old ≡ approved
unfolding preserved
preserved-approved old new low h = ground (arith, h, low, ==_iff new 0, ==_iff old approved)

apply_to-keeps :
    (table : List Permission) (user : User) (copr : Copr) (o : Option Permission) (b a : ℕ)
    → first_permission table user.id copr.id ≡ o
    → b ≢ approved
    → a ≢ approved
    → (u c : ℕ) (r : Role) → level (apply_to table user copr o b a) u c r ≡ approved
    → level table u c r ≡ approved
unfolding apply_to
apply_to-keeps table user copr none b a found low_b low_a u c r h =
    level-put_permission table
      (record { user_id = user.id; copr_id = copr.id; copr_builder = b; copr_admin = a })
      (elim [ as_admin ↦ λ e. absurd (low_a e) | as_builder ↦ λ e. absurd (low_b e) ]) u c r h
apply_to-keeps table user copr (some p) b a found low_b low_a u c r h =
    level-put_permission table
      (record p {
        copr_builder = preserved p.copr_builder b;
        copr_admin = preserved p.copr_admin a;
      })
      (elim [
        | as_admin ↦ λ e.
            level-found table user.id copr.id as_admin found
            ∙ preserved-approved p.copr_admin a low_a e
        | as_builder ↦ λ e.
            level-found table user.id copr.id as_builder found
            ∙ preserved-approved p.copr_builder b low_b e
      ])
      u c r h

-- What comes out of a request or a form of the user grants nothing.
abbrev pub GrantsNone : List Permission → List Permission → Type 0
GrantsNone table table' =
    (u c : ℕ) (r : Role) → level table' u c r ≡ approved → level table u c r ≡ approved

not_owner-state :
    (user : User) (copr : Copr) (role r : Role) (n m : ℕ)
    → not_owner user copr role (some m) ≡ some (r, n)
    → m ≡ n
unfolding not_owner
not_owner-state user copr role r n m h =
    if_cases (λ (x : Option (Role × ℕ)). x ≡ some (r, n) → m ≡ n) (user.id == copr.user_id)
      (λ yes e. absurd cc) (λ no e. ap (λ (x : Role × ℕ). x.1) (some_path e)) h

valid_state-state :
    (user : User) (copr : Copr) (state : Text) (o : Option Role) (m n : ℕ) (r : Role)
    → state_of state ≡ some m
    → valid_state user copr state o ≡ some (r, n)
    → m ≡ n
unfolding valid_state
valid_state-state user copr state none m n r known h = absurd cc
valid_state-state user copr state (some role) m n r known h =
    not_owner-state user copr role r n m
      (subst (λ (s : Option ℕ). not_owner user copr role s ≡ some (r, n)) known h)

validate_permission-state :
    (user : User) (copr : Copr) (permission state : Text) (m n : ℕ) (r : Role)
    → state_of state ≡ some m
    → validate_permission user copr permission state ≡ some (r, n)
    → m ≡ n
unfolding validate_permission
validate_permission-state user copr permission state m n r known h =
    valid_state-state user copr state (role_of permission) m n r known h

request_valid-GrantsNone :
    (table : List Permission) (copr : Copr) (user : User) (o : Option (Role × ℕ))
    → ((r : Role) (n : ℕ) → o ≡ some (r, n) → n ≢ approved)
    → {changes : Option (ℕ × ℕ)} {table' : List Permission}
    → request_valid table copr user o ≡ value (changes, table')
    → GrantsNone table table'
unfolding request_valid merged
request_valid-GrantsNone table copr user none low ran = absurd cc
request_valid-GrantsNone table copr user (some (role, n)) low {changes} {table'} ran =
    let u = user.id in
    let c = copr.id in
    let o = first_permission table u c in
    if_cases
      (λ (x : Outcome (Option (ℕ × ℕ) × List Permission)).
        x ≡ value (changes, table') → GrantsNone table table')
      (get_permission (or_new u c o) role == approved && n == request) (λ yes e. absurd cc)
      (λ no e.
        subst (GrantsNone table) (ap (λ (x : Option (ℕ × ℕ) × List Permission). x.1) (value_path e))
          (level-put_permission table (set_permission (or_new u c o) role n)
            (merged-keeps table u c o role n refl (low role n refl))))
      ran

pub request_permission-GrantsNone :
    (table : List Permission) (copr : Copr) (user : User) (permission : Text)
    (req_bool : Option Bool) {changes : Option (ℕ × ℕ)} {table' : List Permission}
    → request_permission table copr user permission req_bool ≡ value (changes, table')
    → GrantsNone table table'
unfolding request_permission state_of text_beq
request_permission-GrantsNone table copr user permission none ran = absurd cc
request_permission-GrantsNone table copr user permission (some true) ran =
    request_valid-GrantsNone table copr user
      (validate_permission user copr permission (codes "request"))
      (λ r n e high. ground (
        arith,
        high,
        validate_permission-state user copr permission (codes "request") 1 n r refl e,
      ))
      ran
request_permission-GrantsNone table copr user permission (some false) ran =
    request_valid-GrantsNone table copr user
      (validate_permission user copr permission (codes "nothing"))
      (λ r n e high. ground (
        arith,
        high,
        validate_permission-state user copr permission (codes "nothing") 0 n r refl e,
      ))
      ran

permission_number_low : (ticked : Bool) → permission_number ticked ≢ approved
permission_number_low true h = ground (arith, h)
permission_number_low false h = ground (arith, h)

pub copr_permissions_applier_change-GrantsNone :
    (table : List Permission) (user : User) (copr : Copr) (builder admin : Bool)
    → GrantsNone table (copr_permissions_applier_change table user copr builder admin)
unfolding copr_permissions_applier_change update_permissions_by_applier
copr_permissions_applier_change-GrantsNone table user copr builder admin =
    if_cases (GrantsNone table) (copr.user_id == user.id) (λ yes u c r h. h)
      (λ no.
        apply_to-keeps table user copr (first_permission table user.id copr.id)
          (permission_number builder) (permission_number admin) refl (permission_number_low builder)
          (permission_number_low admin))
