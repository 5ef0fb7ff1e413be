-- ===== src/Frontend/User/Permissions.antt =====
-- frontend/coprs_frontend/coprs/logic/coprs_logic.py, class CoprPermissionsLogic, with the columns of
-- CoprPermission of coprs/models.py and the handler of a user's form of
-- coprs/views/coprs_ns/coprs_general.py. The table has one row for a user and a project; an exception
-- rolls the request's changes back.
pub mod Level
pub mod Requests
pub mod Edits
pub mod Granted
use copr.Base.{
  ℕ, Option, none, some, List, [], ◌∷◌, Bool, true, false, not, ◌&&◌, ◌||◌, ◌==◌, if◌then◌else◌,
}
use copr.Base.Equality.{Text, codes, beq, text_eq}
use copr.Frontend.User.{Copr, Permission, User, approved, first_permission, can_edit}

-- The names of permissions that `get_permission` and `set_permission` know.
pub data Role : Type 0 where
  as_admin : Role
  as_builder : Role

pub data Outcome {ℓ} (A : Type ℓ) : Type ℓ where
  value : A → Outcome A
  bad_request : Outcome A
  insufficient_rights : Outcome A

-- helpers.py, PermissionEnum("nothing") and PermissionEnum("request")
abbrev pub nothing : ℕ
nothing = 0

abbrev pub request : ℕ
request = 1

abbrev pub get_permission : Permission → Role → ℕ
get_permission self as_admin = self.copr_admin
get_permission self as_builder = self.copr_builder

abbrev pub set_permission : Permission → Role → ℕ → Permission
set_permission self as_admin n = record self { copr_admin = n }
set_permission self as_builder n = record self { copr_builder = n }

-- models.CoprPermission(user_id=user.id, copr_id=copr.id), merged: the row there is, or a new one.
unfoldable pub or_new : ℕ → ℕ → Option Permission → Permission
or_new user_id copr_id (some p) = p
or_new user_id copr_id none = record {
  user_id = user_id;
  copr_id = copr_id;
  copr_builder = nothing;
  copr_admin = nothing;
}

-- The flush: the row is written over the one of its key, or added.
unfoldable pub put_permission : List Permission → Permission → List Permission
put_permission [] p = p ∷ []
put_permission (q ∷ qs) p =
    let rest = put_permission qs p in
    if q.user_id == p.user_id && q.copr_id == p.copr_id then p ∷ qs else q ∷ rest

unfoldable pub role_of : Text → Option Role
role_of permission =
    if beq permission (codes "admin")
    then some as_admin
    else if beq permission (codes "builder")
    then some as_builder
    else none

-- PermissionEnum.vals
unfoldable pub state_of : Text → Option ℕ
state_of state =
    if beq state (codes "nothing")
    then some nothing
    else if beq state (codes "request")
    then some request
    else if beq state (codes "approved")
    then some approved
    else none

unfoldable pub not_owner : User → Copr → Role → Option ℕ → Option (Role × ℕ)
not_owner user copr role none = none
not_owner user copr role (some n) = if user.id == copr.user_id then none else some (role, n)

unfoldable pub valid_state : User → Copr → Text → Option Role → Option (Role × ℕ)
unfolding not_owner state_of
valid_state user copr state none = none
valid_state user copr state (some role) = not_owner user copr role (state_of state)

-- What the two texts mean, or `none` for the BadRequest.
unfoldable pub validate_permission : User → Copr → Text → Text → Option (Role × ℕ)
unfolding valid_state role_of
validate_permission user copr permission state = valid_state user copr state (role_of permission)

-- The old and the new state, if they differ.
unfoldable pub changed : ℕ → ℕ → Option (ℕ × ℕ)
changed old_state new_state = if old_state == new_state then none else some (old_state, new_state)

unfoldable pub merged : List Permission → User → Copr → Permission
unfolding or_new
merged table user copr = or_new user.id copr.id (first_permission table user.id copr.id)

unfoldable pub set_valid :
    List Permission → Copr → User → Option (Role × ℕ) → Outcome (Option (ℕ × ℕ) × List Permission)
unfolding changed merged
set_valid table copr user none = bad_request
set_valid table copr user (some (role, n)) =
    let perm_o = merged table user copr in
    value
      (changed (get_permission perm_o role) n, put_permission table (set_permission perm_o role n))

unfoldable pub set_permissions :
    List Permission → User → Copr → User → Text → Text → Outcome (Option (ℕ × ℕ) × List Permission)
unfolding set_valid
set_permissions table request_user copr user permission state =
    if (can_edit table request_user copr).0
    then set_valid table copr user (validate_permission user copr permission state)
    else insufficient_rights

unfoldable pub request_valid :
    List Permission → Copr → User → Option (Role × ℕ) → Outcome (Option (ℕ × ℕ) × List Permission)
unfolding changed merged
request_valid table copr user none = bad_request
request_valid table copr user (some (role, n)) =
    let perm_o = merged table user copr in
    if get_permission perm_o role == approved && n == request
    then bad_request
    else value (
      changed (get_permission perm_o role) n,
      put_permission table (set_permission perm_o role n),
    )

-- `req_bool` is `none` for what is neither True nor False.
unfoldable pub request_permission :
    List Permission → Copr → User → Text → Option Bool → Outcome (Option (ℕ × ℕ) × List Permission)
unfolding request_valid
request_permission table copr user permission none = bad_request
request_permission table copr user permission (some req_bool) = request_valid table copr user (
    validate_permission user copr permission
      (if req_bool then codes "request" else codes "nothing"))

-- The two tests of the rows that are there: an approved permission is kept, unless it is given up.
unfoldable pub preserved : ℕ → ℕ → ℕ
preserved old new = if new == 0 || not (old == approved) then new else old

unfoldable pub apply_to :
    List Permission → User → Copr → Option Permission → ℕ → ℕ → List Permission
unfolding preserved
apply_to table user copr (some p) new_builder new_admin = put_permission table (record p {
  copr_builder = preserved p.copr_builder new_builder;
  copr_admin = preserved p.copr_admin new_admin;
})
apply_to table user copr none new_builder new_admin = put_permission table (record {
  user_id = user.id;
  copr_id = copr.id;
  copr_builder = new_builder;
  copr_admin = new_admin;
})

-- The permission is the one of the table, as the caller finds it.
unfoldable pub update_permissions_by_applier :
    List Permission → User → Copr → ℕ → ℕ → List Permission
unfolding apply_to
update_permissions_by_applier table user copr new_builder new_admin =
    apply_to table user copr (first_permission table user.id copr.id) new_builder new_admin

-- forms.py, ValueToPermissionNumberFilter
abbrev pub permission_number : Bool → ℕ
permission_number ticked = if ticked then request else nothing

-- The boxes of a form that validates.
unfoldable pub copr_permissions_applier_change :
    List Permission → User → Copr → Bool → Bool → List Permission
unfolding update_permissions_by_applier
copr_permissions_applier_change table user copr builder admin =
    if copr.user_id == user.id
    then table
    else update_permissions_by_applier table user copr (permission_number builder)
        (permission_number admin)

unfoldable pub update_rows : List Permission → ℕ → ℕ → ℕ → ℕ → List Permission
update_rows [] copr_id user_id new_builder new_admin = []
update_rows (p ∷ ps) copr_id user_id new_builder new_admin =
    (if p.copr_id == copr_id && p.user_id == user_id
      then record p { copr_builder = new_builder; copr_admin = new_admin }
      else p)
    ∷ update_rows ps copr_id user_id new_builder new_admin

unfoldable pub update_permissions :
    List Permission → User → Copr → Permission → ℕ → ℕ → Outcome (List Permission)
unfolding update_rows
update_permissions table user copr copr_permission new_builder new_admin =
    if (can_edit table user copr).0
    then value (update_rows table copr.id copr_permission.user_id new_builder new_admin)
    else insufficient_rights
