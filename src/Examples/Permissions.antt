-- ===== src/Examples/Permissions.antt =====
-- CoprPermissionsLogic of frontend/coprs_frontend/coprs/logic/coprs_logic.py at concrete inputs.
use copr.Base.{ℕ, ◌≡◌, ◌⊎◌, refl, some, List, [], ◌∷◌, true, false}
use copr.Base.Equality.{codes, text_beq}
use copr.Frontend.User.{User, Permission, approved, first_permission, can_edit}
use copr.Frontend.User.Permissions.{
  as_builder, request_permission, request_valid, set_permissions, set_valid, validate_permission,
  valid_state, not_owner, role_of, state_of, merged, or_new, put_permission, changed,
}
use copr.Frontend.User.Permissions.Level.{level, level_in}
use copr.Frontend.User.Permissions.Granted.{
  Changes, unchanged, later, requested, was_set, HasEditor, Changes-granted,
}
use copr.Examples.Frontend.{jane, janes}

abbrev joe : User
joe = record { id = 2; admin = false; user_teams = []; cached = [] }

abbrev joes : ℕ → List Permission
joes n = record { user_id = 2; copr_id = 5; copr_builder = n; copr_admin = 0 } ∷ []

-- Joe asks to be a builder of the project of Jane, who approves it.
abbrev asked_and_approved : Changes [] (joes 2)
unfolding request_permission request_valid set_permissions set_valid validate_permission valid_state
    not_owner role_of state_of merged or_new put_permission changed first_permission can_edit
    text_beq
asked_and_approved =
    later {middle = joes 1}
      (later unchanged
        (requested janes joe (codes "builder") (some true) {changes = some (0, 1)} refl))
      (was_set jane janes joe (codes "builder") (codes "approved") {changes = some (1, 2)} refl)

Changes-granted_example : (level [] 2 5 as_builder ≡ approved) ⊎ HasEditor 5 asked_and_approved
unfolding level level_in first_permission
Changes-granted_example = Changes-granted asked_and_approved 2 5 as_builder refl
