-- ===== src/Chroots.antt =====
-- frontend/coprs_frontend/coprs/models.py, classes MockChroot and CoprChroot: a chroot of a project and
-- how far it is on the way from enabled to deleted. Dates are seconds, and `now` is an argument. A
-- chroot refers to its mock chroot: what is written to a mock chroot is written in all that refer to it.
-- Every other column that an update may write is here; `comps` is the content of `comps_zlib`.
pub mod Edit
pub mod Names
pub mod Mocks
pub mod Outdated
pub mod Commands
pub mod Deleted
pub mod LifeCycle
pub mod Reviewed
pub mod Noticed
pub mod Told
pub mod Reached
pub mod Named
pub mod Extended
pub mod Rows
pub mod Enabling
pub mod Removing
pub mod Loops
pub mod Wanted
pub mod Enabled
use copr.Base.{
  ℕ, ◌+◌, ◌-◌, ◌*◌, Option, none, some, List, [], ◌∷◌, ◌++◌, Bool, true, false, not, ◌&&◌, ◌||◌,
  ltb, leb, if◌then◌else◌,
}
use Prim.Native.Nat.{◌/◌}
use copr.Base.Equality.{Text}
use mathlib.Core.Option.{map}
use copr.Base.Maybe.{◌>>=◌}
use copr.Frontend.User.{Copr}

pub record MockChroot : Type 0 where
  pub id : ℕ
  pub os_release : Text
  pub os_version : Text
  pub arch : Text
  pub is_active : Bool
  pub rolling : Bool
  pub final_prunerepo_done : Bool

abbrev pub dash : ℕ
dash = b'-'

-- MockChroot.name
abbrev pub name : MockChroot → Text
name self = self.os_release ++ dash ∷ self.os_version ++ dash ∷ self.arch

pub record CoprChroot : Type 0 where
  pub id : ℕ
  pub copr : Copr
  pub mock_chroot : MockChroot
  pub buildroot_pkgs : Text
  pub repos : Text
  pub comps_name : Option Text
  pub comps : Option Text
  pub module_toggle : Text
  pub with_opts : Text
  pub without_opts : Text
  pub delete_after : Option ℕ
  pub delete_notify : Option ℕ
  pub bootstrap : Option Text
  pub bootstrap_image : Option Text
  pub isolation : Option Text
  pub deleted : Bool
  pub last_build_timestamp : Option ℕ

-- helpers.py, ChrootDeletionStatus
pub data DeletionStatus : Type 0 where
  active deactivated preserved expired deleted : DeletionStatus

abbrev pub is_set : Option ℕ → Bool
is_set none = false
is_set (some t) = true

-- A column compared to a date in SQL, or in Python once it is known to be set.
abbrev pub before : Option ℕ → ℕ → Bool
before none now = false
before (some t) now = ltb t now

abbrev pub expired_or_preserved : Option ℕ → ℕ → DeletionStatus
expired_or_preserved delete_after now = if before delete_after now then expired else preserved

-- The chroots that were unclicked in the project's settings.
unfoldable pub unclicked_status : ℕ → Option ℕ → DeletionStatus
unclicked_status now delete_after =
    if not (is_set delete_after) then deleted else expired_or_preserved delete_after now

-- Those whose mock chroot is deactivated or marked as EOL.
unfoldable pub inactive_status : ℕ → Option ℕ → Option ℕ → DeletionStatus
inactive_status now delete_after delete_notify =
    if not (is_set delete_after) && not (is_set delete_notify)
    then deactivated
    else if not (is_set delete_notify)
    then preserved
    else if not (is_set delete_after)
    then deleted
    else expired_or_preserved delete_after now

-- `none` is the RuntimeError of the last line.
unfoldable pub active_status : ℕ → Bool → Option ℕ → Option ℕ → Option DeletionStatus
active_status now rolling delete_after delete_notify =
    if not (is_set delete_after) && not (is_set delete_notify)
    then some active
    else if is_set delete_after && rolling
    then some
        (if not (is_set delete_notify) then preserved else expired_or_preserved delete_after now)
    else none

unfoldable pub delete_status : ℕ → CoprChroot → Option DeletionStatus
unfolding unclicked_status inactive_status active_status
delete_status now self =
    if self.deleted
    then some (unclicked_status now self.delete_after)
    else if not self.mock_chroot.is_active
    then some (inactive_status now self.delete_after self.delete_notify)
    else active_status now self.mock_chroot.rolling self.delete_after self.delete_notify

abbrev pub is_expired : DeletionStatus → Bool
is_expired expired = true
is_expired _ = false

abbrev pub is_gone : DeletionStatus → Bool
is_gone expired = true
is_gone deleted = true
is_gone _ = false

abbrev pub is_permissible : DeletionStatus → Bool
is_permissible active = true
is_permissible preserved = true
is_permissible _ = false

unfoldable pub delete_after_expired : ℕ → CoprChroot → Option Bool
unfolding delete_status
delete_after_expired now self = map is_gone (delete_status now self)

abbrev pub day : ℕ
day = 24 * 3600

-- The days of a negative difference are below 0, for which 0 is returned.
abbrev pub days_from : ℕ → Option ℕ → Option ℕ
days_from now none = none
days_from now (some t) = some ((t - now) / day)

unfoldable pub delete_after_days : ℕ → CoprChroot → Option ℕ
delete_after_days now self = days_from now self.delete_after

abbrev pub build_submitted : ℕ → CoprChroot → CoprChroot
build_submitted now self = record self {
  delete_after = none;
  last_build_timestamp = some now;
  delete_notify = none;
}

-- `Copr.enable_permissible_copr_chroots`, of the chroots of a project; `none` is a RuntimeError.
unfoldable pub enable_permissible_copr_chroots : ℕ → List CoprChroot → Option (List CoprChroot)
unfolding delete_status
enable_permissible_copr_chroots now [] = some []
enable_permissible_copr_chroots now (cc ∷ ccs) = delete_status now cc >>= (λ s.
    enable_permissible_copr_chroots now ccs
    >>= (λ rest. some (if is_permissible s then cc ∷ rest else rest)))

unfoldable pub active_copr_chroots : List CoprChroot → List CoprChroot
active_copr_chroots [] = []
active_copr_chroots (c ∷ cs) =
    let rest = active_copr_chroots cs in
    if c.mock_chroot.is_active && not c.deleted then c ∷ rest else rest

-- In the order of the table; the code sorts them by name.
unfoldable pub outdated_chroots : List CoprChroot → List CoprChroot
outdated_chroots [] = []
outdated_chroots (c ∷ cs) =
    let rest = outdated_chroots cs in
    if is_set c.delete_after && not c.deleted then c ∷ rest else rest
