-- ===== src/Frontend/Build.antt =====
-- frontend/coprs_frontend/coprs/models.py: the states of Build and BuildChroot.
-- `source_status` is not nullable, so the case of `source_state` for None cannot be. A Python
-- property that gives a number of `StatusEnum` gives its name here, with None as `none`.
pub mod Outcome
use copr.Base.{
  ℕ, Option, none, some, List, [], ◌∷◌, Bool, true, false, not, ◌&&◌, ◌||◌, ◌==◌, if◌then◌else◌,
  map,
}
use copr.Base.Equality.{Text, beq}
use copr.Base.Dict.{contains}
use copr.Frontend.User.{Copr}
use copr.Frontend.Status.{
  Status, status_eq, failed, succeeded, canceled, running, pending, skipped, starting, importing,
  forked, waiting, finished_states,
}

-- The parts of a chroot that the properties read and that the updates of a build write.
pub record BuildChroot : Type 0 where
  pub name : Text
  pub name_release : Text
  pub arch : Text
  pub status : Option Status
  pub status_reason : Text
  pub started_on : Option ℕ
  pub ended_on : Option ℕ
  pub result_dir : Text

pub record Build : Type 0 where
  pub id : ℕ
  pub canceled_flag : Bool
  pub source_status : Status
  pub fail_type : ℕ
  pub source_is_uploaded : Bool
  pub copr : Copr
  pub result_dir : Text
  pub built_packages : Text
  pub srpm_url : Text
  pub pkg_version : Text
  pub build_chroots : List BuildChroot

-- common/copr_common/enums.py, FailTypeEnum.
abbrev pub srpm_import_failed : ℕ
srpm_import_failed = 3

abbrev pub chroot_states : Build → List (Option Status)
chroot_states self = map (λ chroot. chroot.status) self.build_chroots

-- StatusEnum(state) in self.chroot_states
unfoldable pub has_state : List (Option Status) → Status → Bool
has_state [] state = false
has_state (none ∷ states) state = has_state states state
has_state (some s ∷ states) state = beq s state || has_state states state

-- for state in order: if StatusEnum(state) in self.chroot_states: return StatusEnum(state)
unfoldable pub first_state : List Status → List (Option Status) → Option Status
unfolding has_state
first_state [] states = none
first_state (state ∷ order) states =
    if has_state states state then some state else first_state order states

abbrev pub use_src_states : List Status
use_src_states = starting ∷ pending ∷ running ∷ importing ∷ failed ∷ []

abbrev pub state_order : List Status
state_order = running ∷ starting ∷ pending ∷ failed ∷ succeeded ∷ skipped ∷ forked ∷ []

unfoldable pub or_pending : List (Option Status) → Option Status → Option Status
unfolding has_state
or_pending states (some state) = some state
or_pending states none = if has_state states waiting then some pending else none

unfoldable pub status_of_chroots : List (Option Status) → Option Status
unfolding first_state or_pending
status_of_chroots [] = some waiting
status_of_chroots (s ∷ states) = or_pending (s ∷ states) (first_state state_order (s ∷ states))

unfoldable pub status : Build → Option Status
unfolding status_of_chroots
status self =
    if self.canceled_flag
    then some canceled
    else if contains use_src_states self.source_status
    then some self.source_status
    else status_of_chroots (chroot_states self)

unfoldable pub repeatable : Build → Bool
repeatable self =
    beq self.source_status succeeded
    || (beq self.source_status failed
        && self.fail_type == srpm_import_failed
        && not self.source_is_uploaded)

unfoldable pub finished_early : Build → Bool
finished_early self = self.canceled_flag || contains (failed ∷ canceled ∷ []) self.source_status

-- self.state in helpers.FINISHED_STATES; "unknown", for None, is not among them.
unfoldable pub is_finished_state : Option Status → Bool
is_finished_state none = false
is_finished_state (some s) = contains finished_states s

-- BuildChroot.finished
unfoldable pub chroot_finished : Build → BuildChroot → Bool
unfolding finished_early is_finished_state
chroot_finished build self = finished_early build || is_finished_state self.status

unfoldable pub all_finished : Build → List BuildChroot → Bool
unfolding chroot_finished
all_finished build [] = true
all_finished build (chroot ∷ chroots) = chroot_finished build chroot && all_finished build chroots

unfoldable pub finished_chroots : Build → List BuildChroot → Bool
unfolding all_finished
finished_chroots self [] = contains finished_states self.source_status
finished_chroots self (chroot ∷ chroots) = all_finished self (chroot ∷ chroots)

unfoldable pub finished : Build → Bool
unfolding finished_chroots finished_early
finished self = finished_early self || finished_chroots self self.build_chroots

unfoldable pub cancelable : Build → Bool
unfolding finished
cancelable self = not (finished self)
