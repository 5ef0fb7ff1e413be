-- ===== src/Frontend/Backend.antt =====
-- frontend/coprs_frontend/coprs/views/backend_ns/backend_general.py: what the frontend answers to the
-- backend. A request's data and the rows that a query gives are arguments; an answer is what is put
-- into the response, with the rows that were written. `none` is an exception.
pub mod Runs
pub mod Reschedule
pub mod Waiting
use copr.Base.{
  ℕ, Option, none, some, List, [], ◌∷◌, ◌++◌, map, Bool, true, false, not, ◌&&◌, ◌||◌, ◌==◌,
  if◌then◌else◌,
}
use copr.Base.Int.{ℤ, pos, negsuc}
use copr.Base.Equality.{Text, text_eq, maybe_eq, nat_eq, beq}
use copr.Base.Dict.{Dict, get, put, contains, add}
use copr.Base.Maybe.{◌>>=◌}
use copr.Frontend.Status.{Status, status_eq, starting, running, pending, canceled, finished_states}
use copr.Frontend.Build.{Build, BuildChroot, is_finished_state}
use copr.Frontend.Batch.{Batch, Database, blocked}
use copr.Frontend.Update.{MockChroot, TaskId, of_sources, UpdDict, update_state_from_dict}

-- The actions that wait, in the order in which they were created. `project` is the full name of the
-- action's project, if it has one.
pub record Action : Type 0 where
  pub id : ℕ
  pub deletes_project : Bool  -- object_type is "copr" and action_type "delete"
  pub project : Option Text
  pub owner_name : Text
  pub priority : Option ℤ
  pub default_priority : ℤ

pub record ActionData : Type 0 where
  pub id : ℕ
  pub priority : ℤ
  pub project_owner : Option Text

-- action.priority or action.default_priority
abbrev pub or_default_priority : Option ℤ → ℤ → ℤ
or_default_priority none default = default
or_default_priority (some (pos n)) default = if n == 0 then default else pos n
or_default_priority (some (negsuc n)) default = negsuc n

abbrev pub owner_of : Option Text → Text → Option Text
owner_of none owner_name = none
owner_of (some name) owner_name = some owner_name

abbrev pub data_of : Action → ActionData
data_of a = record {
  id = a.id;
  priority = or_default_priority a.priority a.default_priority;
  project_owner = owner_of a.project a.owner_name;
}

abbrev pub is_busy : List Text → Option Text → Bool
is_busy busy none = false
is_busy busy (some name) = contains busy name

-- A deletion of a project always has one; else reading its name fails.
unfoldable pub pending_actions_from : List Text → List Action → Option (List ActionData)
pending_actions_from busy [] = some []
pending_actions_from busy (a ∷ later) =
    if a.deletes_project
    then a.project
      >>= (λ name. pending_actions_from (add busy name) later >>= (λ rest. some (data_of a ∷ rest)))
    else if is_busy busy a.project
    then pending_actions_from busy later
    else pending_actions_from busy later >>= (λ rest. some (data_of a ∷ rest))

unfoldable pub pending_actions : List Action → Option (List ActionData)
unfolding pending_actions_from
pending_actions waiting = pending_actions_from [] waiting

-- The answers of `starting_build`, and of `reschedule_build_chroot` with its three messages.
pub data Starting : Type 0 where
  can_start : Build → Starting
  cannot_start : Starting

unfoldable pub starting_build :
    ℕ → UpdDict → Option (List MockChroot) → Option Build → Option Starting
unfolding update_state_from_dict
starting_build now request chroots none = some cannot_start
starting_build now request chroots (some build) =
    if build.canceled_flag
    then some cannot_start
    else update_state_from_dict now request chroots build >>= (λ b. some (can_start b))

pub data Rescheduled : Type 0 where
  not_found cancelled not_running : Rescheduled
  done : Build → Rescheduled

abbrev pub run_statuses : List Status
run_statuses = starting ∷ running ∷ []

-- The dict that is given to `update_state_from_dict`; it has the key "chroot" for a chroot's task.
abbrev pub to_pending : TaskId → Option Text → UpdDict
to_pending task_id chroot = record {
  task_id = some task_id;
  chroot = chroot;
  status = some pending;
  result_dir = none;
  built_packages = none;
  srpm_url = none;
  pkg_version = none;
  started_on = none;
  ended_on = none;
  architecture_specific_tags = none;
}

-- chroots_dict_by_name.get(chroot)
unfoldable pub chroot_by_name : List BuildChroot → Text → Option BuildChroot
chroot_by_name [] name = none
chroot_by_name (c ∷ cs) name = if beq c.name name then some c else chroot_by_name cs name

abbrev pub runs : Option Status → Bool
runs none = false
runs (some s) = contains run_statuses s

abbrev pub is_running : Option BuildChroot → Bool
is_running none = false
is_running (some c) = runs c.status

abbrev pub is_task_of : Build → TaskId → Bool
is_task_of build (of_sources id) = id == build.id
is_task_of build (TaskId.of_chroot id name) = false

unfoldable pub reschedule_build_chroot :
    ℕ → TaskId → Text → Option (List MockChroot) → Option Build → Option Rescheduled
unfolding update_state_from_dict chroot_by_name
reschedule_build_chroot now task_id chroot chroots none = some not_found
reschedule_build_chroot now task_id chroot chroots (some build) =
    if build.canceled_flag
    then some cancelled
    else if is_task_of build task_id
    then (if contains run_statuses build.source_status
        then update_state_from_dict now (to_pending task_id none) chroots build
          >>= (λ b. some (done b))
        else some not_running)
    else (if is_running (chroot_by_name build.build_chroots chroot)
        then update_state_from_dict now (to_pending task_id (some chroot)) chroots build
          >>= (λ b. some (done b))
        else some not_running)

-- A task id with a dash names a chroot of a build, one without a build's sources.
abbrev pub cancel_status : Option Status → Option Status
cancel_status status = if is_finished_state status then status else some canceled

unfoldable pub cancel_chroot : Text → List BuildChroot → List BuildChroot
cancel_chroot name [] = []
cancel_chroot name (c ∷ cs) =
    let rest = cancel_chroot name cs in
    if beq c.name name then record c { status = cancel_status c.status } ∷ rest else c ∷ rest

abbrev pub cancel_task : TaskId → Build → Build
cancel_task (TaskId.of_chroot id name) build =
    if id == build.id
    then record build { build_chroots = cancel_chroot name build.build_chroots }
    else build
cancel_task (of_sources id) build =
    if id == build.id && not (contains finished_states build.source_status)
    then record build { source_status = canceled }
    else build

abbrev pub same_task : TaskId → TaskId → Bool
same_task (of_sources i) (of_sources j) = i == j
same_task (TaskId.of_chroot i c) (TaskId.of_chroot j d) = i == j && beq c d
same_task _ _ = false

unfoldable pub drop_requests : TaskId → List TaskId → List TaskId
drop_requests task_id [] = []
drop_requests task_id (r ∷ rs) =
    let rest = drop_requests task_id rs in if same_task r task_id then rest else r ∷ rest

unfoldable pub build_task_canceled : TaskId → List TaskId → List Build → List TaskId × List Build
unfolding drop_requests cancel_chroot
build_task_canceled task_id cancel_requests builds =
    (drop_requests task_id cancel_requests, map (cancel_task task_id) builds)
