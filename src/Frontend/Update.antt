-- ===== src/Frontend/Update.antt =====
-- frontend/coprs_frontend/coprs/logic/builds_logic.py, `update_state_from_dict`: what the backend
-- reports of a build. The package that is assigned first (`pkg_name`), the rows of
-- `BuildChrootResultsLogic`, the removal of local sources, the action for a module's repodata and
-- the HTTP call of `process_update_callback` are left out; they change none of the columns here.
-- `now` is `time.time()`, and `package_chroots` the chroots of the assigned package, if there is one.
pub mod Ended
pub mod Terminal
pub mod Received
pub mod SourceFailed
use copr.Base.{
  ℕ, Option, none, some, List, [], ◌∷◌, ◌++◌, Bool, true, false, not, ◌&&◌, ◌||◌, ◌==◌,
  if◌then◌else◌, map,
}
use copr.Base.Equality.{Text, codes, text_eq, beq, maybe_eq}
use copr.Base.Dict.{Dict, get, contains}
use copr.Base.Maybe.{◌>>=◌}
use copr.Workers.Manager.{or_default}
use copr.Frontend.Status.{
  Status, status_eq, failed, succeeded, importing, waiting, skipped, starting, terminal_states,
}
use copr.Frontend.Build.{Build, BuildChroot}

pub record MockChroot : Type 0 where
  pub name_release : Text
  pub arch : Text

pub record Tags : Type 0 where
  pub exclusivearch : List Text
  pub excludearch : List Text

-- The task of a build's sources is named by the build's id, and that of a chroot by both.
pub data TaskId : Type 0 where
  of_sources : ℕ → TaskId
  of_chroot : ℕ → Text → TaskId

-- `upd_dict`: a key that is missing is `none`. A list of architectures that is missing, None or
-- empty is the empty list, and "results" come with their "architecture_specific_tags".
pub record UpdDict : Type 0 where
  pub task_id : Option TaskId
  pub chroot : Option Text
  pub status : Option Status
  pub result_dir : Option Text
  pub built_packages : Option Text
  pub srpm_url : Option Text
  pub pkg_version : Option Text
  pub started_on : Option ℕ
  pub ended_on : Option ℕ
  pub architecture_specific_tags : Option (Dict Text Tags)

-- common/copr_common/enums.py, FailTypeEnum.
abbrev pub srpm_build_error : ℕ
srpm_build_error = 34

-- value or default, where None and 0 are falsy.
unfoldable pub or_now : Option ℕ → ℕ → ℕ
or_now none now = now
or_now (some t) now = if t == 0 then now else t

-- `if value: setattr(build, attr, value)`
unfoldable pub set_text : Option Text → Text → Text
set_text none old = old
set_text (some []) old = old
set_text (some (c ∷ cs)) old = c ∷ cs

unfoldable pub set_attrs : UpdDict → Build → Build
unfolding set_text
set_attrs upd build = record build {
  built_packages = set_text upd.built_packages build.built_packages;
  srpm_url = set_text upd.srpm_url build.srpm_url;
  pkg_version = set_text upd.pkg_version build.pkg_version;
}

unfoldable pub finish : ℕ → UpdDict → Status → BuildChroot → BuildChroot
unfolding or_now
finish now upd status chroot =
    let ended_on = or_now upd.ended_on now in
    record chroot {
      status = some status;
      ended_on = some ended_on;
      started_on = some (or_default upd.started_on ended_on);
    }

unfoldable pub new_chroot : Status → MockChroot → BuildChroot
new_chroot status chroot = record {
  name = chroot.name_release ++ codes "-" ++ chroot.arch;
  name_release = chroot.name_release;
  arch = chroot.arch;
  status = some status;
  status_reason = [];
  started_on = none;
  ended_on = none;
  result_dir = [];
}

-- `assign_buildchroots_from_package`, which is false where it adds none.
unfoldable pub assign_buildchroots_from_package :
    Option (List MockChroot) → Status → List BuildChroot
unfolding new_chroot
assign_buildchroots_from_package none status = []
assign_buildchroots_from_package (some chroots) status = map (new_chroot status) chroots

abbrev pub set_waiting : BuildChroot → BuildChroot
set_waiting chroot = record chroot { status = some waiting }

-- The new source status and the chroots, where the sources were built.
unfoldable pub source_succeeded :
    Option (List MockChroot) → List BuildChroot → Status × List BuildChroot
unfolding assign_buildchroots_from_package
source_succeeded package_chroots [] =
    or_failed (assign_buildchroots_from_package package_chroots waiting)
  where
    or_failed : List BuildChroot → Status × List BuildChroot
    or_failed [] = (failed, [])
    or_failed (c ∷ cs) = (importing, c ∷ cs)
source_succeeded package_chroots (c ∷ cs) = (importing, map set_waiting (c ∷ cs))

unfoldable pub not_exclusive : List Text → Text → Bool
not_exclusive [] arch = false
not_exclusive (x ∷ xs) arch = not (contains (x ∷ xs) arch)

unfoldable pub skip_if : ℕ → UpdDict → Bool → Text → BuildChroot → BuildChroot
unfolding finish
skip_if now upd test reason chroot =
    if test then finish now upd skipped (record chroot { status_reason = reason }) else chroot

-- "Skip excluded architectures"
unfoldable pub skip_chroot : ℕ → UpdDict → Tags → BuildChroot → BuildChroot
unfolding skip_if not_exclusive
skip_chroot now upd tags chroot =
    let exclusive =
      skip_if now upd (not_exclusive tags.exclusivearch chroot.arch)
        (codes "This chroot was skipped because of ExclusiveArch") chroot in
    skip_if now upd (contains tags.excludearch chroot.arch)
      (codes "This chroot was skipped because of ExcludeArch") exclusive

-- `none` is the KeyError for a chroot without tags.
unfoldable pub skip_chroots :
    ℕ → UpdDict → Dict Text Tags → List BuildChroot → Option (List BuildChroot)
unfolding skip_chroot
skip_chroots now upd tags [] = some []
skip_chroots now upd tags (c ∷ cs) =
    get tags c.name_release
    >>= (λ t. skip_chroots now upd tags cs >>= (λ rest. some (skip_chroot now upd t c ∷ rest)))

unfoldable pub skip_by_results : Option (Dict Text Tags) → ℕ → UpdDict → Build → Option Build
unfolding skip_chroots
skip_by_results none now upd build = some build
skip_by_results (some tags) now upd build =
    if beq upd.chroot (some (codes "srpm-builds"))
    then (skip_chroots now upd tags build.build_chroots
        >>= (λ chroots. some (record build { build_chroots = chroots })))
    else some build

unfoldable pub skip_excluded : ℕ → UpdDict → Build → Option Build
unfolding skip_by_results
skip_excluded now upd build = skip_by_results upd.architecture_specific_tags now upd build

-- `build.source_status = new_status` and what follows from it.
unfoldable pub set_source_status : ℕ → UpdDict → Status → List BuildChroot → Build → Build
unfolding finish
set_source_status now upd new_status chroots build =
    let is_failed = beq new_status failed in
    record build {
      source_status = new_status;
      build_chroots =
          if is_failed || beq new_status skipped
          then map (finish now upd new_status) chroots
          else chroots;
      fail_type = if is_failed then srpm_build_error else build.fail_type;
    }

unfoldable pub update_source_status :
    ℕ → UpdDict → Option (List MockChroot) → Build → Status → Option Build
unfolding source_succeeded set_source_status skip_excluded
update_source_status now upd package_chroots build status =
    let (new_status, chroots) =
      if beq status succeeded
      then source_succeeded package_chroots build.build_chroots
      else (status, build.build_chroots) in
    skip_excluded now upd (
      set_source_status now upd new_status chroots
        (record build { result_dir = or_default upd.result_dir [] }))

-- The update of the source build; a status is in every such report, and without one the database
-- refuses the row.
unfoldable pub update_source : ℕ → UpdDict → Option (List MockChroot) → Build → Option Build
unfolding update_source_status
update_source now upd package_chroots build =
    upd.status >>= update_source_status now upd package_chroots build

-- `"status" in upd_dict and build_chroot.status not in BuildsLogic.terminal_states`
unfoldable pub set_status : Option Status → Option Status → Option Status
set_status none old = old
set_status (some new) none = some new
set_status (some new) (some old) = if contains terminal_states old then some old else some new

unfoldable pub is_terminal : Option Status → Bool
is_terminal none = false
is_terminal (some s) = contains terminal_states s

unfoldable pub is_starting : Option Status → Bool
is_starting none = false
is_starting (some s) = beq s starting

unfoldable pub update_chroot : ℕ → UpdDict → BuildChroot → BuildChroot
unfolding set_status is_terminal is_starting or_now
update_chroot now upd build_chroot =
    if beq upd.chroot (some build_chroot.name)
    then record build_chroot {
      result_dir = or_default upd.result_dir [];
      status = set_status upd.status build_chroot.status;
      ended_on =
          if is_terminal upd.status then some (or_now upd.ended_on now) else build_chroot.ended_on;
      started_on =
          if is_starting upd.status
          then some (or_now upd.started_on now)
          else build_chroot.started_on;
    }
    else build_chroot

unfoldable pub is_source_task : Option TaskId → Build → Bool
is_source_task none build = false
is_source_task (some (of_sources id)) build = id == build.id
is_source_task (some (of_chroot id name)) build = false

unfoldable pub update_state_from_dict :
    ℕ → UpdDict → Option (List MockChroot) → Build → Option Build
unfolding set_attrs is_source_task update_source update_chroot
update_state_from_dict now upd package_chroots build =
    let build' = set_attrs upd build in
    if is_source_task upd.task_id build'
    then update_source now upd package_chroots build'
    else some (record build' { build_chroots = map (update_chroot now upd) build'.build_chroots })
