-- ===== src/Examples/Frontend.antt =====
-- frontend/coprs_frontend/coprs at concrete inputs.
use mathlib.Core.Path.{subst}
use copr.Base.Maybe.{some_path}
use copr.Base.{
  ap, ◌∙◌, if_cases, if◌then◌else◌, ℕ, ◌≡◌, ◌<◌, refl, Option, none, some, [], ◌∷◌, true, false,
  arith, All, ◌==◌,
}
use copr.Base.Equality.{codes, text_eq, text_beq, maybe_eq, nat_eq}
use copr.Base.Dict.{get, contains, add}
use copr.Frontend.WorkList.{new, schedule, schedule_all, pop, pop_last}
use copr.Frontend.WorkList.Once.{
  schedules, pops, perform, backwards, scheduled_by, first_of_each, Once, perform-new-IsInOrder,
}
use copr.Frontend.Status.{Status, value, failed, succeeded, running, status_eq}
use copr.Frontend.User.{Copr, User}
use copr.Frontend.User.Cached.{unknown_yet}
use copr.Frontend.Build.{
  Build, BuildChroot, status, finished, finished_early, finished_chroots, all_finished,
  chroot_finished, is_finished_state, first_state, chroot_states,
}
use copr.Frontend.Build.Outcome.{outcome_order, status-finished}
use copr.Frontend.Batch.{Batch, Database}
use copr.Frontend.Batch.Chain.{IsOrdered, Answers, blocked-Answers}
use copr.Frontend.Cancel.{Session, cancel_builds, get_by_ids}
use copr.Frontend.Cancel.{
  done, delete_builds, remove_found, sort_deletes, sort_check, check_build_to_delete, finish_delete,
  delete_rows, delete_row,
}
use copr.Frontend.User.{can_edit}
use copr.Base.Dict.{discard}
use copr.Frontend.Cancel.AllOrNothing.{IsAllOrNothing, cancel_builds-IsAllOrNothing}
use copr.Frontend.Update.{
  UpdDict, is_source_task, update_source, update_source_status, skip_excluded, skip_by_results,
  set_source_status, srpm_build_error, finish, or_now,
}
use copr.Frontend.Update.Ended.{is_ended}
use copr.Frontend.Update.Received.{receive, status_named, find_named, receive_first_terminal}
use copr.Frontend.Update.SourceFailed.{IsFinished, update_source_failed}

-- It starts with 1 and 2; 1 is taken, 1 and 3 are scheduled, 2 is taken.
perform-new-IsInOrder_example :
    (1 ∷ 2 ∷ 3 ∷ [] ≡ first_of_each {A = ℕ} [] (1 ∷ 2 ∷ 1 ∷ 3 ∷ [])) × Once {A = ℕ} (1 ∷ 2 ∷ 3 ∷ [])
unfolding perform pop pop_last schedule schedule_all new contains add backwards scheduled_by
perform-new-IsInOrder_example =
    perform-new-IsInOrder (1 ∷ 2 ∷ []) (pops ∷ schedules 1 ∷ schedules 3 ∷ pops ∷ [])
      (record { tasks = 3 ∷ []; seen = 1 ∷ 2 ∷ 3 ∷ [] }) (1 ∷ 2 ∷ []) refl

abbrev pub jane : User
jane = record { id = 1; admin = false; user_teams = []; cached = [] }

abbrev pub janes : Copr
janes = record {
  id = 5;
  name = codes "hello";
  user_id = 1;
  group = none;
  persistent = false;
  deleted = false;
  auto_createrepo = true;
  appstream = true;
}

abbrev others : Copr
others = record {
  id = 6;
  name = codes "hello";
  user_id = 2;
  group = none;
  persistent = false;
  deleted = false;
  auto_createrepo = true;
  appstream = true;
}

abbrev pub chroot : BuildChroot
chroot = record {
  name = codes "fedora-41-x86_64";
  name_release = codes "fedora-41";
  arch = codes "x86_64";
  status = some running;
  status_reason = [];
  started_on = none;
  ended_on = none;
  result_dir = [];
}

abbrev pub build : Build
build = record {
  id = 7;
  canceled_flag = false;
  source_status = succeeded;
  fail_type = 0;
  source_is_uploaded = false;
  copr = janes;
  result_dir = [];
  built_packages = [];
  srpm_url = [];
  pkg_version = [];
  build_chroots = chroot ∷ [];
}

abbrev done_chroot : BuildChroot
done_chroot = record chroot { status = some succeeded }

abbrev done_build : Build
done_build = record build { build_chroots = done_chroot ∷ [] }

status-finished_example : status done_build ≡ first_state outcome_order (chroot_states done_build)
unfolding finished finished_early finished_chroots all_finished chroot_finished is_finished_state
    contains value
status-finished_example = status-finished done_build done_chroot [] refl refl refl refl

-- Batch 2 is blocked by batch 1, whose only build runs.
abbrev pub first : Batch
first = record { id = 1; blocked_by_id = none }

abbrev pub second : Batch
second = record { id = 2; blocked_by_id = some 1 }

abbrev pub row : ℕ → Option Batch
row i = if i == 1 then some first else if i == 2 then some second else none

abbrev pub db : Database
db = record { batch = row; builds = λ i. build ∷ [] }

abbrev Parent : Batch → ℕ → Type 0
Parent b i = (parent : Batch) × (row i ≡ some parent) × (0 < i) × (i < b.id) × (parent.id ≡ i)

pub db-IsOrdered : IsOrdered db
db-IsOrdered b i there held =
    if_cases (λ r. r ≡ some b → Parent b i) (b.id == 1)
      (λ is_1 e. absurd (none_not_some (ap (λ (x : Batch). x.blocked_by_id) (some_path e) ∙ held)))
      (λ not_1.
        if_cases (λ r. r ≡ some b → Parent b i) (b.id == 2) (λ is_2 e. second_parent (some_path e))
          (λ not_2 e. absurd (none_not_some e)))
      there
  where
    none_not_some : {A : Type 0} {a : A} → none ≡ some a → ⊥
    none_not_some e = cc

    second_parent : second ≡ b → Parent b i
    second_parent e =
        let i_1 : 1 ≡ i = some_path (ap (λ (x : Batch). x.blocked_by_id) e ∙ held) in
        let id_2 : 2 ≡ b.id = ap (λ (x : Batch). x.id) e in
        subst (Parent b) i_1 (first, refl, (omega arith), (omega (arith, id_2)), refl)

blocked-Answers_example : Answers 3 db [] second
unfolding contains
blocked-Answers_example = blocked-Answers 3 db [] second db-IsOrdered (λ i h. cc) refl (omega arith)

abbrev session : Session
session = record { builds = build ∷ []; cancel_requests = []; delete_actions = [] }

cancel_builds-IsAllOrNothing_example :
    IsAllOrNothing [] jane
      (get_by_ids (7 ∷ []) session.builds)
      session
      (cancel_builds [] jane (7 ∷ []) session)
unfolding get_by_ids contains get
cancel_builds-IsAllOrNothing_example =
    cancel_builds-IsAllOrNothing [] jane (7 ∷ []) session (tt, tt) (unknown_yet refl, tt)

abbrev report : Status → UpdDict
report s = record {
  task_id = none;
  chroot = some (codes "fedora-41-x86_64");
  status = some s;
  result_dir = none;
  built_packages = none;
  srpm_url = none;
  pkg_version = none;
  started_on = none;
  ended_on = none;
  architecture_specific_tags = none;
}

receive_first_terminal_example :
    (b : Build) × (receive
        ((1, report running) ∷ (2, report succeeded) ∷ (3, report failed) ∷ [])
        build
      ≡ some b)
    × (status_named b.build_chroots (codes "fedora-41-x86_64") ≡ some succeeded)
unfolding is_source_task find_named text_beq is_ended
receive_first_terminal_example =
    receive_first_terminal ((1, report running) ∷ []) ((3, report failed) ∷ []) 2 (report succeeded)
      build chroot (codes "fedora-41-x86_64") succeeded refl refl (refl, (refl, (refl, tt)))
      (refl, tt) refl refl refl

abbrev failed_build : Build
failed_build = record build {
  source_status = failed;
  fail_type = srpm_build_error;
  build_chroots =
      record chroot { status = some failed; started_on = some 9; ended_on = some 9 } ∷ [];
}

update_source_failed_example :
    (status failed_build ≡ some failed)
    × (finished failed_build ≡ true)
    × (failed_build.fail_type ≡ srpm_build_error)
    × All IsFinished failed_build.build_chroots
unfolding update_source update_source_status skip_excluded skip_by_results set_source_status finish
    or_now value
update_source_failed_example =
    update_source_failed 9 (report failed) none build failed_build refl refl refl

abbrev done_session : Session
done_session = record session { builds = done_build ∷ [] }

-- It is gone, and the backend is told.
gone :
    delete_builds [] jane (7 ∷ []) true done_session
    ≡ done (record done_session { builds = []; delete_actions = (7 ∷ []) ∷ [] })
unfolding delete_builds get_by_ids remove_found sort_deletes sort_check check_build_to_delete
    can_edit finish_delete delete_rows delete_row discard contains finished finished_early
    finished_chroots all_finished chroot_finished is_finished_state value
gone = refl
