-- ===== src/Frontend/Imported/Expected.antt =====
-- What `dist_git_upload_completed` of
-- frontend/coprs_frontend/coprs/views/backend_ns/backend_general.py is to come to, for each chroot and
-- for the build.
use copr.Base.{◌≡◌, refl, Option, none, some, [], ◌∷◌, Bool, true, false, not, if◌then◌else◌}
use copr.Base.Equality.{Text, text_eq, maybe_eq, beq}
use copr.Base.Dict.{Dict}
use copr.Frontend.Status.{
  value, Status, status_eq, failed, succeeded, canceled, running, pending, skipped, starting,
  importing, forked, waiting, unknown,
}
use copr.Frontend.Build.{Build, srpm_import_failed}
use copr.Frontend.Imported.{Row, is_skipped, finish_source}
use copr.Frontend.Imported.Collected.{covered}

-- The last commit that was reported for the branch, or else the one there was.
unfoldable pub reported : Dict Text Text → Option Text → Option Text → Option Text
reported [] b old = old
reported ((branch, git_hash) ∷ commits) b old =
    reported commits b (if beq b (some branch) then some git_hash else old)

abbrev pub with_status : Status → Row → Row
with_status s row = record row { chroot = record row.chroot { status = some s } }

abbrev pub marked : Option Text → Row → Row
marked git_hash row = record {
  chroot = record row.chroot { status = some pending };
  branch = row.branch;
  git_hash = git_hash;
}

-- The chroot was left out when the sources were built.
unfoldable pub was_left_out : Option Status → Bool
was_left_out none = false
was_left_out (some skipped) = true
was_left_out (some _) = false

pub is_skipped-was_left_out : (o : Option Status) → is_skipped o ≡ was_left_out o
unfolding was_left_out value
is_skipped-was_left_out none = refl
is_skipped-was_left_out (some failed) = refl
is_skipped-was_left_out (some succeeded) = refl
is_skipped-was_left_out (some canceled) = refl
is_skipped-was_left_out (some running) = refl
is_skipped-was_left_out (some pending) = refl
is_skipped-was_left_out (some skipped) = refl
is_skipped-was_left_out (some starting) = refl
is_skipped-was_left_out (some importing) = refl
is_skipped-was_left_out (some forked) = refl
is_skipped-was_left_out (some waiting) = refl
is_skipped-was_left_out (some unknown) = refl

-- What becomes of a row: it fails if nothing was reported for its branch, a skipped one stays as it is,
-- and any other waits to be built from what was reported.
unfoldable pub expected_row : Dict Text Text → Row → Row
unfolding covered reported
expected_row commits row =
    if not (covered commits row.branch)
    then with_status failed row
    else if was_left_out row.chroot.status
    then row
    else marked (reported commits row.branch row.git_hash) row

-- What becomes of the build: its sources have succeeded, or failed for their import.
abbrev pub expected_build : Bool → Build → Build
expected_build all_there build = record build {
  source_status = if all_there then succeeded else failed;
  fail_type = if all_there then build.fail_type else srpm_import_failed;
}

pub finish_source-expected_build :
    (all_there : Bool) (build : Build)
    → finish_source all_there build ≡ expected_build all_there build
unfolding finish_source
finish_source-expected_build true build = refl
finish_source-expected_build false build = refl
