-- ===== src/Frontend/Imported.antt =====
-- frontend/coprs_frontend/coprs/views/backend_ns/backend_general.py, `dist_git_upload_completed`: what
-- the dist-git server reports once it has imported the sources of a build. The tags of the chroots,
-- from the configuration, and the deletion of the uploaded file are left out.
pub mod Collected
pub mod Expected
pub mod Completed
use copr.Base.{
  ℕ, Option, none, some, List, [], ◌∷◌, ◌++◌, map, Bool, true, false, not, ◌&&◌, if◌then◌else◌,
}
use copr.Base.Equality.{Text, text_eq, maybe_eq, beq}
use copr.Base.Dict.{Dict, contains}
use copr.Frontend.Status.{Status, status_eq, succeeded, failed, pending, skipped}
use copr.Frontend.Build.{Build, BuildChroot, srpm_import_failed}

-- A chroot of the build, with `distgit_branch_name` of its mock chroot.
pub record Row : Type 0 where
  pub chroot : BuildChroot
  pub branch : Option Text
  pub git_hash : Option Text

-- The rows of a branch; a task's id has the build's, so that the name tells the tasks apart.
abbrev pub is_on : Text → Row → Bool
is_on branch row = beq row.branch (some branch)

unfoldable pub collect_branch : Text → List Row → List Text
collect_branch branch [] = []
collect_branch branch (row ∷ rows) =
    let rest = collect_branch branch rows in
    if is_on branch row then row.chroot.name ∷ rest else rest

abbrev pub is_skipped : Option Status → Bool
is_skipped none = false
is_skipped (some s) = beq s skipped

unfoldable pub import_row : Text → Text → Row → Row
import_row branch git_hash row =
    if not (is_on branch row) then row else if is_skipped row.chroot.status then row else record {
      chroot = record row.chroot { status = some pending };
      branch = row.branch;
      git_hash = some git_hash;
    }

-- The loop over `branch_commits`: the rows, and the tasks collected.
unfoldable pub import_branches : Dict Text Text → List Row → List Row
unfolding import_row
import_branches [] rows = rows
import_branches ((branch, git_hash) ∷ commits) rows =
    import_branches commits (map (import_row branch git_hash) rows)

unfoldable pub collected : Dict Text Text → List Row → List Text
unfolding collect_branch
collected [] rows = []
collected ((branch, git_hash) ∷ commits) rows = collect_branch branch rows ++ collected commits rows

unfoldable pub fail_row : List Text → Row → Row
fail_row tasks row =
    if contains tasks row.chroot.name
    then row
    else record row { chroot = record row.chroot { status = some failed } }

unfoldable pub all_collected : List Text → List Row → Bool
all_collected tasks [] = true
all_collected tasks (row ∷ rows) = contains tasks row.chroot.name && all_collected tasks rows

unfoldable pub finish_source : Bool → Build → Build
finish_source true build = record build { source_status = succeeded }
finish_source false build = record build { source_status = failed; fail_type = srpm_import_failed }

-- `updated`, the build and its rows.
unfoldable pub dist_git_upload_completed :
    Dict Text Text → Option Build → List Row → Bool × Option Build × List Row
unfolding import_branches collected fail_row all_collected finish_source
dist_git_upload_completed branch_commits none rows = (false, none, rows)
dist_git_upload_completed branch_commits (some build) rows =
    let tasks = collected branch_commits rows in
    (
      true,
      some (finish_source (all_collected tasks rows) build),
      map (fail_row tasks) (import_branches branch_commits rows),
    )
