-- ===== src/Examples/Imported.antt =====
-- `dist_git_upload_completed` of frontend/coprs_frontend/coprs/views/backend_ns/backend_general.py at a
-- concrete input.
use copr.Base.{◌≡◌, refl, Option, some, none, [], ◌∷◌, true, if◌then◌else◌}
use copr.Base.Equality.{Text, codes, beq, text_eq, text_beq, maybe_beq}
use copr.Base.Dict.{Dict}
use copr.Frontend.Status.{value, failed}
use copr.Frontend.Build.{srpm_import_failed}
use copr.Frontend.Imported.{Row, dist_git_upload_completed}
use copr.Frontend.Imported.Collected.{covered}
use copr.Frontend.Imported.Expected.{marked, with_status, reported, expected_row, was_left_out}
use copr.Frontend.Imported.Completed.{all_covered, dist_git_upload_completed-expected_row}
use copr.Examples.Frontend.{build, chroot}

abbrev branch_of : Text → Option Text
branch_of name =
    if beq name (codes "fedora-41-x86_64") then some (codes "f41") else some (codes "el9")

abbrev fedora : Row
fedora = record { chroot = chroot; branch = some (codes "f41"); git_hash = none }

abbrev epel : Row
epel = record {
  chroot = record chroot { name = codes "epel-9-x86_64" };
  branch = some (codes "el9");
  git_hash = none;
}

abbrev commits : Dict Text Text
commits = (codes "f41", codes "c0ffee") ∷ []

dist_git_upload_completed-expected_row_example :
    dist_git_upload_completed commits (some build) (fedora ∷ epel ∷ []) ≡ (
      true,
      some (record build { source_status = failed; fail_type = srpm_import_failed }),
      marked (some (codes "c0ffee")) fedora ∷ with_status failed epel ∷ [],
    )
unfolding was_left_out covered reported expected_row all_covered text_beq maybe_beq value
dist_git_upload_completed-expected_row_example =
    dist_git_upload_completed-expected_row branch_of commits build (fedora ∷ epel ∷ [])
      (refl, (refl, tt))
