-- ===== src/Frontend/Backend/Reschedule.antt =====
-- What `reschedule_build_chroot` of
-- frontend/coprs_frontend/coprs/views/backend_ns/backend_general.py does to a build.
use copr.Base.{◌≡◌, Option, some, List, map, true, if◌then◌else◌, not, ◌&&◌}
use copr.Base.Equality.{Text, text_eq, maybe_eq, beq}
use copr.Frontend.Status.{Status, status_eq, pending}
use copr.Frontend.Build.{Build, BuildChroot}
use copr.Frontend.Update.Ended.{is_ended, has_begun}
use copr.Frontend.Backend.Runs.{status_of}
use copr.Frontend.Backend.{Rescheduled, done, not_found, cancelled, not_running, chroot_by_name}

-- The status of a chroot after its task, or another's, was put back: a terminal one stays.
abbrev pub put_back : Text → BuildChroot → Option Status
put_back name c =
    if beq (some name) (some c.name) && not (is_ended c.status) then some pending else c.status

abbrev pub statuses : List BuildChroot → List (Option Status)
statuses chroots = map (λ (c : BuildChroot). c.status) chroots

-- The sources of the build ran and are pending again, and no chroot's status changed.
abbrev pub SourcesPutBack : Build → Build → Type 0
SourcesPutBack before after =
    (has_begun (some before.source_status) ≡ true)
    × (after.source_status ≡ pending)
    × (statuses after.build_chroots ≡ statuses before.build_chroots)

-- The named chroot ran; it is pending again, and nothing else has another status but for a second chroot
-- of the name.
abbrev pub ChrootPutBack : Text → Build → Build → Type 0
ChrootPutBack name before after =
    (has_begun (status_of (chroot_by_name before.build_chroots name)) ≡ true)
    × (status_of (chroot_by_name after.build_chroots name) ≡ some pending)
    × (after.source_status ≡ before.source_status)
    × (statuses after.build_chroots ≡ map (put_back name) before.build_chroots)

build_of : Build → Rescheduled → Build
build_of other (done b) = b
build_of other not_found = other
build_of other cancelled = other
build_of other not_running = other
