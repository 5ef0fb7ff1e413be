-- ===== src/Frontend/Backend/Runs.antt =====
-- When `reschedule_build_chroot` of
-- frontend/coprs_frontend/coprs/views/backend_ns/backend_general.py takes a task to run.
use copr.Base.{◌≡◌, refl, sym, ◌∙◌, Option, none, some, true}
use copr.Base.Dict.{contains}
use copr.Frontend.Status.{
  value, Status, status_eq, failed, succeeded, canceled, running, pending, skipped, starting,
  importing, forked, waiting, unknown,
}
use copr.Frontend.Build.{BuildChroot}
use copr.Frontend.Update.Ended.{has_begun}
use copr.Frontend.Backend.{runs, is_running}

abbrev pub status_of : Option BuildChroot → Option Status
status_of none = none
status_of (some c) = c.status

pub runs-has_begun : (o : Option Status) → runs o ≡ has_begun o
unfolding has_begun contains value
runs-has_begun none = refl
runs-has_begun (some failed) = refl
runs-has_begun (some succeeded) = refl
runs-has_begun (some canceled) = refl
runs-has_begun (some running) = refl
runs-has_begun (some pending) = refl
runs-has_begun (some skipped) = refl
runs-has_begun (some starting) = refl
runs-has_begun (some importing) = refl
runs-has_begun (some forked) = refl
runs-has_begun (some waiting) = refl
runs-has_begun (some unknown) = refl

pub is_running-has_begun :
    (o : Option BuildChroot) → is_running o ≡ true → has_begun (status_of o) ≡ true
unfolding has_begun
is_running-has_begun none h = h
is_running-has_begun (some c) h = sym (runs-has_begun c.status) ∙ h
