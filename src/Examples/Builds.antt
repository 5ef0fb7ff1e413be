-- ===== src/Examples/Builds.antt =====
-- The build dispatcher, backend/copr_backend/rpm_builds.py and daemons/build_dispatcher.py, at
-- concrete inputs.
use copr.Base.{◌≡◌, refl, none, some, List, [], ◌∷◌, true, false, arith}
use copr.Base.Int.{pos, ◌+ℤ◌, ◌<ℤ◌}
use copr.Base.Equality.{codes, text_eq, text_beq, maybe_eq, bool_eq}
use copr.Base.Dict.{get, put, contains}
use copr.Workers.Limits.{check_all, check, worker_added}
use copr.Builds.Task.{BuildTask, BuildQueueTask, new, priority, background, requested_arch}
use copr.Builds.Task.Sections.{IsWithinSection, section_lt-priority_lt}
use copr.Builds.PriorityCounter.{get_frontend_tasks}
use copr.Builds.PriorityCounter.Laws.{Numbered, get_frontend_tasks-Numbered}
use copr.Builds.Limits.{BuildsLimits, build_limits}
use copr.Builds.Limits.Passed.{IsAllowed, build_limits-IsAllowed}

abbrev srpm_raw : BuildTask
srpm_raw = record {
  task_id = codes "12";
  task_priority = none;
  task_background = none;
  chroot = none;
  owner = codes "jane";
  task_tags = none;
  sandbox = none;
  allow_user_ssh = none;
}

abbrev rpm_raw : BuildTask
rpm_raw = record srpm_raw { task_id = codes "9-f-x"; chroot = some (codes "f-1-x86_64") }

abbrev srpm : BuildQueueTask
srpm = record { task = srpm_raw; backend_priority = pos 1; source_build = true }

abbrev rpm : BuildQueueTask
rpm = record { task = rpm_raw; backend_priority = pos 1; source_build = false }

srpm-IsWithinSection : IsWithinSection srpm
unfolding ◌+ℤ◌
srpm-IsWithinSection = record { lower = omega arith; upper = omega arith }

rpm-IsWithinSection : IsWithinSection rpm
unfolding ◌+ℤ◌
rpm-IsWithinSection = record { lower = omega arith; upper = omega arith }

section_lt-priority_lt_example : priority srpm <ℤ priority rpm
unfolding background
section_lt-priority_lt_example =
    section_lt-priority_lt srpm rpm srpm-IsWithinSection rpm-IsWithinSection (omega arith)

get_frontend_tasks-Numbered_example :
    (ts : List BuildQueueTask) × (get_frontend_tasks (srpm_raw ∷ []) ≡ some ts)
    × Numbered [] (srpm_raw ∷ []) ts
unfolding requested_arch new
get_frontend_tasks-Numbered_example = get_frontend_tasks-Numbered (srpm_raw ∷ []) ((none, refl), tt)

abbrev opts : BuildsLimits
opts = record {
  arch = [];
  tag = [];
  arch_per_owner = [];
  sandbox = 1;
  owner = 2;
  blocked_owners = [];
  userssh = 1;
}

build_limits-IsAllowed_example : IsAllowed ((codes "w:13", rpm) ∷ []) ((tt, tt)) srpm opts
unfolding check_all build_limits check worker_added get put text_beq contains
build_limits-IsAllowed_example =
    build_limits-IsAllowed ((codes "w:13", rpm) ∷ []) (tt, tt) srpm opts refl
