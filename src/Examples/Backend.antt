-- ===== src/Examples/Backend.antt =====
-- What the frontend answers to the backend, and how builds get into batches, at concrete inputs.
use copr.Base.{
  ℕ, ◌≡◌, refl, Option, none, some, List, [], ◌∷◌, true, false, arith, ◌==◌, if◌then◌else◌,
}
use copr.Base.Int.{pos}
use copr.Base.Equality.{codes, text_eq, nat_eq}
use copr.Base.Dict.{contains}
use copr.Frontend.Status.{value}
use copr.Frontend.Build.{Build, finished}
use copr.Frontend.Batch.{Database}
use copr.Frontend.Batch.Chain.{IsRight}
use copr.Frontend.Batch.Setup.{Session, setup_batch}
use copr.Frontend.Batch.Ordered.{IsWellFormed, setup_batch-IsWellFormed}
use copr.Frontend.Update.{TaskId}
use copr.Frontend.Backend.{
  Action, pending_actions, Rescheduled, done, not_found, cancelled, not_running,
  reschedule_build_chroot,
}
use copr.Frontend.Backend.Waiting.{expected, pending_actions-expected}
use copr.Frontend.Jobs.{Task, pending_jobs}
use copr.Frontend.Jobs.Ready.{ready, pending_jobs-ready}
use copr.Examples.Frontend.{jane, build, second, db, db-IsOrdered}

abbrev empty_db : Database
empty_db = record { batch = λ i. none; builds = λ i. [] }

abbrev only_build : ℕ → Option Build
only_build i = if i == 7 then some build else none

abbrev session : Session
session = record { db = empty_db; build = only_build; batch_of = λ i. none; next_id = 1 }

session-IsWellFormed : IsWellFormed session
session-IsWellFormed = record {
  ordered = λ b i h. ground (arith, h);
  row = λ i b h. ground (arith, h);
  positive = omega arith;
}

abbrev or_session : Option (Option ℕ × Session) → Option ℕ × Session
or_session none = (none, session)
or_session (some r) = r

unfoldable after_seven : Option ℕ × Session
unfolding setup_batch
after_seven = or_session (setup_batch [] [] jane (some 7) none false session)

setup_batch-IsWellFormed_example : IsWellFormed after_seven.1
unfolding after_seven value contains finished
setup_batch-IsWellFormed_example =
    setup_batch-IsWellFormed [] [] jane (some 7) none false session after_seven session-IsWellFormed
      refl

abbrev task : TaskId
task = TaskId.of_chroot 7 (codes "fedora-41-x86_64")

abbrev build_of : Option Rescheduled → Build
build_of none = build
build_of (some not_found) = build
build_of (some cancelled) = build
build_of (some not_running) = build
build_of (some (done b)) = b

unfoldable put_back_build : Build
unfolding reschedule_build_chroot
put_back_build =
    build_of (reschedule_build_chroot 100 task (codes "fedora-41-x86_64") none (some build))

abbrev deletion : Action
deletion = record {
  id = 1;
  deletes_project = true;
  project = some (codes "jane/hello");
  owner_name = codes "jane";
  priority = none;
  default_priority = pos 0;
}

abbrev fork : Action
fork = record deletion { id = 2; deletes_project = false; priority = some (pos 3) }

pending_actions-expected_example :
    pending_actions (deletion ∷ fork ∷ []) ≡ some (expected [] (deletion ∷ fork ∷ []))
pending_actions-expected_example =
    pending_actions-expected (deletion ∷ fork ∷ [])
      ((λ h. (codes "jane/hello", refl)), ((λ h. (codes "jane/hello", refl)), tt))

abbrev blocked_task : Task
blocked_task = record { id = 8; batch = some second }

abbrev free_task : Task
free_task = record { id = 9; batch = none }

pending_jobs-ready_example :
    (cache' : List ℕ) × (pending_jobs 3 db [] (blocked_task ∷ []) (free_task ∷ [])
      ≡ some (ready 3 db (blocked_task ∷ free_task ∷ []), cache'))
    × IsRight db cache'
unfolding contains
pending_jobs-ready_example =
    pending_jobs-ready 3 db db-IsOrdered [] (blocked_task ∷ []) (free_task ∷ [])
      (λ i h. ground (arith, h)) ((refl, omega arith), tt) (tt, tt)
