-- ===== src/Examples/Workers.antt =====
-- The job queue and the worker manager of common/copr_common/worker_manager.py at concrete inputs.
use copr.Base.{ℕ, ◌⊎◌, ◌≡◌, refl, none, some, List, [], ◌∷◌, ◌++◌, Bool, true, false, arith, ltb}
use copr.Base.Int.{pos}
use copr.Base.Equality.{Text, codes, text_eq, text_beq}
use copr.Base.Dict.{get, put, contains}
use copr.Workers.JobQueue
use copr.Workers.JobQueue.{JobQueue, Popped, popped, key_error, empty, pop_task, remove_task_by_id}
use copr.Workers.JobQueue.Live.{live, drop_id}
use copr.Workers.JobQueue.Invariant.{IsValid, empty-IsValid}
use copr.Workers.JobQueue.Refines.{RemovesId, Adds, remove_task_by_id-RemovesId, add_task-Adds}
use copr.Workers.JobQueue.Pops.{PopsFirst, pop_task-PopsFirst}
use copr.Workers.JobQueue.Order.{IsLeast, at_most, above, add_task_stable, pop_task-IsLeast}
use copr.Workers.StringCounter
use copr.Workers.Limits.{WorkerLimit, new_predicate_limit, new_hash_limit, check}
use copr.Workers.Limits.Counts.{workers_added, in_group, check-workers_added_hash}
use copr.Workers.Manager.{
  WorkerInfo, Config, WorkerManager, Round, no_info, get_worker_id, is_worker_alive, clean_worker,
}
use copr.Workers.Manager.Fate.{IsRunning, IsGone, clean_worker-finished, dead_worker-IsGone}
use copr.Workers.Run.{round, run, dispatch}
use copr.Workers.Run.Bounds.{IsBounded, run-IsBounded}
use copr.Workers.Run.Starts.{IsSound, IsStart, cleaned, round-IsSound}
use copr.Workers.Run.Dispatch.{dispatch-IsSound}

-- Tasks that are their own ids.
abbrev same : Text → Text
same t = t

abbrev one_task : JobQueue Text
one_task = JobQueue.add_task same (codes "a") (pos 2) empty

abbrev two_tasks : JobQueue Text
two_tasks = JobQueue.add_task same (codes "b") (pos 1) one_task

one_task-IsValid : IsValid same one_task
one_task-IsValid = (add_task-Adds same (codes "a") (pos 2) empty (empty-IsValid same)).valid

two_tasks-IsValid : IsValid same two_tasks
two_tasks-IsValid = (add_task-Adds same (codes "b") (pos 1) one_task one_task-IsValid).valid

add_task-Adds_example : Adds same (codes "b") (pos 1) one_task two_tasks
add_task-Adds_example = add_task-Adds same (codes "b") (pos 1) one_task one_task-IsValid

remove_task_by_id-RemovesId_example :
    RemovesId same (codes "a") two_tasks (remove_task_by_id (codes "a") two_tasks)
remove_task_by_id-RemovesId_example =
    remove_task_by_id-RemovesId same (codes "a") two_tasks two_tasks-IsValid

pop_task-PopsFirst_example :
    PopsFirst same (live two_tasks.prio_queue) two_tasks (pop_task same two_tasks)
pop_task-PopsFirst_example = pop_task-PopsFirst same two_tasks two_tasks-IsValid

pop_task-IsLeast_example : IsLeast same two_tasks (pop_task same two_tasks).1 (codes "b")
unfolding pop_task JobQueue.add_task JobQueue.heappush JobQueue.remove_known get put empty text_beq
pop_task-IsLeast_example = pop_task-IsLeast same two_tasks (codes "b") two_tasks-IsValid refl

add_task_stable_example :
    live (JobQueue.add_task same (codes "b") (pos 1) one_task).prio_queue
    ≡ at_most (pos 1) (drop_id same (codes "b") (live one_task.prio_queue))
      ++ record { priority = pos 1; count = 1; task = codes "b" }
        ∷ above (pos 1) (drop_id same (codes "b") (live one_task.prio_queue))
unfolding drop_id JobQueue.add_task JobQueue.heappush JobQueue.remove_known get empty
add_task_stable_example = add_task_stable same (codes "b") (pos 1) one_task one_task-IsValid

-- A limit for each task that starts with "a", and one for each task of itself.
abbrev starts_with_a : Text → Bool
starts_with_a [] = false
starts_with_a (c ∷ t) = ltb c 98

abbrev limits : List (WorkerLimit Text)
limits = new_predicate_limit starts_with_a 1 ∷ new_hash_limit (λ t. some t) 1 ∷ []

check-workers_added_hash_example :
    check
      (codes "b")
      (workers_added ((codes "w:b", codes "b") ∷ []) (new_hash_limit (λ t. some t) 1))
    ≡ ltb (in_group (λ t. some t) (some (codes "b")) ((codes "w:b", codes "b") ∷ [])) 1
check-workers_added_hash_example =
    check-workers_added_hash (λ t. some t) 1 ((codes "w:b", codes "b") ∷ []) (codes "b")

abbrev cfg : Config
cfg = record {
  worker_prefix = codes "w";
  worker_timeout_start = 30;
  worker_timeout_deadcheck = 60;
  worker_cleanup_period = 3;
  max_workers = some 2;
}

-- The process of the worker is 7.
abbrev running_info : WorkerInfo
running_info = record no_info { allocated = some 10; started = true; pid = some 7 }

abbrev manager_with : WorkerInfo → WorkerManager Text
manager_with info = record {
  tasks = two_tasks;
  tracked_workers = codes "w:c" ∷ [];
  limits = limits;
  redis = (codes "w:c", info) ∷ [];
  last_worker_cleanup = 0;
  started = [];
  finished = [];
}

abbrev all_dead : ℕ → Bool
all_dead pid = false

running_info-IsRunning : IsRunning 10 running_info
running_info-IsRunning = record {
  is_allocated_at = refl;
  has_started = refl;
  no_status = refl;
  no_delete = refl;
}

abbrev unstarted : WorkerManager Text
unstarted = manager_with (record no_info { allocated = some 10 })

abbrev ended : WorkerManager Text
ended = manager_with (record running_info { status = true })

clean_worker-finished_example :
    (clean_worker cfg all_dead 100 (codes "w:c") ended).finished ≡ codes "w:c" ∷ []
unfolding get text_beq
clean_worker-finished_example = clean_worker-finished cfg all_dead 100 (codes "w:c") ended

dead_worker-IsGone_example :
    IsGone (codes "w:c") (
      clean_worker cfg all_dead 101
        (codes "w:c")
        (clean_worker cfg all_dead 100 (codes "w:c") (manager_with running_info)))
    × ((clean_worker cfg all_dead 101
          (codes "w:c")
          (clean_worker cfg all_dead 100 (codes "w:c") (manager_with running_info))).finished
        ≡ [])
unfolding get text_beq is_worker_alive
dead_worker-IsGone_example =
    dead_worker-IsGone cfg all_dead all_dead 100 101 (codes "w:c") 10 running_info
      (manager_with running_info) refl running_info-IsRunning refl refl

-- One worker is tracked and two tasks wait.
abbrev manager : WorkerManager Text
manager = manager_with running_info

abbrev unchanged : Round
unchanged = record {
  now = 11;
  cleanup_now = 11;
  cleanup_end = 12;
  alive = λ pid. true;
  outside = λ redis. redis;
}

manager-IsSound : IsSound same cfg manager
unfolding JobQueue.add_task JobQueue.heappush JobQueue.remove_known get put empty text_beq contains
    get_worker_id
manager-IsSound = record { valid = two_tasks-IsValid; untracked = (refl, (refl, tt)) }

manager-IsBounded : IsBounded 2 manager
unfolding StringCounter.count get
manager-IsBounded = record { room = omega arith; within = (omega arith, ((λ t. omega arith), tt)) }

round-IsSound_example :
    (IsSound same cfg (round same cfg none 10 unchanged manager).1
      × ((round same cfg none 10 unchanged manager).1.started ≡ []))
    ⊎ (IsSound same cfg (round same cfg none 10 unchanged manager).1
        × ((t : Text) × IsStart same cfg
              (cleaned same cfg unchanged manager)
              (round same cfg none 10 unchanged manager).1
              t))
round-IsSound_example = round-IsSound same cfg none 10 unchanged manager manager-IsSound

run-IsBounded_example : IsBounded 2 (run same cfg none 10 (unchanged ∷ unchanged ∷ []) manager).1
run-IsBounded_example =
    run-IsBounded same cfg 2 refl none 10 (unchanged ∷ unchanged ∷ []) manager manager-IsBounded

dispatch-IsSound_example :
    IsSound same cfg
      (dispatch same
        (λ t. pos 0)
        cfg
        (some 5)
        10
        (codes "d" ∷ [])
        (codes "a" ∷ [])
        (unchanged ∷ [])
        manager).1
dispatch-IsSound_example =
    dispatch-IsSound same (λ t. pos 0) cfg (some 5) 10 (codes "d" ∷ []) (codes "a" ∷ [])
      (unchanged ∷ []) manager manager-IsSound
