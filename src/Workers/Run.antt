-- ===== src/Workers/Run.antt =====
-- common/copr_common/worker_manager.py, class WorkerManager: `add_task`, `cancel_task_id`,
-- `_start_worker` and the loop of `run`, and common/copr_common/dispatcher.py: one turn of the
-- loop of `Dispatcher.run`. A task is of any type `T`, with its `repr` and its `priority`.
-- `run` takes the rounds that it gets to do as a list; a run whose list ends is still in the loop.
-- Other processes write to the database between two rounds, and not during one.
pub mod Bounds
pub mod Starts
pub mod Dispatch
use copr.Base.{
  ℕ, ◌+◌, Option, none, some, List, [], ◌∷◌, ◌++◌, Bool, true, false, not, ltb, leb, ◌==◌, length,
  if◌then◌else◌,
}
use copr.Base.Int.{ℤ}
use copr.Base.Equality.{Text, text_eq}
use copr.Base.Dict.{contains, add}
use copr.Workers.JobQueue
use copr.Workers.JobQueue.{JobQueue, Popped, popped, key_error}
use copr.Workers.Limits.{calculate_limits_for_task, check_all}
use copr.Workers.Manager.{
  Config, WorkerManager, Round, or_default, hset, get_worker_id, worker_ids, clean_tasks,
  cleanup_workers,
}

-- `worker_count >= self.max_workers`
abbrev pub at_limit : Option ℕ → ℕ → Bool
at_limit none count = false
at_limit (some max) count = leb max count

-- `not now - start_time < timeout`, where none is float("inf").
abbrev pub timed_out : Option ℕ → ℕ → ℕ → Bool
timed_out none start now = false
timed_out (some timeout) start now = not (ltb now (start + timeout))

module _ {T : Type 0} (repr : T → Text) where
  unfoldable pub start_worker : Config → T → ℕ → WorkerManager T → WorkerManager T
  start_worker cfg task time_now m =
      let worker_id = get_worker_id cfg.worker_prefix (repr task) in
      let m' = hset worker_id (λ i. record i { allocated = some time_now }) m in
      record m' {
        tracked_workers = add m.tracked_workers worker_id;
        limits = calculate_limits_for_task worker_id task m.limits;
        started = m.started ++ (worker_id, task) ∷ [];
      }

  -- One round after the pop: true is to go on with the loop.
  unfoldable pub after_pop : Config → ℕ → ℕ → Popped T → WorkerManager T → Bool × WorkerManager T
  unfolding start_worker
  after_pop cfg now worker_count key_error m = (not (worker_count == 0), m)
  after_pop cfg now worker_count (popped task) m =
      if check_all task m.limits then (true, start_worker cfg task now m) else (true, m)

  unfoldable pub allocate : Config → ℕ → WorkerManager T → Bool × WorkerManager T
  unfolding after_pop
  allocate cfg now m =
      let worker_count = length m.tracked_workers in
      if at_limit cfg.max_workers worker_count
      then (true, m)
      else (let (found, tasks) = JobQueue.pop_task repr m.tasks in
          after_pop cfg now worker_count found (record m { tasks = tasks }))

  -- The body of the `while True` of `run`.
  unfoldable pub round : Config → Option ℕ → ℕ → Round → WorkerManager T → Bool × WorkerManager T
  unfolding allocate
  round cfg timeout start r m =
      let m' = record m { redis = r.outside m.redis } in
      if timed_out timeout start r.now
      then (false, m')
      else allocate cfg r.now (cleanup_workers cfg r m')

  -- True means that the loop has not ended in these rounds.
  unfoldable pub loop :
      Config → Option ℕ → ℕ → List Round → WorkerManager T → Bool × WorkerManager T
  loop cfg timeout start [] m = (true, m)
  loop cfg timeout start (r ∷ rs) m =
      let (go_on, m') = round cfg timeout start r m in
      let rest = loop cfg timeout start rs m' in if go_on then rest else (false, m')

  -- The first round's `now` is `start`.
  unfoldable pub run : Config → Option ℕ → ℕ → List Round → WorkerManager T → Bool × WorkerManager T
  run cfg timeout start rounds m =
      loop cfg timeout start rounds (record m { last_worker_cleanup = 0 })

module _ {T : Type 0} where
  -- `_drop_task_id_safe`: the KeyError is passed over.
  unfoldable pub drop_task_id_safe : Text → WorkerManager T → WorkerManager T
  drop_task_id_safe task_id m = record m {
    tasks = or_default (JobQueue.remove_task_by_id task_id m.tasks) m.tasks;
  }

  -- True if the worker runs on background; it was then asked to cancel.
  unfoldable pub cancel_task_id : Config → Text → WorkerManager T → Bool × WorkerManager T
  unfolding drop_task_id_safe
  cancel_task_id cfg task_id m =
      let m' = drop_task_id_safe task_id m in
      let worker_id = get_worker_id cfg.worker_prefix task_id in
      if contains (worker_ids cfg m') worker_id
      then (true, hset worker_id (λ i. record i { cancel_request = true }) m')
      else (false, m')

  -- The loop on the cancel requests, with what is reported for each: (task_id, was_running).
  unfoldable pub cancel_tasks :
      Config → List Text → WorkerManager T → List (Text × Bool) × WorkerManager T
  cancel_tasks cfg [] m = ([], m)
  cancel_tasks cfg (id ∷ ids) m =
      let (was_running, m') = cancel_task_id cfg id m in
      let (reports, m'') = cancel_tasks cfg ids m' in ((id, was_running) ∷ reports, m'')

module _ {T : Type 0} (repr : T → Text) (priority : T → ℤ) where
  unfoldable pub add_task : Config → T → WorkerManager T → WorkerManager T
  add_task cfg task m =
      let worker_id = get_worker_id cfg.worker_prefix (repr task) in
      if contains m.tracked_workers worker_id
      then record m { limits = calculate_limits_for_task worker_id task m.limits }
      else record m { tasks = JobQueue.add_task repr task (priority task) m.tasks }

  -- `for task in tasks: worker_manager.add_task(task)`
  unfoldable pub add_tasks : Config → List T → WorkerManager T → WorkerManager T
  add_tasks cfg [] m = m
  add_tasks cfg (t ∷ ts) m = add_tasks cfg ts (add_task cfg t m)

  -- `if tasks: worker_manager.clean_tasks()`
  unfoldable pub refill : Config → List T → WorkerManager T → WorkerManager T
  unfolding add_tasks
  refill cfg [] m = m
  refill cfg (t ∷ ts) m = add_tasks cfg (t ∷ ts) (clean_tasks m)

  -- One turn of the loop of `Dispatcher.run`, with what the frontend answered.
  unfoldable pub dispatch :
      Config
      → Option ℕ
      → ℕ
      → List T
      → List Text
      → List Round
      → WorkerManager T
      → List (Text × Bool) × WorkerManager T
  unfolding refill cancel_tasks run
  dispatch cfg timeout start tasks cancels rounds m =
      let (reports, m') = cancel_tasks cfg cancels (refill cfg tasks m) in
      (reports, (run repr cfg timeout start rounds m').1)
