-- ===== src/Workers/Run/Dispatch.antt =====
-- One turn of `Dispatcher.run` from any state.
use copr.Base.{
  ℕ, ◌≡◌, refl, Option, none, some, List, [], ◌∷◌, Bool, false, Bool-cases, inl, inr, if_ind,
}
use copr.Base.Int.{ℤ}
use copr.Base.Equality.{Text, text_eq}
use copr.Base.Dict.{contains, get}
use copr.Workers.JobQueue
use copr.Workers.JobQueue.{JobQueue}
use copr.Workers.JobQueue.Live.{Item, live, find, drop_id}
use copr.Workers.JobQueue.Invariant.{IsValid}
use copr.Workers.JobQueue.Index.{All-insert, All-drop_id}
use copr.Workers.JobQueue.Refines.{RemovesId, remove_task_by_id-RemovesId, add_task-Adds}
use copr.Workers.Manager.{
  Config, WorkerManager, Round, or_default, clean_tasks, get_worker_id, worker_ids,
}
use copr.Workers.Run.{
  drop_task_id_safe, cancel_task_id, add_task, add_tasks, refill, cancel_tasks, dispatch,
}
use copr.Workers.Run.Starts.{id_of, IsSound, run-IsSound}

module _ {T : Type 0} (repr : T → Text) (priority : T → ℤ) (cfg : Config) where
  add_task-IsSound :
      (t : T) (m : WorkerManager T)
      → IsSound repr cfg m
      → IsSound repr cfg (add_task repr priority cfg t m)
  unfolding add_task
  add_task-IsSound t m s =
      let w : Text = get_worker_id cfg.worker_prefix (repr t) in
      let l : List (Item T) = live m.tasks.prio_queue in
      let added = add_task-Adds repr t (priority t) m.tasks s.valid in
      elim (Bool-cases (contains m.tracked_workers w)) [
        | inl e ↦ rw e (record { valid = s.valid; untracked = s.untracked })
        | inr e ↦ rw e (record {
          valid = added.valid;
          untracked = rw added.shown (
              All-insert repr
                (λ (i : Item T). contains m.tracked_workers (id_of repr cfg i.task) ≡ false)
                (record { priority = priority t; count = m.tasks.counter; task = t })
                (drop_id repr (repr t) l) e
                (All-drop_id repr
                  (λ (i : Item T). contains m.tracked_workers (id_of repr cfg i.task) ≡ false)
                  (repr t) l s.untracked));
        })
      ]

  add_tasks-IsSound :
      (ts : List T) (m : WorkerManager T)
      → IsSound repr cfg m
      → IsSound repr cfg (add_tasks repr priority cfg ts m)
  unfolding add_tasks
  add_tasks-IsSound [] m s = s
  add_tasks-IsSound (t ∷ ts) m s =
      add_tasks-IsSound ts (add_task repr priority cfg t m) (add_task-IsSound t m s)

  empty-IsValid : IsValid repr (JobQueue.empty {A = T})
  unfolding JobQueue.empty find get
  empty-IsValid = record { sorted = tt; fresh = tt; distinct = tt; index = λ id. refl }

  -- A manager with an emptied queue is sound.
  clean_tasks-IsSound : (m : WorkerManager T) → IsSound repr cfg (clean_tasks m)
  unfolding clean_tasks JobQueue.empty
  clean_tasks-IsSound m = record { valid = empty-IsValid; untracked = tt }

  refill-IsSound :
      (ts : List T) (m : WorkerManager T)
      → IsSound repr cfg m
      → IsSound repr cfg (refill repr priority cfg ts m)
  unfolding refill
  refill-IsSound [] m s = s
  refill-IsSound (t ∷ ts) m s = add_tasks-IsSound (t ∷ ts) (clean_tasks m) (clean_tasks-IsSound m)

  drop_task_id_safe-IsSound :
      (id : Text) (m : WorkerManager T)
      → IsSound repr cfg m
      → IsSound repr cfg (drop_task_id_safe id m)
  unfolding drop_task_id_safe
  drop_task_id_safe-IsSound id m s =
      go (JobQueue.remove_task_by_id id m.tasks)
        (remove_task_by_id-RemovesId repr id m.tasks s.valid)
    where
      go :
          (o : Option (JobQueue T))
          → RemovesId repr id m.tasks o
          → IsSound repr cfg (record m { tasks = or_default o m.tasks })
      go none h = record { valid = s.valid; untracked = s.untracked }
      go (some r) h = record {
        valid = h.1.valid;
        untracked = rw h.1.shown (
            All-drop_id repr
              (λ (i : Item T). contains m.tracked_workers (id_of repr cfg i.task) ≡ false) id
              (live m.tasks.prio_queue) s.untracked);
      }

  cancel_task_id-IsSound :
      (id : Text) (m : WorkerManager T)
      → IsSound repr cfg m
      → IsSound repr cfg (cancel_task_id cfg id m).1
  unfolding cancel_task_id
  cancel_task_id-IsSound id m s =
      let m' : WorkerManager T = drop_task_id_safe id m in
      let s' : IsSound repr cfg m' = drop_task_id_safe-IsSound id m s in
      if_ind (λ (p : Bool × WorkerManager T). IsSound repr cfg p.1)
        (contains (worker_ids cfg m') (get_worker_id cfg.worker_prefix id))
        (record { valid = s'.valid; untracked = s'.untracked }) s'

  cancel_tasks-IsSound :
      (ids : List Text) (m : WorkerManager T)
      → IsSound repr cfg m
      → IsSound repr cfg (cancel_tasks cfg ids m).1
  unfolding cancel_tasks
  cancel_tasks-IsSound [] m s = s
  cancel_tasks-IsSound (id ∷ ids) m s =
      cancel_tasks-IsSound ids (cancel_task_id cfg id m).1 (cancel_task_id-IsSound id m s)

  -- From a sound manager, a whole turn of the dispatcher leaves a sound one: the queue is valid and no
  -- task that waits has a tracked worker, whatever tasks and cancel requests the
  -- frontend gives.
  pub dispatch-IsSound :
      (timeout : Option ℕ) (start : ℕ) (ts : List T) (cancels : List Text) (rs : List Round)
      (m : WorkerManager T)
      → IsSound repr cfg m
      → IsSound repr cfg (dispatch repr priority cfg timeout start ts cancels rs m).1
  unfolding dispatch
  dispatch-IsSound timeout start ts cancels rs m s =
      run-IsSound repr cfg timeout start rs
        (cancel_tasks cfg cancels (refill repr priority cfg ts m)).1
        (cancel_tasks-IsSound cancels (refill repr priority cfg ts m) (refill-IsSound ts m s))
