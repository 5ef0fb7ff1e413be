-- ===== src/Workers/JobQueue.antt =====
-- common/copr_common/worker_manager.py, class JobQueue: the priority queue of a WorkerManager.
-- An entry `[priority, count, task]` is a mutable list that the heap and `entry_finder` share. Its
-- `count` is unique, so the model's finder keeps the count for a reference, and writing the
-- placeholder `removed` into `entry[-1]` is `none` in the entry with that count.
-- `heappush` and `heappop` belong to Python's library. What the code relies on is that `heappop`
-- takes the least entry, so the model keeps the entries in that order and not in heapq's array.
pub mod Live
pub mod Invariant
pub mod Index
pub mod Refines
pub mod Pops
pub mod Order
use copr.Base.{ℕ, suc, Option, none, some, List, [], ◌∷◌, Bool, ltb, ◌==◌, if◌then◌else◌}
use copr.Base.Int.{ℤ, ltb_ℤ, eqb_ℤ}
use copr.Base.Equality.{Text, text_eq}
use copr.Base.Dict.{Dict, get, put, remove}

pub record Entry (A : Type 0) : Type 0 where
  pub priority : ℤ
  pub count : ℕ
  pub task : Option A

pub record JobQueue (A : Type 0) : Type 0 where
  pub prio_queue : List (Entry A)
  pub entry_finder : Dict Text ℕ
  pub counter : ℕ

-- `x < y` on `[priority, count, …]`. Counts differ, so the tasks are never compared.
abbrev pub precedes : ℤ → ℕ → ℤ → ℕ → Bool
precedes p c q d = if eqb_ℤ p q then ltb c d else ltb_ℤ p q

-- The result of `pop_task`: a task, or the KeyError.
pub data Popped (A : Type 0) : Type 0 where
  popped : A → Popped A
  key_error : Popped A

module _ {A : Type 0} where
  unfoldable pub heappush : Entry A → List (Entry A) → List (Entry A)
  heappush e [] = e ∷ []
  heappush e (x ∷ xs) =
      let rest = heappush e xs in
      if precedes e.priority e.count x.priority x.count then e ∷ x ∷ xs else x ∷ rest

  -- entry[-1] = self.removed
  unfoldable pub mark_removed : ℕ → List (Entry A) → List (Entry A)
  mark_removed c [] = []
  mark_removed c (x ∷ xs) =
      (if x.count == c then record x { task = none } else x) ∷ mark_removed c xs

  -- JobQueue()
  unfoldable pub empty : JobQueue A
  empty = record { prio_queue = []; entry_finder = []; counter = 0 }

  -- The `while` loop of `pop_task`: drop placeholders from the front up to the first task.
  unfoldable pub pop_entry : List (Entry A) → Option A × List (Entry A)
  pop_entry [] = (none, [])
  pop_entry (x ∷ xs) = elim x.task [ some t ↦ (some t, xs) | none ↦ pop_entry xs ]

  -- What follows `entry_finder.pop`, with the entry that it found.
  unfoldable pub drop_entry : Text → JobQueue A → Option ℕ → Option (JobQueue A)
  drop_entry id q none = none
  drop_entry id q (some c) = some (record q {
    entry_finder = remove q.entry_finder id;
    prio_queue = mark_removed c q.prio_queue;
  })

  -- `none` is the KeyError of `entry_finder.pop`.
  unfoldable pub remove_task_by_id : Text → JobQueue A → Option (JobQueue A)
  unfolding drop_entry
  remove_task_by_id id q = drop_entry id q (get q.entry_finder id)

module _ {A : Type 0} (repr : A → Text) where
  -- `if repr(task) in self.entry_finder: self.remove_task(task)`
  unfoldable pub remove_known : A → JobQueue A → JobQueue A
  unfolding remove_task_by_id
  remove_known task q = elim (remove_task_by_id (repr task) q) [ none ↦ q | some r ↦ r ]

  unfoldable pub add_task : A → ℤ → JobQueue A → JobQueue A
  add_task task priority q =
      let r = remove_known task q in
      record {
        counter = suc r.counter;
        entry_finder = put r.entry_finder (repr task) r.counter;
        prio_queue =
            heappush (record { priority = priority; count = r.counter; task = some task })
              r.prio_queue;
      }

  -- `del self.entry_finder[repr(task)]`, which raises the same KeyError if the task is not there.
  unfoldable pub del_entry : A → JobQueue A → Option ℕ → Popped A × JobQueue A
  del_entry t q none = (key_error, q)
  del_entry t q (some c) = (popped t, record q { entry_finder = remove q.entry_finder (repr t) })

  unfoldable pub finish_pop : Option A → JobQueue A → Popped A × JobQueue A
  unfolding del_entry
  finish_pop none q = (key_error, q)
  finish_pop (some t) q = del_entry t q (get q.entry_finder (repr t))

  unfoldable pub pop_task : JobQueue A → Popped A × JobQueue A
  unfolding pop_entry finish_pop
  pop_task q =
      let (found, rest) = pop_entry q.prio_queue in
      finish_pop found (record q { prio_queue = rest })
