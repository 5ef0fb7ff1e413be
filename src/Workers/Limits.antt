-- ===== src/Workers/Limits.antt =====
-- common/copr_common/worker_manager.py: WorkerLimit and its subclasses PredicateWorkerLimit and
-- HashWorkerLimit. A limit counts the tasks of the workers that run now.
-- Its class is a tag with the predicate or hasher and its state; `name` and `info`, the text for the
-- log, are left out. Tasks are of any type `T`.
pub mod Counts
pub mod Respected
use copr.Base.{ℕ, Option, List, [], ◌∷◌, Bool, true, ltb, length, ◌&&◌, if◌then◌else◌}
use copr.Base.Equality.{Text, text_eq}
use copr.Base.Dict.{Dict, put}
use copr.Workers.StringCounter

pub data WorkerLimit (T : Type 0) : Type 0 where
  predicate_limit : (predicate : T → Bool) (limit : ℕ) (refs : Dict Text Bool) → WorkerLimit T
  hash_limit :
      (hasher : T → Option Text) (limit : ℕ) (groups : Dict Text ℕ) (refs : Dict Text (Option Text))
      → WorkerLimit T

module _ {T : Type 0} where
  -- PredicateWorkerLimit(predicate, limit) and HashWorkerLimit(hasher, limit)
  abbrev pub new_predicate_limit : (T → Bool) → ℕ → WorkerLimit T
  new_predicate_limit predicate limit = predicate_limit predicate limit []

  abbrev pub new_hash_limit : (T → Option Text) → ℕ → WorkerLimit T
  new_hash_limit hasher limit = hash_limit hasher limit [] []

  unfoldable pub clear : WorkerLimit T → WorkerLimit T
  clear (predicate_limit predicate limit refs) = predicate_limit predicate limit []
  clear (hash_limit hasher limit groups refs) = hash_limit hasher limit [] []

  unfoldable pub worker_added : Text → T → WorkerLimit T → WorkerLimit T
  unfolding StringCounter.add
  worker_added worker_id task (predicate_limit predicate limit refs) =
      predicate_limit predicate limit (if predicate task then put refs worker_id true else refs)
  worker_added worker_id task (hash_limit hasher limit groups refs) =
      let group_name = hasher task in
      hash_limit hasher limit (StringCounter.add groups group_name) (put refs worker_id group_name)

  unfoldable pub check : T → WorkerLimit T → Bool
  unfolding StringCounter.count
  check task (predicate_limit predicate limit refs) =
      if predicate task then ltb (length refs) limit else true
  check task (hash_limit hasher limit groups refs) =
      ltb (StringCounter.count groups (hasher task)) limit

  -- _calculate_limits_for_task: every limit learns of the worker.
  unfoldable pub calculate_limits_for_task : Text → T → List (WorkerLimit T) → List (WorkerLimit T)
  calculate_limits_for_task worker_id task [] = []
  calculate_limits_for_task worker_id task (l ∷ ls) =
      worker_added worker_id task l ∷ calculate_limits_for_task worker_id task ls

  unfoldable pub clear_all : List (WorkerLimit T) → List (WorkerLimit T)
  clear_all [] = []
  clear_all (l ∷ ls) = clear l ∷ clear_all ls

  -- The `for limit in self._limits` loop of `run`: false is `break_on_limit`.
  unfoldable pub check_all : T → List (WorkerLimit T) → Bool
  check_all task [] = true
  check_all task (l ∷ ls) = check task l && check_all task ls
