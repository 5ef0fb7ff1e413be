-- ===== src/Workers/Manager.antt =====
-- common/copr_common/worker_manager.py, class WorkerManager: its state and its methods.
-- Redis is a dict from key to the hash of a worker; a hash is a record of the fields that the
-- manager reads, where a flag is true if the field is there. Time is a number of ticks, and each
-- reading of `time.time()` is an argument. `now - t > limit` is written `t + limit < now`.
-- `start_task` and `finish_task` hand over to other processes: the model logs their calls.
-- The log messages and the reaping of zombie processes are left out.
pub mod Ids
pub mod Cleanup
pub mod Fate
use copr.Base.{
  ℕ, ◌+◌, Option, none, some, List, [], ◌∷◌, ◌++◌, Bool, true, false, not, ltb, ◌==◌, ◌&&◌,
  if◌then◌else◌,
}
use copr.Base.Equality.{Text, text_eq, beq}
use copr.Base.Dict.{Dict, get, put, remove, keys, discard}
use copr.Workers.JobQueue
use copr.Workers.JobQueue.{JobQueue, Popped, popped, key_error}
use copr.Workers.Limits.{WorkerLimit, clear_all}

-- The hash of a worker in redis.
pub record WorkerInfo : Type 0 where
  pub allocated : Option ℕ
  pub started : Bool
  pub status : Bool
  pub delete : Bool
  pub checked : Option ℕ
  pub cancel_request : Bool
  pub pid : Option ℕ

-- What `hgetall` gives for a key that is not there.
abbrev pub no_info : WorkerInfo
no_info = record {
  allocated = none;
  started = false;
  status = false;
  delete = false;
  checked = none;
  cancel_request = false;
  pid = none;
}

-- The class variables and `max_workers`, where `none` is float("inf").
pub record Config : Type 0 where
  pub worker_prefix : Text
  pub worker_timeout_start : ℕ
  pub worker_timeout_deadcheck : ℕ
  pub worker_cleanup_period : ℕ
  pub max_workers : Option ℕ

pub record WorkerManager (T : Type 0) : Type 0 where
  pub tasks : JobQueue T
  pub tracked_workers : List Text
  pub limits : List (WorkerLimit T)
  pub redis : Dict Text WorkerInfo
  pub last_worker_cleanup : ℕ
  -- The calls of `start_task` and of `finish_task`, first to last.
  pub started : List (Text × T)
  pub finished : List Text

-- What one round of the loop of `run` reads from outside: the clock, three times, which processes
-- live, and what other processes did to the database since the round before.
pub record Round : Type 0 where
  pub now : ℕ
  pub cleanup_now : ℕ
  pub cleanup_end : ℕ
  pub alive : ℕ → Bool
  pub outside : Dict Text WorkerInfo → Dict Text WorkerInfo

abbrev pub or_default {ℓ} : {A : Type ℓ} → Option A → A → A
or_default none d = d
or_default (some a) d = a

abbrev pub starts_with : Text → Text → Bool
starts_with [] t = true
starts_with (c ∷ s) [] = false
starts_with (c ∷ s) (d ∷ t) = c == d && starts_with s t

-- text.rsplit(c, 1), with none where there is no second part.
unfoldable pub rsplit_rest : ℕ → ℕ → Text → Option (Text × Text) → Option (Text × Text)
rsplit_rest c x xs (some (a, b)) = some (x ∷ a, b)
rsplit_rest c x xs none = if x == c then some ([], xs) else none

unfoldable pub rsplit : ℕ → Text → Option (Text × Text)
unfolding rsplit_rest
rsplit c [] = none
rsplit c (x ∷ xs) = rsplit_rest c x xs (rsplit c xs)

abbrev pub colon : ℕ
colon = b':'

unfoldable pub get_worker_id : Text → Text → Text
get_worker_id prefix task_id = prefix ++ colon ∷ task_id

-- `none` is the ValueError of the unpacking, or the AssertionError.
abbrev pub checked_prefix : Text → Option (Text × Text) → Option Text
checked_prefix worker_prefix none = none
checked_prefix worker_prefix (some (prefix, task_id)) =
    if beq prefix worker_prefix then some task_id else none

unfoldable pub get_task_id_from_worker_id : Text → Text → Option Text
unfolding rsplit
get_task_id_from_worker_id worker_prefix worker_id =
    checked_prefix worker_prefix (rsplit colon worker_id)

-- redis.keys(prefix + ':*'), for a prefix without the pattern's special characters.
unfoldable pub matching_keys : Text → List Text → List Text
matching_keys prefix [] = []
matching_keys prefix (k ∷ ks) =
    let rest = matching_keys prefix ks in
    if starts_with (prefix ++ colon ∷ []) k then k ∷ rest else rest

abbrev pub hgetall : Dict Text WorkerInfo → Text → WorkerInfo
hgetall redis key = or_default (get redis key) no_info

unfoldable pub has_worker_started : WorkerInfo → Bool
has_worker_started info = info.started

unfoldable pub has_worker_ended : WorkerInfo → Bool
has_worker_ended info = info.status

-- `os.kill(pid, 0)` succeeds for the processes in `alive`.
abbrev pub pid_alive : (ℕ → Bool) → Option ℕ → Bool
pid_alive alive none = false
pid_alive alive (some pid) = alive pid

unfoldable pub is_worker_alive : (ℕ → Bool) → WorkerInfo → Bool
is_worker_alive alive info = pid_alive alive info.pid

module _ {T : Type 0} where
  -- redis.hset(key, field, value), where `write` sets the field.
  abbrev pub hset : Text → (WorkerInfo → WorkerInfo) → WorkerManager T → WorkerManager T
  hset key write m = record m { redis = put m.redis key (write (hgetall m.redis key)) }

  unfoldable pub worker_ids : Config → WorkerManager T → List Text
  unfolding matching_keys
  worker_ids cfg m = matching_keys cfg.worker_prefix (keys m.redis)

  unfoldable pub delete_worker : Text → WorkerManager T → WorkerManager T
  delete_worker worker_id m = record m {
    redis = remove m.redis worker_id;
    tracked_workers = discard m.tracked_workers worker_id;
  }

  unfoldable pub finish_task : Text → WorkerManager T → WorkerManager T
  finish_task worker_id m = record m { finished = m.finished ++ worker_id ∷ [] }

  unfoldable pub clean_tasks : WorkerManager T → WorkerManager T
  clean_tasks m = record m { tasks = JobQueue.empty; limits = clear_all m.limits }

  -- The end of the loop's body: a worker that was not checked for long.
  unfoldable pub deadcheck :
      Config → (ℕ → Bool) → ℕ → Text → WorkerInfo → ℕ → WorkerManager T → WorkerManager T
  unfolding is_worker_alive
  deadcheck cfg alive now worker_id info allocated m =
      let checked = or_default info.checked allocated in
      let m' = hset worker_id (λ i. record i { checked = some now }) m in
      if ltb (checked + cfg.worker_timeout_deadcheck) now
      then (if is_worker_alive alive info
          then m'
          else hset worker_id (λ i. record i { delete = true }) m')
      else m

  -- The body of the loop of `_cleanup_workers`, after `allocated` was read.
  unfoldable pub clean_allocated :
      Config → (ℕ → Bool) → ℕ → Text → WorkerInfo → Option ℕ → WorkerManager T → WorkerManager T
  unfolding deadcheck has_worker_ended has_worker_started finish_task delete_worker
  clean_allocated cfg alive now worker_id info none m = delete_worker worker_id m
  clean_allocated cfg alive now worker_id info (some allocated) m =
      if has_worker_ended info
      then delete_worker worker_id (finish_task worker_id m)
      else if info.delete
      then delete_worker worker_id m
      else if not (has_worker_started info)
      then (if ltb (allocated + cfg.worker_timeout_start) now then delete_worker worker_id m else m)
      else deadcheck cfg alive now worker_id info allocated m

  unfoldable pub clean_worker : Config → (ℕ → Bool) → ℕ → Text → WorkerManager T → WorkerManager T
  unfolding clean_allocated
  clean_worker cfg alive now worker_id m =
      let info = hgetall m.redis worker_id in
      clean_allocated cfg alive now worker_id info info.allocated m

  unfoldable pub clean_each :
      Config → (ℕ → Bool) → ℕ → List Text → WorkerManager T → WorkerManager T
  clean_each cfg alive now [] m = m
  clean_each cfg alive now (w ∷ ws) m = clean_each cfg alive now ws (clean_worker cfg alive now w m)

  unfoldable pub cleanup_workers : Config → Round → WorkerManager T → WorkerManager T
  unfolding worker_ids
  cleanup_workers cfg r m =
      if ltb r.cleanup_now (m.last_worker_cleanup + cfg.worker_cleanup_period)
      then m
      else let m' = record m { last_worker_cleanup = r.cleanup_end } in
        clean_each cfg r.alive r.cleanup_now (worker_ids cfg m') m'
