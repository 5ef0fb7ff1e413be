-- ===== src/Createrepo.antt =====
-- backend/copr_backend/createrepo.py, class BatchedCreaterepo: one process does the createrepo
-- tasks of several. A request is a redis hash with the fields "task" and "status"; the JSON text of
-- the task is the record that it encodes, and a Python set is a list without repetition.
-- Other processes write to redis while `options` walks over the keys, so what each `hgetall` finds
-- is a function of the key and not the database in which the keys were listed.
pub mod Merged
pub mod Served
pub mod Complete
pub mod Notified
use copr.Base.{
  ℕ, ◌-◌, Option, none, some, List, [], ◌∷◌, ◌++◌, Bool, true, false, not, leb, length, ◌&&◌, ◌||◌,
  if◌then◌else◌,
}
use mathlib.Core.Option
use copr.Base.Equality.{Text, text_eq, bool_eq, beq, codes}
use copr.Base.Dict.{Dict, get, put, remove, update}
use copr.Workers.Manager.{or_default, starts_with}

abbrev pub max_in_batch : ℕ
max_in_batch = 100

pub record CreaterepoTask : Type 0 where
  pub appstream : Bool
  pub devel : Bool
  pub add : List Text
  pub delete : List Text
  pub full : Bool
  pub rpms_to_remove : List Text

-- A hash that is there has at least one of the fields.
pub record Request : Type 0 where
  pub task : Option CreaterepoTask
  pub status : Option Text

abbrev pub Redis : Type 0
Redis = Dict Text Request

pub record BatchedCreaterepo : Type 0 where
  pub noop : Bool
  pub dirname : Text
  pub pid : Text
  pub redis_task : CreaterepoTask
  pub notify_keys : List Text

pub record Options : Type 0 where
  pub full : Bool
  pub add : List Text
  pub delete : List Text
  pub rpms_to_remove : List Text

abbrev pub success : Text
success = codes "success"

abbrev pub no_request : Request
no_request = record { task = none; status = none }

-- The keys that match `key_pattern` are those that begin so.
unfoldable pub key_prefix : BatchedCreaterepo → Text
key_prefix self = codes "createrepo_batched::" ++ (self.dirname ++ codes "::")

unfoldable pub key : BatchedCreaterepo → Text
unfolding key_prefix
key self = key_prefix self ++ self.pid

abbrev pub hset_task : Redis → Text → CreaterepoTask → Redis
hset_task redis k task =
    put redis k (record (or_default (get redis k) no_request) { task = some task })

abbrev pub hset_status : Redis → Text → Text → Redis
hset_status redis k status =
    put redis k (record (or_default (get redis k) no_request) { status = some status })

unfoldable pub make_request : BatchedCreaterepo → Redis → Option Text × Redis
make_request self redis =
    if self.noop
    then (none, redis)
    else (some (key self), hset_task redis (key self) self.redis_task)

-- redis.hget(key, "status") == "success"
unfoldable pub has_success : Redis → Text → Bool
has_success redis k = is_success (or_default (get redis k) no_request).status
  where
    is_success : Option Text → Bool
    is_success none = false
    is_success (some s) = beq s success

unfoldable pub check_processed : BatchedCreaterepo → Bool → Redis → Bool × Redis
unfolding has_success
check_processed self delete_if_not redis =
    if self.noop
    then (false, redis)
    else let status = has_success redis (key self) in
      (status, if status || delete_if_not then remove redis (key self) else redis)

-- What `options` gathers: the merged options, and `self.notify_keys`.
pub record Gathered : Type 0 where
  pub options : Options
  pub notify_keys : List Text

-- `for attr in ["devel", "appstream"]`: false is `skip`.
abbrev pub is_compatible : BatchedCreaterepo → CreaterepoTask → Bool
is_compatible self task =
    beq task.devel self.redis_task.devel && beq task.appstream self.redis_task.appstream

-- The full request is inherited, which drops the list of additions.
unfoldable pub merge : CreaterepoTask → Options → Options
merge task o =
    let full = o.full || task.full in
    let add = if task.full then [] else o.add in
    record {
      full = full;
      add = if full then add else update add task.add;
      delete = update o.delete task.delete;
      rpms_to_remove = update o.rpms_to_remove task.rpms_to_remove;
    }

abbrev pub gather : Text → CreaterepoTask → Gathered → Gathered
gather k task g = record { options = merge task g.options; notify_keys = g.notify_keys ++ k ∷ [] }

-- What a key means for the loop of `options`: an exception, nothing, or a task to merge.
pub data Visit : Type 0 where
  fails passes : Visit
  merges : CreaterepoTask → Visit

-- The rest of the loop's body, where `rest` is the loop over the keys that follow.
unfoldable pub on_visit : Text → Visit → Gathered → (Gathered → Option Gathered) → Option Gathered
on_visit k fails g rest = none
on_visit k passes g rest = rest g
on_visit k (merges task) g rest =
    let g' = gather k task g in
    if leb (max_in_batch - 1) (length g'.notify_keys) then some g' else rest g'

module _ (self : BatchedCreaterepo) (hgetall : Text → Option Request) where
  -- `task_dict["task"]`, with the KeyError where there is none.
  unfoldable pub visit_task : Option CreaterepoTask → Visit
  visit_task none = fails
  visit_task (some task) = if is_compatible self task then merges task else passes

  unfoldable pub visit_status : Option Text → Request → Visit
  unfolding visit_task
  visit_status (some status) request = passes
  visit_status none request = visit_task request.task

  unfoldable pub visit_request : Option Request → Visit
  unfolding visit_status
  visit_request none = passes
  visit_request (some request) = visit_status request.status request

  -- `assert key != self.key`, and the checks up to "we can process this task!".
  unfoldable pub visit : Text → Visit
  unfolding visit_request
  visit k = if beq k (key self) then fails else visit_request (hgetall k)

  -- The loop over the listed keys; `none` is an exception.
  unfoldable pub gather_keys : List Text → Gathered → Option Gathered
  unfolding visit on_visit
  gather_keys [] g = some g
  gather_keys (k ∷ ks) g = on_visit k (visit k) g (gather_keys ks)

abbrev pub no_options : Options
no_options = record { full = false; add = []; delete = []; rpms_to_remove = [] }

abbrev pub with_keys : BatchedCreaterepo → Gathered → Options × BatchedCreaterepo
with_keys self g = (g.options, record self { notify_keys = g.notify_keys })

-- `listed` is what `redis.keys(self.key_pattern)` gave.
unfoldable pub options :
    BatchedCreaterepo → List Text → (Text → Option Request) → Option (Options × BatchedCreaterepo)
unfolding gather_keys
options self listed hgetall =
    if self.noop
    then some (no_options, self)
    else Option.map (with_keys self) (
        gather_keys self hgetall listed
          (record { options = no_options; notify_keys = self.notify_keys }))

unfoldable pub notify_all : List Text → Redis → Redis
notify_all [] redis = redis
notify_all (k ∷ ks) redis = notify_all ks (hset_status redis k success)

unfoldable pub commit : BatchedCreaterepo → Redis → Redis
unfolding notify_all
commit self redis = if self.noop then redis else notify_all self.notify_keys redis
