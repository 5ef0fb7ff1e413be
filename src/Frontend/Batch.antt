-- ===== src/Frontend/Batch.antt =====
-- frontend/coprs_frontend/coprs/models.py, class Batch, and `batch_chain` of logic/batches_logic.py.
-- The database gives a batch and its builds by the batch's id; `cache` holds the ids with a
-- "batch_finished_<id>" key in the redis cache, whose expiry only loses a shortcut. The recursion
-- along `blocked_by` is on fuel, as nothing in these functions bounds it. A value that an object
-- keeps for itself (`_is_finished`) is the value that it was computed from.
pub mod Chain
pub mod Setup
pub mod Ordered
use copr.Base.{
  ℕ, zero, suc, Option, none, some, List, [], ◌∷◌, Bool, true, false, not, ◌&&◌, ◌||◌, ◌==◌,
  if◌then◌else◌,
}
use copr.Base.Equality.{Text, codes, nat_eq}
use copr.Base.Dict.{contains, add}
use copr.Base.Maybe.{◌>>=◌}
use copr.Frontend.Build.{Build, finished}

pub record Batch : Type 0 where
  pub id : ℕ
  pub blocked_by_id : Option ℕ

pub record Database : Type 0 where
  pub batch : ℕ → Option Batch
  pub builds : ℕ → List Build

unfoldable pub all_builds_finished : List Build → Bool
all_builds_finished [] = true
all_builds_finished (build ∷ builds) = finished build && all_builds_finished builds

-- No builds are assigned to the batch yet: it is not finished.
unfoldable pub finished_by_builds : List Build → List ℕ → Batch → Bool × List ℕ
unfolding all_builds_finished
finished_by_builds [] cache self = (false, cache)
finished_by_builds (build ∷ builds) cache self =
    if all_builds_finished (build ∷ builds) then (true, add cache self.id) else (false, cache)

-- `finished_slow`, with what it leaves in the cache.
unfoldable pub finished_slow : Database → List ℕ → Batch → Bool × List ℕ
unfolding finished_by_builds
finished_slow db cache self =
    if contains cache self.id
    then (true, cache)
    else finished_by_builds (db.builds self.id) cache self

-- The `blocked_by` relation; an id is falsy only where it is None or 0.
unfoldable pub blocked_by : Database → Batch → Option Batch
blocked_by db self = self.blocked_by_id >>= db.batch

-- What `blocked` answers once it has looked at the parent, which is blocked or not.
unfoldable pub unless_finished : Database → Batch → Bool × List ℕ → Option (Bool × List ℕ)
unfolding finished_slow
unless_finished db parent (true, cache) = some (true, cache)
unless_finished db parent (false, cache) =
    let (is_finished, cache') = finished_slow db cache parent in some (not is_finished, cache')

-- The code of `blocked` around its own call for the parent, `parent_blocked`.
unfoldable pub by_parent :
    Database → List ℕ → (Batch → Option (Bool × List ℕ)) → Option ℕ → Option (Bool × List ℕ)
unfolding unless_finished
by_parent db cache parent_blocked none = some (false, cache)
by_parent db cache parent_blocked (some i) =
    if i == 0
    then some (false, cache)
    else (db.batch i >>= (λ parent. parent_blocked parent >>= unless_finished db parent))

-- `none` is an exception, where the parent is not in the database, or out of fuel.
unfoldable pub blocked : ℕ → Database → List ℕ → Batch → Option (Bool × List ℕ)
unfolding by_parent
blocked zero db cache self = none
blocked (suc fuel) db cache self = by_parent db cache (blocked fuel db cache) self.blocked_by_id

-- `while batch: chain.append(batch); batch = batch.blocked_by`
unfoldable pub chain_from : ℕ → Database → Option Batch → Option (List Batch)
unfolding blocked_by
chain_from fuel db none = some []
chain_from zero db (some self) = none
chain_from (suc fuel) db (some self) =
    chain_from fuel db (blocked_by db self) >>= (λ rest. some (self ∷ rest))

unfoldable pub batch_chain : ℕ → Database → ℕ → Option (List Batch)
unfolding chain_from
batch_chain fuel db batch_id = chain_from fuel db (db.batch batch_id)
