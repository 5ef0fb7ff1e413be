-- ===== src/Frontend/Batch/Setup.antt =====
-- How builds get into batches: `setup_batch` of frontend/coprs_frontend/coprs/logic/builds_logic.py,
-- `get_batch_or_create` of logic/batches_logic.py, and the checks of models.py before it. The lock on
-- the table of batches is held by the one who is modelled. A new row has the next id.
use copr.Base.{
  ℕ, suc, Option, none, some, List, [], ◌∷◌, Bool, true, false, not, ◌&&◌, ◌||◌, ◌==◌,
  if◌then◌else◌,
}
use copr.Base.Equality.{nat_eq}
use copr.Base.Dict.{contains}
use copr.Base.Maybe.{◌>>=◌}
use copr.Frontend.User.{Copr, Permission, User, can_build_in}
use copr.Frontend.Build.{Build, finished}
use copr.Frontend.Batch.{Batch, Database, finished_slow}

-- `batch_of` is the column batch_id of a build.
pub record Session : Type 0 where
  pub db : Database
  pub build : ℕ → Option Build
  pub batch_of : ℕ → Option ℕ
  pub next_id : ℕ

-- `assigned_projects`, without those of `seen`.
unfoldable pub assigned_projects : List ℕ → List Build → List Copr
assigned_projects seen [] = []
assigned_projects seen (build ∷ builds) =
    let new = build.copr ∷ assigned_projects (build.copr.id ∷ seen) builds in
    if contains seen build.copr.id then assigned_projects seen builds else new

unfoldable pub any_can_build : List Permission → User → List Copr → Bool
unfolding can_build_in
any_can_build table user [] = false
any_can_build table user (copr ∷ coprs) =
    let (can, user') = can_build_in table user copr in can || any_can_build table user' coprs

unfoldable pub can_assign_builds : List Permission → User → List Build → Bool
unfolding any_can_build assigned_projects
can_assign_builds table user [] = true
can_assign_builds table user (build ∷ builds) =
    any_can_build table user (assigned_projects [] (build ∷ builds))

-- What the messages of `batching_user_error` say.
pub data BatchingError : Type 0 where
  batch_finished not_yours cannot_build build_finished : BatchingError

unfoldable pub joining_error :
    Database → List ℕ → List Permission → User → Batch → Bool → Option BatchingError
unfolding finished_slow can_assign_builds
joining_error db cache table user batch modify =
    if not modify
    then none
    else if (finished_slow db cache batch).0
    then some batch_finished
    else if can_assign_builds table user (db.builds batch.id)
    then none
    else some not_yours

unfoldable pub new_batch_error : List Permission → User → Build → Option BatchingError
new_batch_error table user build =
    if not (can_build_in table user build.copr).0
    then some cannot_build
    else if finished build
    then some build_finished
    else none

-- With the build's batch, if it has one.
unfoldable pub batching_user_error :
    Database → List ℕ → List Permission → User → Build → Option Batch → Bool → Option BatchingError
unfolding joining_error new_batch_error
batching_user_error db cache table user build (some batch) modify =
    joining_error db cache table user batch modify
batching_user_error db cache table user build none modify = new_batch_error table user build

abbrev pub set {ℓ} : {A : Type ℓ} → (ℕ → A) → ℕ → A → ℕ → A
set f i a j = if i == j then a else f j

-- db.session.add(Batch()), blocked by another or by none
abbrev pub add_batch : Option ℕ → Session → Session
add_batch blocked_by_id s = record s {
  db = record s.db {
    batch =
        set s.db.batch s.next_id (some (record { id = s.next_id; blocked_by_id = blocked_by_id }));
    builds = set s.db.builds s.next_id [];
  };
  next_id = suc s.next_id;
}

-- build.batch = Batch()
abbrev pub put_in_new : Build → Session → Session
put_in_new build s =
    let t = add_batch none s in
    record t {
      db = record t.db { builds = set t.db.builds s.next_id (build ∷ []) };
      batch_of = set t.batch_of build.id (some s.next_id);
    }

abbrev pub existing_batch : Session → ℕ → Option Batch
existing_batch s build_id = s.batch_of build_id >>= s.db.batch

-- The batch's id, and what the session has then.
abbrev pub batch_or_new : Option Batch → Build → Session → ℕ × Session
batch_or_new (some batch) build s = (batch.id, s)
batch_or_new none build s = (s.next_id, put_in_new build s)

abbrev pub unless_error : Option BatchingError → ℕ × Session → Option (ℕ × Session)
unless_error (some error) r = none
unless_error none r = some r

-- `none` is the BadRequest.
unfoldable pub get_batch_or_create :
    List ℕ → List Permission → User → ℕ → Bool → Session → Option (ℕ × Session)
unfolding batching_user_error
get_batch_or_create cache table requestor build_id modify s = s.build build_id >>= (λ build.
    let batch = existing_batch s build.id in
    unless_error (batching_user_error s.db cache table requestor build batch modify)
      (batch_or_new batch build s))

-- An id that is None or 0 is not given.
abbrev pub given : Option ℕ → Bool
given none = false
given (some i) = not (i == 0)

abbrev pub or_zero : Option ℕ → ℕ
or_zero none = 0
or_zero (some i) = i

abbrev pub blocked_by_new : ℕ × Session → Option ℕ × Session
blocked_by_new (old, s) = (some s.next_id, add_batch (some old) s)

abbrev pub as_some : ℕ × Session → Option ℕ × Session
as_some (batch, s) = (some batch, s)

unfoldable pub setup_batch :
    List ℕ
    → List Permission
    → User
    → Option ℕ
    → Option ℕ
    → Bool
    → Session
    → Option (Option ℕ × Session)
unfolding get_batch_or_create
setup_batch cache table user after_build_id with_build_id always_create s =
    if given with_build_id && given after_build_id
    then none
    else if given with_build_id
    then get_batch_or_create cache table user (or_zero with_build_id) true s
      >>= (λ r. some (as_some r))
    else if given after_build_id
    then get_batch_or_create cache table user (or_zero after_build_id) false s
      >>= (λ r. some (blocked_by_new r))
    else if always_create
    then some (some s.next_id, add_batch none s)
    else some (none, s)
