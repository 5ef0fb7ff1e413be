-- ===== src/Frontend/Jobs.antt =====
-- `pending_jobs` of frontend/coprs_frontend/coprs/views/backend_ns/backend_general.py: of the pending
-- tasks, the sources' before the chroots', those whose build is not blocked. The lists of pending
-- tasks are arguments, each task with the batch of its build; its record is left as the task.
pub mod Ready
use copr.Base.{ℕ, Option, none, some, List, [], ◌∷◌, ◌++◌, Bool, true, false, not, if◌then◌else◌}
use copr.Base.Maybe.{◌>>=◌}
use copr.Frontend.Batch.{Batch, Database, blocked}

pub record Task : Type 0 where
  pub id : ℕ
  pub batch : Option Batch

-- Build.blocked
unfoldable pub build_blocked : ℕ → Database → List ℕ → Option Batch → Option (Bool × List ℕ)
unfolding blocked
build_blocked fuel db cache none = some (false, cache)
build_blocked fuel db cache (some batch) = blocked fuel db cache batch

unfoldable pub stream : ℕ → Database → List ℕ → List Task → Option (List ℕ × List ℕ)
unfolding build_blocked
stream fuel db cache [] = some ([], cache)
stream fuel db cache (t ∷ ts) = build_blocked fuel db cache t.batch >>= (λ (is_blocked, cache').
    stream fuel db cache' ts
    >>= (λ (rest, cache''). some (if not is_blocked then t.id ∷ rest else rest, cache'')))

unfoldable pub pending_jobs :
    ℕ → Database → List ℕ → List Task → List Task → Option (List ℕ × List ℕ)
unfolding stream
pending_jobs fuel db cache srpm_tasks rpm_tasks =
    stream fuel db cache srpm_tasks >>= (λ (srpms, cache').
      stream fuel db cache' rpm_tasks >>= (λ (rpms, cache''). some (srpms ++ rpms, cache'')))
