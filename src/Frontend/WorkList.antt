-- ===== src/Frontend/WorkList.antt =====
-- frontend/coprs_frontend/coprs/helpers.py, class WorkList: a queue that takes each task once.
-- `seen`, a Python set, is kept as a list without repetition.
pub mod Once
use copr.Base.{Option, none, some, List, [], ◌∷◌, Bool, true, false, if◌then◌else◌}
use copr.Base.Equality.{Eq}
use copr.Base.Dict.{contains, add}
use copr.Base.Maybe.{◌>>=◌}

pub record WorkList {ℓ} (A : Type ℓ) : Type ℓ where
  pub tasks : List A
  pub seen : List A

module _ {ℓ} {A : Type ℓ} where
  -- `list.pop()`, which takes the last element; `none` is the IndexError.
  unfoldable pub pop_last : List A → Option (A × List A)
  pop_last [] = none
  pop_last (x ∷ []) = some (x, [])
  pop_last (x ∷ y ∷ ys) = pop_last (y ∷ ys) >>= (λ (a, rest). some (a, x ∷ rest))

  unfoldable pub empty : WorkList A → Bool
  empty w = is_empty w.tasks
    where
      is_empty : List A → Bool
      is_empty [] = true
      is_empty (x ∷ xs) = false

  unfoldable pub pop : WorkList A → Option (A × WorkList A)
  unfolding pop_last
  pop w = pop_last w.tasks >>= (λ (a, rest). some (a, record w { tasks = rest }))

module _ {ℓ} {A : Type ℓ} ⦃e : Eq A⦄ where
  unfoldable pub schedule : WorkList A → A → Bool × WorkList A
  schedule w task =
      if contains w.seen task
      then (false, w)
      else (true, record { tasks = task ∷ w.tasks; seen = add w.seen task })

  unfoldable pub schedule_all : WorkList A → List A → WorkList A
  unfolding schedule
  schedule_all w [] = w
  schedule_all w (task ∷ rest) = schedule_all (schedule w task).1 rest

  unfoldable pub new : List A → WorkList A
  unfolding schedule_all
  new initial_tasks = schedule_all (record { tasks = []; seen = [] }) initial_tasks
