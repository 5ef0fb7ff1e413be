-- ===== src/Frontend/Jobs/Ready.antt =====
-- Which tasks `pending_jobs` of
-- frontend/coprs_frontend/coprs/views/backend_ns/backend_general.py gives out.
use copr.Base.{
  ℕ, ◌≡◌, ◌<◌, refl, sym, ap, ◌∙◌, Option, none, some, List, [], ◌∷◌, ◌++◌, Bool, true, false, not,
  arith, All, if◌then◌else◌,
}
use copr.Frontend.Batch.{Batch, Database, chain_from}
use copr.Frontend.Batch.Chain.{IsOrdered, IsRight, any_unfinished, blocked-Answers}
use copr.Frontend.Jobs.{Task, build_blocked, stream, pending_jobs}

-- No batch above the first of a chain is unfinished.
abbrev pub above_done : Database → Option (List Batch) → Bool
above_done db none = false
above_done db (some []) = false
above_done db (some (b ∷ above)) = not (any_unfinished db above)

abbrev pub is_ready : ℕ → Database → Option Batch → Bool
is_ready fuel db none = true
is_ready fuel db (some b) = above_done db (chain_from fuel db (some b))

unfoldable pub ready : ℕ → Database → List Task → List ℕ
ready fuel db [] = []
ready fuel db (t ∷ ts) =
    let rest = ready fuel db ts in if is_ready fuel db t.batch then t.id ∷ rest else rest

-- The batch of the task is a row of the table, with an id below the fuel.
abbrev pub HasRow : ℕ → Database → Option Batch → Type 0
HasRow fuel db none = Unit
HasRow fuel db (some b) = (db.batch b.id ≡ some b) × (b.id < fuel)

abbrev Blocks : ℕ → Database → List ℕ → Option Batch → Type 0
Blocks fuel db cache o =
    (cache' : List ℕ) × (build_blocked fuel db cache o ≡ some (not (is_ready fuel db o), cache'))
    × IsRight db cache'

not-not : (b : Bool) → not (not b) ≡ b
not-not true = refl
not-not false = refl

build_blocked-Blocks :
    (fuel : ℕ) (db : Database) (cache : List ℕ) (o : Option Batch)
    → IsOrdered db
    → IsRight db cache
    → HasRow fuel db o
    → Blocks fuel db cache o
unfolding build_blocked
build_blocked-Blocks fuel db cache none ordered right has = (cache, refl, right)
build_blocked-Blocks fuel db cache (some b) ordered right has =
    let (above, answer, chain, ran, (same, right')) =
      blocked-Answers fuel db cache b ordered right has.0 has.1 in
    (
      answer.1,
      ran
          ∙ ap (λ x. some (x, answer.1))
              (same
                ∙ sym (not-not (any_unfinished db above))
                ∙ sym (ap (λ c. not (above_done db c)) chain)),
      right',
    )

module _ (fuel : ℕ) (db : Database) (ordered : IsOrdered db) where
  abbrev pub HasRows : List Task → Type 0
  HasRows ts = All (λ (t : Task). HasRow fuel db t.batch) ts

  stream-ready :
      (cache : List ℕ) (ts : List Task)
      → IsRight db cache
      → HasRows ts
      → (cache' : List ℕ) × (stream fuel db cache ts ≡ some (ready fuel db ts, cache'))
        × IsRight db cache'
  unfolding stream ready
  stream-ready cache [] right has = (cache, refl, right)
  stream-ready cache (t ∷ ts) right has =
      let (mid, first, right') = build_blocked-Blocks fuel db cache t.batch ordered right has.0 in
      let (end, rest, right'') = stream-ready mid ts right' has.1 in
      (end, simp (first, rest, not-not (is_ready fuel db t.batch)) refl, right'')

  ready-append :
      (xs ys : List Task) → ready fuel db (xs ++ ys) ≡ ready fuel db xs ++ ready fuel db ys
  unfolding ready
  ready-append [] ys = refl
  ready-append (x ∷ xs) ys = ground (arith, ready-append xs ys)

  -- The tasks given out are the ready ones, in order, the sources' first: those of no batch, or of a
  -- batch above which every batch is finished; where batches are blocked by earlier ones only, the
  -- cache knows only of finished batches, and the fuel is above the ids.
  pub pending_jobs-ready :
      (cache : List ℕ) (srpm_tasks rpm_tasks : List Task)
      → IsRight db cache
      → HasRows srpm_tasks
      → HasRows rpm_tasks
      → (cache' : List ℕ) × (pending_jobs fuel db cache srpm_tasks rpm_tasks
          ≡ some (ready fuel db (srpm_tasks ++ rpm_tasks), cache'))
        × IsRight db cache'
  unfolding pending_jobs
  pending_jobs-ready cache srpms rpms right has has' =
      let (mid, first, right') = stream-ready cache srpms right has in
      let (end, second, right'') = stream-ready mid rpms right' has' in
      (end, simp (first, second, ready-append srpms rpms) refl, right'')
