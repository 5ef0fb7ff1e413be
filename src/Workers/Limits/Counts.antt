-- ===== src/Workers/Limits/Counts.antt =====
-- What the limits count, and that a worker which passed every check keeps them all.
use copr.Base.{
  ℕ, suc, ◌+◌, ◌≡◌, ◌≢◌, refl, ◌∙◌, Option, none, some, List, [], ◌∷◌, Bool, true, ltb, length,
  arith, All, Bool-cases, inl, inr, if◌then◌else◌,
}
use copr.Base.Equality.{Text, text_eq, beq_iff}
use copr.Base.Dict.{Dict, get, put, get-put}
use copr.Workers.StringCounter
use copr.Workers.StringCounter.{same_string}
use copr.Workers.Limits.{
  WorkerLimit, predicate_limit, hash_limit, new_predicate_limit, new_hash_limit, worker_added,
  check,
}

length-put_new :
    (refs : Dict Text Bool) (w : Text)
    → get refs w ≡ none
    → length (put refs w true) ≡ suc (length refs)
unfolding get put
length-put_new [] w h = refl
length-put_new ((v, b) ∷ refs) w h = ground (arith, length-put_new refs w)

module _ {T : Type 0} where
  -- The limit after these workers were added, first to last.
  abbrev pub workers_added : List (Text × T) → WorkerLimit T → WorkerLimit T
  workers_added [] l = l
  workers_added ((w, t) ∷ ws) l = workers_added ws (worker_added w t l)

  -- How many of the workers have a task in the group. None is no group.
  abbrev pub in_group : (T → Option Text) → Option Text → List (Text × T) → ℕ
  in_group hasher none ws = 0
  in_group hasher (some g) [] = 0
  in_group hasher (some g) ((w, t) ∷ ws) = same_string (hasher t) g + in_group hasher (some g) ws

  check_hash :
      (hasher : T → Option Text) (limit : ℕ) (groups : Dict Text ℕ) (refs : Dict Text (Option Text))
      (ws : List (Text × T)) (t : T) (g : Option Text)
      → hasher t ≡ g
      → check t (workers_added ws (hash_limit hasher limit groups refs))
        ≡ ltb (StringCounter.count groups g + in_group hasher g ws) limit
  unfolding check worker_added
  check_hash hasher limit groups refs [] t none e = rw e (ground arith)
  check_hash hasher limit groups refs [] t (some g) e = rw e (ground arith)
  check_hash hasher limit groups refs ((w, x) ∷ ws) t none e =
      check_hash hasher limit (StringCounter.add groups (hasher x)) (put refs w (hasher x)) ws t
        none e
  check_hash hasher limit groups refs ((w, x) ∷ ws) t (some g) e = ground (
    arith,
    StringCounter.count-add groups (hasher x) g,
    check_hash hasher limit (StringCounter.add groups (hasher x)) (put refs w (hasher x)) ws t
        (some g) e,
  )

  -- After any workers, a hash limit lets a task in exactly if its group has fewer than `limit` of
  -- them. A task with no group counts for zero: it passes exactly if `limit` is not zero.
  pub check-workers_added_hash :
      (hasher : T → Option Text) (limit : ℕ) (ws : List (Text × T)) (t : T)
      → check t (workers_added ws (new_hash_limit hasher limit))
        ≡ ltb (in_group hasher (hasher t) ws) limit
  check-workers_added_hash hasher limit ws t =
      check_hash hasher limit [] [] ws t (hasher t) refl
      ∙ ground (arith, StringCounter.count-empty (hasher t))

  -- How many of the workers have a task that the predicate holds of.
  abbrev pub matching : (T → Bool) → List (Text × T) → ℕ
  matching predicate [] = 0
  matching predicate ((w, t) ∷ ws) = (if predicate t then 1 else 0) + matching predicate ws

  -- No worker id occurs twice.
  abbrev pub DistinctIds : List (Text × T) → Type 0
  DistinctIds [] = Unit
  DistinctIds ((w, t) ∷ ws) = All (λ v. w ≢ v.0) ws × DistinctIds ws

  All-put :
      (refs : Dict Text Bool) (w : Text) (ws : List (Text × T))
      → All (λ v. w ≢ v.0) ws
      → All (λ v. get refs v.0 ≡ none) ws
      → All (λ v. get (put refs w true) v.0 ≡ none) ws
  All-put refs w [] d a = tt
  All-put refs w ((v, t) ∷ ws) d a =
      (ground (arith, get-put refs w true v, beq_iff w v), All-put refs w ws d.1 a.1)

  check_predicate :
      (predicate : T → Bool) (limit : ℕ) (refs : Dict Text Bool) (ws : List (Text × T)) (t : T)
      → DistinctIds ws
      → All (λ v. get refs v.0 ≡ none) ws
      → check t (workers_added ws (predicate_limit predicate limit refs))
        ≡ (if predicate t then ltb (length refs + matching predicate ws) limit else true)
  unfolding check worker_added
  check_predicate predicate limit refs [] t d a = ground arith
  check_predicate predicate limit refs ((w, x) ∷ ws) t d a = elim (Bool-cases (predicate x)) [
    | inl e ↦ rw e (
        ground (
          arith,
          length-put_new refs w a.0,
          check_predicate predicate limit (put refs w true) ws t d.1 (All-put refs w ws d.0 a.1),
        ))
    | inr e ↦ rw e (ground (arith, check_predicate predicate limit refs ws t d.1 a.1))
  ]

  none_tracked : (ws : List (Text × T)) → All (λ v. get {V = Bool} [] v.0 ≡ none) ws
  unfolding get
  none_tracked [] = tt
  none_tracked (w ∷ ws) = (refl, none_tracked ws)

  -- After workers with different ids, a predicate limit lets every task in that the predicate does
  -- not hold of, and any other exactly if fewer than `limit` of the workers' tasks match.
  pub check-workers_added_predicate :
      (predicate : T → Bool) (limit : ℕ) (ws : List (Text × T)) (t : T)
      → DistinctIds ws
      → check t (workers_added ws (new_predicate_limit predicate limit))
        ≡ (if predicate t then ltb (matching predicate ws) limit else true)
  check-workers_added_predicate predicate limit ws t d =
      check_predicate predicate limit [] ws t d (none_tracked ws) ∙ ground arith
