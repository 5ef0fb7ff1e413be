-- ===== src/Workers/Limits/Respected.antt =====
-- A worker whose task passed every check never takes a limit past its bound.
use copr.Base.{
  ℕ, suc, ◌≤◌, ◌≡◌, Option, none, some, List, [], ◌∷◌, Bool, true, ltb, length, arith, All,
  Bool-cases, inl, inr,
}
use copr.Base.Equality.{Text, text_eq, beq, beq_iff}
use copr.Base.Dict.{Dict, put}
use copr.Workers.StringCounter
use copr.Workers.StringCounter.{same_string}
use copr.Workers.Limits.{
  WorkerLimit, predicate_limit, hash_limit, calculate_limits_for_task, check_all, clear_all, clear,
  worker_added, check,
}

length-put_le : (refs : Dict Text Bool) (w : Text) → length (put refs w true) ≤ suc (length refs)
unfolding put
length-put_le [] w = omega arith
length-put_le ((v, b) ∷ refs) w = ground (arith, length-put_le refs w)

count_within :
    (groups : Dict Text ℕ) (limit : ℕ) (name : Option Text) (g : Text)
    → ltb (StringCounter.count groups name) limit ≡ true
    → StringCounter.count groups (some g) ≤ limit
    → StringCounter.count (StringCounter.add groups name) (some g) ≤ limit
count_within groups limit none g c h = omega (arith, StringCounter.count-add groups none g)
count_within groups limit (some s) g c h = elim (Bool-cases (beq s g)) [
  | inl e ↦
      let same : s ≡ g = (beq_iff s g).0 e in
      ground (arith, StringCounter.count-add groups (some s) g, rw same at c)
  | inr e ↦ ground (arith, StringCounter.count-add groups (some s) g)
]

module _ {T : Type 0} where
  -- What the limit counts is not past its bound, in any group.
  abbrev pub Within : WorkerLimit T → Type 0
  Within (predicate_limit predicate limit refs) = length refs ≤ limit
  Within (hash_limit hasher limit groups refs) =
      (g : Text) → StringCounter.count groups (some g) ≤ limit

  worker_added-Within :
      (w : Text) (t : T) (l : WorkerLimit T)
      → check t l ≡ true
      → Within l
      → Within (worker_added w t l)
  unfolding check worker_added
  worker_added-Within w t (predicate_limit predicate limit refs) c h =
      ground (arith, length-put_le refs w)
  worker_added-Within w t (hash_limit hasher limit groups refs) c h =
      λ g. count_within groups limit (hasher t) g c (h g)

  -- If every limit lets a task in, no limit is past its bound after its worker is added.
  pub calculate_limits-Within :
      (w : Text) (t : T) (ls : List (WorkerLimit T))
      → check_all t ls ≡ true
      → All Within ls
      → All Within (calculate_limits_for_task w t ls)
  unfolding calculate_limits_for_task check_all
  calculate_limits-Within w t [] c h = tt
  calculate_limits-Within w t (l ∷ ls) c h = (
    worker_added-Within w t l (ground arith) h.0,
    calculate_limits-Within w t ls (ground arith) h.1,
  )

  -- Cleared limits are not past any bound.
  pub clear_all-Within : (ls : List (WorkerLimit T)) → All Within (clear_all ls)
  unfolding clear_all clear
  clear_all-Within [] = tt
  clear_all-Within (predicate_limit predicate limit refs ∷ ls) = (omega arith, clear_all-Within ls)
  clear_all-Within (hash_limit hasher limit groups refs ∷ ls) =
      ((λ g. omega (arith, StringCounter.count-empty (some g))), clear_all-Within ls)
