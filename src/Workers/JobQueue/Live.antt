-- ===== src/Workers/JobQueue/Live.antt =====
-- The abstract queue: the tasks that wait, in the order in which they will be taken.
-- An operation of the specification works on this list alone.
use copr.Base.{ℕ, ◌≡◌, ◌≢◌, Option, none, some, List, [], ◌∷◌, true, All, ◌==◌, if◌then◌else◌}
use copr.Base.Int.{ℤ}
use copr.Base.Equality.{Text, text_eq, beq}
use copr.Workers.JobQueue.{Entry, precedes}

pub record Item (A : Type 0) : Type 0 where
  pub priority : ℤ
  pub count : ℕ
  pub task : A

module _ {A : Type 0} where
  abbrev pub live_entry : Entry A → Option A → List (Item A) → List (Item A)
  live_entry e none rest = rest
  live_entry e (some t) rest = record { priority = e.priority; count = e.count; task = t } ∷ rest

  -- The placeholders are forgotten.
  abbrev pub live : List (Entry A) → List (Item A)
  live [] = []
  live (e ∷ es) = live_entry e e.task (live es)

  unfoldable pub insert : Item A → List (Item A) → List (Item A)
  insert i [] = i ∷ []
  insert i (x ∷ xs) =
      let rest = insert i xs in
      if precedes i.priority i.count x.priority x.count then i ∷ x ∷ xs else x ∷ rest

  unfoldable pub drop_count : ℕ → List (Item A) → List (Item A)
  drop_count c [] = []
  drop_count c (x ∷ xs) = let rest = drop_count c xs in if x.count == c then rest else x ∷ rest

  abbrev pub SortedEntries : List (Entry A) → Type 0
  SortedEntries [] = Unit
  SortedEntries (x ∷ xs) =
      All (λ y. precedes x.priority x.count y.priority y.count ≡ true) xs × SortedEntries xs

  abbrev pub Sorted : List (Item A) → Type 0
  Sorted [] = Unit
  Sorted (x ∷ xs) = All (λ y. precedes x.priority x.count y.priority y.count ≡ true) xs × Sorted xs

module _ {A : Type 0} (repr : A → Text) where
  unfoldable pub drop_id : Text → List (Item A) → List (Item A)
  drop_id id [] = []
  drop_id id (x ∷ xs) = let rest = drop_id id xs in if beq (repr x.task) id then rest else x ∷ rest

  -- The count of the first item with this id.
  unfoldable pub find : Text → List (Item A) → Option ℕ
  find id [] = none
  find id (x ∷ xs) = if beq (repr x.task) id then some x.count else find id xs

  -- No two items share an id or a count.
  abbrev pub Distinct : List (Item A) → Type 0
  Distinct [] = Unit
  Distinct (x ∷ xs) = (find (repr x.task) xs ≡ none) × All (λ y. y.count ≢ x.count) xs × Distinct xs
