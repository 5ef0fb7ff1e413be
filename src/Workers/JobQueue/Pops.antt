-- ===== src/Workers/JobQueue/Pops.antt =====
-- `pop_task` of JobQueue, common/copr_common/worker_manager.py, keeps the invariant and takes the first
-- live entry.
use copr.Base.{
  ℕ, ◌<◌, ◌≡◌, refl, sym, ap, ◌∙◌, Option, none, some, List, [], ◌∷◌, arith, All, Bool-cases,
  Option-cases, inl, inr,
}
use copr.Base.Equality.{Text, text_eq, beq, beq_iff, beq_refl}
use copr.Base.Dict.{Dict, get, remove, get-remove}
use copr.Workers.JobQueue.{
  Entry, JobQueue, pop_entry, Popped, popped, key_error, finish_pop, pop_task,
}
use copr.Workers.JobQueue.Live.{Item, live, SortedEntries, find, Distinct}
use copr.Workers.JobQueue.Invariant.{IsValid, pop_entry-Sorted, All-pop_entry}
use copr.Workers.JobQueue.Refines.{Shows}

module _ {A : Type 0} (repr : A → Text) where
  -- The first live entry is taken, and the KeyError means that there is none.
  abbrev pub PopsFirst : List (Item A) → JobQueue A → Popped A × JobQueue A → Type 0
  PopsFirst [] q (found, r) = (found ≡ key_error) × Shows repr q r []
  PopsFirst (x ∷ xs) q (found, r) = (found ≡ popped x.task) × Shows repr q r xs

  abbrev PopsEntry : List (Item A) → Option A × List (Entry A) → Type 0
  PopsEntry [] (found, rest) = (found ≡ none) × (live rest ≡ [])
  PopsEntry (x ∷ xs) (found, rest) = (found ≡ some x.task) × (live rest ≡ xs)

  pop_entry-PopsEntry : (es : List (Entry A)) → PopsEntry (live es) (pop_entry es)
  unfolding pop_entry
  pop_entry-PopsEntry [] = (refl, refl)
  pop_entry-PopsEntry (x ∷ xs) = elim (Option-cases x.task) [
    | inl e ↦ rw e (pop_entry-PopsEntry xs)
    | inr (t, e) ↦ rw e (refl, refl)
  ]

  first_found :
      (d : Dict Text ℕ) (x : Item A) (xs : List (Item A))
      → get d (repr x.task) ≡ find repr (repr x.task) (x ∷ xs)
      → get d (repr x.task) ≡ some x.count
  unfolding find
  first_found d x xs h = ground (arith, beq_refl (repr x.task))

  -- Without the first item the index is the index of the rest.
  rest_index :
      (x : Item A) (xs : List (Item A)) (d : Dict Text ℕ) (j : Text)
      → find repr (repr x.task) xs ≡ none
      → get d j ≡ find repr j (x ∷ xs)
      → get (remove d (repr x.task)) j ≡ find repr j xs
  unfolding find
  rest_index x xs d j absent h = elim (Bool-cases (beq (repr x.task) j)) [
    | inl e ↦
        let same : repr x.task ≡ j = (beq_iff (repr x.task) j).0 e in
        get-remove d (repr x.task) j ∙ rw e (sym (rw same at absent))
    | inr e ↦ get-remove d (repr x.task) j ∙ rw e (ground arith)
  ]

  finish_pop-PopsFirst :
      (l : List (Item A)) (q : JobQueue A) (found : Option A) (rest : List (Entry A))
      → IsValid repr q
      → live q.prio_queue ≡ l
      → SortedEntries rest
      → All (λ e. e.count < q.counter) rest
      → PopsEntry l (found, rest)
      → PopsFirst l q (finish_pop repr found (record q { prio_queue = rest }))
  unfolding finish_pop
  finish_pop-PopsFirst [] q found rest v e s f h = rw h.0 (
    refl,
    record {
      valid = record {
        sorted = s;
        fresh = f;
        distinct = rw h.1 tt;
        index = λ j. v.index j ∙ ap (find repr j) (e ∙ sym h.1);
      };
      shown = h.1;
      counted = refl;
    },
  )
  finish_pop-PopsFirst (x ∷ xs) q found rest v e s f h =
      let d : Distinct repr (x ∷ xs) = rw e at v.distinct in
      let held : get q.entry_finder (repr x.task) ≡ some x.count =
        first_found q.entry_finder x xs (v.index (repr x.task) ∙ ap (find repr (repr x.task)) e) in
      rw (h.0, held)
        (
          refl,
          record {
            valid = record {
              sorted = s;
              fresh = f;
              distinct = rw h.1 d.2;
              index = λ j.
                  rw h.1 (rest_index x xs q.entry_finder j d.0 (v.index j ∙ ap (find repr j) e));
            };
            shown = h.1;
            counted = refl;
          },
        )

  -- On a valid queue, `pop_task` gives the first of the waiting tasks and leaves a valid queue of the
  -- others; with none waiting it raises the KeyError, and none waits then.
  pub pop_task-PopsFirst :
      (q : JobQueue A) → IsValid repr q → PopsFirst (live q.prio_queue) q (pop_task repr q)
  unfolding pop_task
  pop_task-PopsFirst q v =
      finish_pop-PopsFirst (live q.prio_queue) q (pop_entry q.prio_queue).0
        (pop_entry q.prio_queue).1 v refl (pop_entry-Sorted q.prio_queue v.sorted)
        (All-pop_entry (λ e. e.count < q.counter) q.prio_queue v.fresh)
        (pop_entry-PopsEntry q.prio_queue)
