-- ===== src/Workers/JobQueue/Order.antt =====
-- In which order the tasks of a JobQueue are taken.
use copr.Base.{
  ℕ, ◌<◌, ◌≡◌, refl, ◌∙◌, List, [], ◌∷◌, ◌++◌, true, arith, All, Bool-cases, Option-cases, inl, inr,
  if◌then◌else◌,
}
use copr.Base.Int.{ℤ, ltb_ℤ}
use copr.Base.Equality.{Text, text_eq, beq}
use copr.Workers.JobQueue.{Entry, JobQueue, precedes, popped, add_task, pop_task}
use copr.Workers.JobQueue.Live.{Item, live, insert, SortedEntries, Sorted, drop_id}
use copr.Workers.JobQueue.Invariant.{IsValid}
use copr.Workers.JobQueue.Index.{All-drop_id}
use copr.Workers.JobQueue.Refines.{add_task-Adds}
use copr.Workers.JobQueue.Pops.{PopsFirst, pop_task-PopsFirst}

module _ {A : Type 0} where
  All-live :
      (P : ℤ → ℕ → Type 0) (es : List (Entry A))
      → All (λ e. P e.priority e.count) es
      → All (λ (i : Item A). P i.priority i.count) (live es)
  All-live P [] h = tt
  All-live P (e ∷ es) h = elim (Option-cases e.task) [
    | inl k ↦ rw k (All-live P es h.1)
    | inr (t, k) ↦ rw k (h.0, All-live P es h.1)
  ]

  pub live-Sorted : (es : List (Entry A)) → SortedEntries es → Sorted (live es)
  live-Sorted [] s = tt
  live-Sorted (e ∷ es) s = elim (Option-cases e.task) [
    | inl k ↦ rw k (live-Sorted es s.1)
    | inr (t, k) ↦
        rw k (All-live (λ p c. precedes e.priority e.count p c ≡ true) es s.0, live-Sorted es s.1)
  ]

  -- The items that are at least as urgent as `p`, and the others.
  abbrev pub at_most : ℤ → List (Item A) → List (Item A)
  at_most p [] = []
  at_most p (x ∷ xs) = let rest = at_most p xs in if ltb_ℤ p x.priority then rest else x ∷ rest

  abbrev pub above : ℤ → List (Item A) → List (Item A)
  above p [] = []
  above p (x ∷ xs) = let rest = above p xs in if ltb_ℤ p x.priority then x ∷ rest else rest

  above-All :
      (p : ℤ) (x : Item A) (xs : List (Item A))
      → ltb_ℤ p x.priority ≡ true
      → All (λ y. precedes x.priority x.count y.priority y.count ≡ true) xs
      → (at_most p xs ≡ []) × (above p xs ≡ xs)
  above-All p x [] h s = (refl, refl)
  above-All p x (y ∷ ys) h s = ground (arith, above-All p x ys h s.1)

  insert_stable :
      (i : Item A) (l : List (Item A))
      → Sorted l
      → All (λ y. y.count < i.count) l
      → insert i l ≡ at_most i.priority l ++ i ∷ above i.priority l
  unfolding insert
  insert_stable i [] s f = refl
  insert_stable i (x ∷ xs) s f = elim (Bool-cases (ltb_ℤ i.priority x.priority)) [
    | inl e ↦ ground (arith, above-All i.priority x xs e s.0)
    | inr e ↦ ground (arith, insert_stable i xs s.1 f.1)
  ]

module _ {A : Type 0} (repr : A → Text) where
  Sorted-drop_id : (id : Text) (l : List (Item A)) → Sorted l → Sorted (drop_id repr id l)
  unfolding drop_id
  Sorted-drop_id id [] s = tt
  Sorted-drop_id id (x ∷ xs) s = elim (Bool-cases (beq (repr x.task) id)) [
    | inl e ↦ rw e (Sorted-drop_id id xs s.1)
    | inr e ↦ rw e (
      All-drop_id repr (λ y. precedes x.priority x.count y.priority y.count ≡ true) id xs s.0,
      Sorted-drop_id id xs s.1,
    )
  ]

  -- A task added to a valid queue is taken behind every waiting task of at most its priority number, in the order
  -- of arrival, and before all with a higher number; an older task of its id is gone.
  pub add_task_stable :
      (t : A) (p : ℤ) (q : JobQueue A)
      → IsValid repr q
      → let others : List (Item A) = drop_id repr (repr t) (live q.prio_queue) in
        let new : Item A = record { priority = p; count = q.counter; task = t } in
        live (add_task repr t p q).prio_queue ≡ at_most p others ++ new ∷ above p others
  add_task_stable t p q v =
      (add_task-Adds repr t p q v).shown
      ∙ insert_stable (record { priority = p; count = q.counter; task = t })
          (drop_id repr (repr t) (live q.prio_queue))
          (Sorted-drop_id (repr t) (live q.prio_queue) (live-Sorted q.prio_queue v.sorted))
          (All-drop_id repr (λ y. y.count < q.counter) (repr t) (live q.prio_queue)
            (All-live (λ _ c. c < q.counter) q.prio_queue v.fresh))

  -- What is known of a task that was popped from `q`, with the queue `r` left.
  pub record IsLeast (q r : JobQueue A) (t : A) : Type 0 where
    pub item : Item A
    pub is_task : item.task ≡ t
    pub was_first : live q.prio_queue ≡ item ∷ live r.prio_queue
    pub least :
        All (λ y. precedes item.priority item.count y.priority y.count ≡ true) (live r.prio_queue)

  -- A task popped from a valid queue has the lowest priority number of all that wait, the oldest
  -- among equals, and nothing else leaves the queue.
  pub pop_task-IsLeast :
      (q : JobQueue A) (t : A)
      → IsValid repr q
      → (pop_task repr q).0 ≡ popped t
      → IsLeast q (pop_task repr q).1 t
  pop_task-IsLeast q t v h = go (live q.prio_queue) refl (pop_task-PopsFirst repr q v)
    where
      go :
          (l : List (Item A))
          → live q.prio_queue ≡ l
          → PopsFirst repr l q (pop_task repr q)
          → IsLeast q (pop_task repr q).1 t
      go [] e p = cc
      go (x ∷ xs) e p =
          let s : Sorted (x ∷ xs) = rw e at (live-Sorted q.prio_queue v.sorted) in
          record { item = x; is_task = cc; was_first = rw p.1.shown e; least = rw p.1.shown s.0 }
