-- ===== src/Workers/JobQueue/Refines.antt =====
-- `add_task` and `remove_task_by_id` of JobQueue, common/copr_common/worker_manager.py: each keeps
-- the invariant and does on the live entries what the specification does.
use copr.Base.{
  ℕ, suc, ◌<◌, ◌≡◌, ◌≢◌, refl, sym, ap, ◌∙◌, Option, none, some, List, [], ◌∷◌, arith, All,
  Option-cases, inl, inr,
}
use copr.Base.Int.{ℤ}
use copr.Base.Equality.{Text, text_eq, beq_refl}
use copr.Base.Dict.{get, put, remove, get-put, get-remove}
use copr.Workers.JobQueue.{
  Entry, JobQueue, heappush, mark_removed, remove_task_by_id, drop_entry, remove_known, add_task,
}
use copr.Workers.JobQueue.Live.{Item, live, insert, drop_id, find}
use copr.Workers.JobQueue.Invariant.{
  IsValid, heappush-Sorted, All-heappush, All-mark_removed, mark_removed-Sorted, All-fresh_suc,
}
use copr.Workers.JobQueue.Index.{
  live-heappush, live-mark_removed, find-drop_id, drop_id_absent, drop_count-eq-drop_id,
  find-insert, Distinct-drop_id, Distinct-insert,
}

module _ {A : Type 0} (repr : A → Text) where
  -- The queue `r` is valid, and its live entries are those of `l`.
  pub record Shows (q r : JobQueue A) (l : List (Item A)) : Type 0 where
    pub valid : IsValid repr r
    pub shown : live r.prio_queue ≡ l
    pub counted : r.counter ≡ q.counter

  -- The KeyError comes exactly for an id that does not wait; else the id is dropped.
  abbrev pub RemovesId : Text → JobQueue A → Option (JobQueue A) → Type 0
  RemovesId id q none = find repr id (live q.prio_queue) ≡ none
  RemovesId id q (some r) =
      (find repr id (live q.prio_queue) ≢ none) × Shows q r (drop_id repr id (live q.prio_queue))

  remove_found :
      (id : Text) (q : JobQueue A) (c : ℕ)
      → IsValid repr q
      → get q.entry_finder id ≡ some c
      → Shows q
          (record q {
            entry_finder = remove q.entry_finder id;
            prio_queue = mark_removed c q.prio_queue;
          })
          (drop_id repr id (live q.prio_queue))
  remove_found id q c v g =
      let l : List (Item A) = live q.prio_queue in
      let shows : live (mark_removed c q.prio_queue) ≡ drop_id repr id l =
        live-mark_removed c q.prio_queue
        ∙ drop_count-eq-drop_id repr id c l v.distinct (sym (v.index id) ∙ g) in
      record {
        valid = record {
          sorted = mark_removed-Sorted c q.prio_queue v.sorted;
          fresh = All-mark_removed (λ p d. d < q.counter) c q.prio_queue v.fresh;
          distinct = rw shows (Distinct-drop_id repr id l v.distinct);
          index = λ j.
              rw shows (
                ground
                  (arith, get-remove q.entry_finder id j, find-drop_id repr id l j, v.index j));
        };
        shown = shows;
        counted = refl;
      }

  -- On a valid queue, `remove_task_by_id` raises the KeyError exactly for an id that does not wait;
  -- for one that does, the queue stays valid and its waiting tasks are the others, in their order.
  pub remove_task_by_id-RemovesId :
      (id : Text) (q : JobQueue A) → IsValid repr q → RemovesId id q (remove_task_by_id id q)
  unfolding remove_task_by_id
  remove_task_by_id-RemovesId id q v = go (get q.entry_finder id) refl
    where
      go : (o : Option ℕ) → get q.entry_finder id ≡ o → RemovesId id q (drop_entry id q o)
      go none e = sym (v.index id) ∙ e
      go (some c) e = ((λ f. cc (v.index id)), remove_found id q c v e)

  -- After `if repr(task) in self.entry_finder: self.remove_task(task)` the id does not wait.
  remove_known-Shows :
      (t : A) (q : JobQueue A)
      → IsValid repr q
      → Shows q (remove_known repr t q) (drop_id repr (repr t) (live q.prio_queue))
  unfolding remove_known
  remove_known-Shows t q v =
      go (remove_task_by_id (repr t) q) (remove_task_by_id-RemovesId (repr t) q v)
    where
      go :
          (o : Option (JobQueue A))
          → RemovesId (repr t) q o
          → Shows q (elim o [ none ↦ q | some r ↦ r ]) (drop_id repr (repr t) (live q.prio_queue))
      go none f = record {
        valid = v;
        shown = sym (drop_id_absent repr (repr t) (live q.prio_queue) f);
        counted = refl;
      }
      go (some r) h = h.1

  -- The specification of `add_task`: any item of that id goes, and the new one takes its place in
  -- the order, with the next count.
  abbrev pub add_item : A → ℤ → ℕ → List (Item A) → List (Item A)
  add_item t p c l = insert (record { priority = p; count = c; task = t }) (drop_id repr (repr t) l)

  pub record Adds (t : A) (p : ℤ) (q r : JobQueue A) : Type 0 where
    pub valid : IsValid repr r
    pub shown : live r.prio_queue ≡ add_item t p q.counter (live q.prio_queue)
    pub counted : r.counter ≡ suc q.counter

  live-fresh :
      (n : ℕ) (es : List (Entry A))
      → All (λ e. e.count < n) es
      → All (λ (i : Item A). i.count ≢ n) (live es)
  live-fresh n [] h = tt
  live-fresh n (e ∷ es) h = elim (Option-cases e.task) [
    | inl k ↦ rw k (live-fresh n es h.1)
    | inr (t, k) ↦ rw k ((omega arith), live-fresh n es h.1)
  ]

  add_fresh :
      (t : A) (p : ℤ) (r : JobQueue A)
      → IsValid repr r
      → find repr (repr t) (live r.prio_queue) ≡ none
      → let item : Item A = record { priority = p; count = r.counter; task = t } in
        let entry : Entry A = record { priority = p; count = r.counter; task = some t } in
        Shows
          (record r { counter = suc r.counter })
          (record {
            counter = suc r.counter;
            entry_finder = put r.entry_finder (repr t) r.counter;
            prio_queue = heappush entry r.prio_queue;
          })
          (insert item (live r.prio_queue))
  add_fresh t p r v f =
      let item : Item A = record { priority = p; count = r.counter; task = t } in
      let entry : Entry A = record { priority = p; count = r.counter; task = some t } in
      let shows = live-heappush item r.prio_queue v.sorted in
      record {
        valid = record {
          sorted = heappush-Sorted entry r.prio_queue v.fresh v.sorted;
          fresh =
              All-heappush (λ e. e.count < suc r.counter) entry r.prio_queue (omega arith)
                (All-fresh_suc r.counter r.prio_queue v.fresh);
          distinct = rw shows (
              Distinct-insert repr item (live r.prio_queue) f
                (live-fresh r.counter r.prio_queue v.fresh) v.distinct);
          index = λ j. rw shows (
              ground (
                arith,
                get-put r.entry_finder (repr t) r.counter j,
                find-insert repr item (live r.prio_queue) j f,
                v.index j,
              ));
        };
        shown = shows;
        counted = refl;
      }

  -- On a valid queue, `add_task` leaves a valid queue, takes one count, and its waiting tasks are those
  -- of other ids with the new one put in by priority and count.
  pub add_task-Adds :
      (t : A) (p : ℤ) (q : JobQueue A) → IsValid repr q → Adds t p q (add_task repr t p q)
  unfolding add_task
  add_task-Adds t p q v =
      let known = remove_known-Shows t q v in
      let r : JobQueue A = remove_known repr t q in
      let absent : find repr (repr t) (live r.prio_queue) ≡ none = rw known.shown (
        ground
          (arith, find-drop_id repr (repr t) (live q.prio_queue) (repr t), beq_refl (repr t))) in
      let added = add_fresh t p r known.valid absent in
      let same_item : insert (record { priority = p; count = r.counter; task = t })
            (live r.prio_queue)
          ≡ add_item t p q.counter (live q.prio_queue) =
        λ i. insert (record { priority = p; count = known.counted i; task = t }) (known.shown i) in
      record {
        valid = added.valid;
        shown = added.shown ∙ same_item;
        counted = ap suc known.counted;
      }
