-- ===== src/Workers/Run/Starts.antt =====
-- Which workers are started: no task that waits has a worker already, so no task gets two.
use copr.Base.{
  ℕ, ◌≡◌, ◌≢◌, ◌⊎◌, refl, sym, ◌∙◌, Option, none, List, [], ◌∷◌, ◌++◌, Bool, true, false, length,
  arith, All, All-map, Bool-cases, inl, inr, if_ind,
}
use copr.Base.Equality.{Text, text_eq, beq, beq_iff, beq_ne}
use copr.Base.Dict.{contains, add, contains-add}
use copr.Workers.JobQueue
use copr.Workers.JobQueue.{JobQueue, Popped, popped, key_error}
use copr.Workers.JobQueue.Live.{Item, live, find, Distinct}
use copr.Workers.JobQueue.Invariant.{IsValid}
use copr.Workers.JobQueue.Pops.{PopsFirst, pop_task-PopsFirst}
use copr.Workers.Limits.{check_all}
use copr.Workers.Manager.{Config, WorkerManager, Round, get_worker_id, cleanup_workers}
use copr.Workers.Manager.Ids.{get_worker_id-injective}
use copr.Workers.Manager.Cleanup.{OnlyDrops, cleanup_workers-OnlyDrops}
use copr.Workers.Run.{at_limit, timed_out, start_worker, after_pop, allocate, round, loop, run}

pub eq_false_of_ne_true : (b : Bool) → b ≢ true → b ≡ false
eq_false_of_ne_true true h = absurd (h refl)
eq_false_of_ne_true false h = refl

module _ {T : Type 0} (repr : T → Text) (cfg : Config) where
  -- The worker id of a task.
  abbrev pub id_of : T → Text
  id_of t = get_worker_id cfg.worker_prefix (repr t)

  abbrev pub Untracked : List Text → List (Item T) → Type 0
  Untracked tracked l = All (λ i. contains tracked (id_of i.task) ≡ false) l

  -- The queue is valid, and no task that waits has a tracked worker.
  pub record IsSound (m : WorkerManager T) : Type 0 where
    pub valid : IsValid repr m.tasks
    pub untracked : Untracked m.tracked_workers (live m.tasks.prio_queue)

  not_found :
      (id : Text) (l : List (Item T)) → find repr id l ≡ none → All (λ i. repr i.task ≢ id) l
  unfolding find
  not_found id [] h = tt
  not_found id (x ∷ xs) h = elim (Bool-cases (beq (repr x.task) id)) [
    | inl e ↦ absurd (find_hit id x xs e h)
    | inr e ↦ ((λ p. cc ((beq_iff (repr x.task) id).1 p)), not_found id xs (ground arith))
  ]
    where
      find_hit :
          (id : Text) (x : Item T) (xs : List (Item T))
          → beq (repr x.task) id ≡ true
          → find repr id (x ∷ xs) ≢ none
      find_hit id x xs e h = ground arith

  Untracked-add :
      (tracked : List Text) (t : T) (l : List (Item T))
      → Untracked tracked l
      → All (λ i. repr i.task ≢ repr t) l
      → Untracked (add tracked (id_of t)) l
  Untracked-add tracked t [] u d = tt
  Untracked-add tracked t (x ∷ xs) u d =
      let other : beq (id_of t) (id_of x.task) ≡ false =
        beq_ne (id_of t) (id_of x.task)
          (λ p. d.0 (sym (get_worker_id-injective cfg.worker_prefix (repr t) (repr x.task) p))) in
      (
        contains-add tracked (id_of t) (id_of x.task) ∙ rw (u.0, other),
        Untracked-add tracked t xs u.1 d.1,
      )

  Untracked-fewer :
      (m n : WorkerManager T) (l : List (Item T))
      → OnlyDrops m n
      → Untracked m.tracked_workers l
      → Untracked n.tracked_workers l
  Untracked-fewer m n l d u =
      All-map l (λ i k. eq_false_of_ne_true _ (λ h. cc (d.no_new (id_of i.task) h))) u

  OnlyDrops-IsSound : (m n : WorkerManager T) → OnlyDrops m n → IsSound m → IsSound n
  OnlyDrops-IsSound m n d s = record {
    valid = rw d.same_tasks s.valid;
    untracked = rw d.same_tasks (Untracked-fewer m n (live m.tasks.prio_queue) d s.untracked);
  }

  -- From `m` to `n` a worker was started: one that was not tracked, for the first of the tasks that
  -- wait in `m`, which every limit let in, with a worker to spare.
  pub record IsStart (m n : WorkerManager T) (t : T) : Type 0 where
    pub logged : n.started ≡ m.started ++ (id_of t, t) ∷ []
    pub waited :
        (i : Item T) × (l : List (Item T)) × (live m.tasks.prio_queue ≡ i ∷ l) × (i.task ≡ t)
    pub was_untracked : contains m.tracked_workers (id_of t) ≡ false
    pub passed : check_all t m.limits ≡ true
    pub had_room : at_limit cfg.max_workers (length m.tracked_workers) ≡ false

  abbrev pub StartsAtMostOne : WorkerManager T → WorkerManager T → Type 0
  StartsAtMostOne m n = (n.started ≡ m.started) ⊎ ((t : T) × IsStart m n t)

  start_worker-IsSound :
      (now : ℕ) (x : Item T) (xs : List (Item T)) (m : WorkerManager T)
      → IsValid repr m.tasks
      → live m.tasks.prio_queue ≡ xs
      → Untracked m.tracked_workers (x ∷ xs)
      → find repr (repr x.task) xs ≡ none
      → IsSound (start_worker repr cfg x.task now m)
  unfolding start_worker
  start_worker-IsSound now x xs m v e u d = record {
    valid = v;
    untracked = rw e (Untracked-add m.tracked_workers x.task xs u.1 (not_found (repr x.task) xs d));
  }

  start_worker-IsStart :
      (now : ℕ) (i : Item T) (l : List (Item T)) (tasks : JobQueue T) (m : WorkerManager T)
      → live m.tasks.prio_queue ≡ i ∷ l
      → contains m.tracked_workers (id_of i.task) ≡ false
      → check_all i.task m.limits ≡ true
      → at_limit cfg.max_workers (length m.tracked_workers) ≡ false
      → IsStart m (start_worker repr cfg i.task now (record m { tasks = tasks })) i.task
  unfolding start_worker
  start_worker-IsStart now i l tasks m w u c r = record {
    logged = refl;
    waited = (i, l, w, refl);
    was_untracked = u;
    passed = c;
    had_room = r;
  }

  -- What a round's last part does to a sound manager.
  abbrev Allocates : WorkerManager T → WorkerManager T → Type 0
  Allocates m n = IsSound n × StartsAtMostOne m n

  after_pop-Allocates :
      (now : ℕ) (l : List (Item T)) (found : Popped T) (tasks : JobQueue T) (m : WorkerManager T)
      → at_limit cfg.max_workers (length m.tracked_workers) ≡ false
      → live m.tasks.prio_queue ≡ l
      → Distinct repr l
      → Untracked m.tracked_workers l
      → PopsFirst repr l m.tasks (found, tasks)
      → Allocates m
          (after_pop repr cfg now (length m.tracked_workers) found (record m { tasks = tasks })).1
  unfolding after_pop
  after_pop-Allocates now [] found tasks m room w d u p =
      rw p.0 (record { valid = p.1.valid; untracked = rw p.1.shown tt }, inl refl)
  after_pop-Allocates now (x ∷ xs) found tasks m room w d u p =
      let n : WorkerManager T = record m { tasks = tasks } in
      elim (Bool-cases (check_all x.task m.limits)) [
        | inl c ↦
            rw (p.0, c)
              (
                start_worker-IsSound now x xs n p.1.valid p.1.shown u d.0,
                inr (x.task, start_worker-IsStart now x xs tasks m w u.0 c room),
              )
        | inr c ↦ rw (p.0, c) (record { valid = p.1.valid; untracked = rw p.1.shown u.1 }, inl refl)
      ]

  allocate-Allocates :
      (now : ℕ) (m : WorkerManager T) → IsSound m → Allocates m (allocate repr cfg now m).1
  unfolding allocate
  allocate-Allocates now m s =
      let (found, tasks) = JobQueue.pop_task repr m.tasks in
      elim (Bool-cases (at_limit cfg.max_workers (length m.tracked_workers))) [
        | inl full ↦ rw full (s, inl refl)
        | inr free ↦ rw free (
            after_pop-Allocates now (live m.tasks.prio_queue) found tasks m free refl
              s.valid.distinct s.untracked (pop_task-PopsFirst repr m.tasks s.valid))
      ]

  -- The manager when a round comes to allocate a worker.
  abbrev pub cleaned : Round → WorkerManager T → WorkerManager T
  cleaned r m = cleanup_workers cfg r (record m { redis = r.outside m.redis })

  cleaned-IsSound : (r : Round) (m : WorkerManager T) → IsSound m → IsSound (cleaned r m)
  cleaned-IsSound r m s =
      let m' : WorkerManager T = record m { redis = r.outside m.redis } in
      OnlyDrops-IsSound m' (cleaned r m) (cleanup_workers-OnlyDrops cfg r m')
        (record { valid = s.valid; untracked = s.untracked })

  -- From a sound manager, a round of `run` leaves a sound one, and starts at most one worker: for the
  -- first of the tasks that wait, if it has no tracked worker after the cleanup, every limit lets it
  -- in and there is room.
  pub round-IsSound :
      (timeout : Option ℕ) (start : ℕ) (r : Round) (m : WorkerManager T)
      → IsSound m
      → let n = (round repr cfg timeout start r m).1 in
        (IsSound n × (n.started ≡ m.started)) ⊎ (IsSound n × ((t : T) × IsStart (cleaned r m) n t))
  unfolding round
  round-IsSound timeout start r m s =
      let c : WorkerManager T = cleaned r m in
      let same : c.started ≡ m.started =
        (cleanup_workers-OnlyDrops cfg r (record m { redis = r.outside m.redis })).same_started in
      let (sound, starts) = allocate-Allocates r.now c (cleaned-IsSound r m s) in
      elim (Bool-cases (timed_out timeout start r.now)) [
        | inl e ↦ rw e (inl (record { valid = s.valid; untracked = s.untracked }, refl))
        | inr e ↦ rw e (elim starts [
          | inl none_new ↦ inl (sound, none_new ∙ same)
          | inr new ↦ inr (sound, new)
        ])
      ]

  IsSound-after :
      (timeout : Option ℕ) (start : ℕ) (r : Round) (m : WorkerManager T)
      → IsSound m
      → IsSound (round repr cfg timeout start r m).1
  IsSound-after timeout start r m s = elim (round-IsSound timeout start r m s) [
    | inl (sound, e) ↦ sound
    | inr (sound, e) ↦ sound
  ]

  loop-IsSound :
      (timeout : Option ℕ) (start : ℕ) (rs : List Round) (m : WorkerManager T)
      → IsSound m
      → IsSound (loop repr cfg timeout start rs m).1
  unfolding loop
  loop-IsSound timeout start [] m s = s
  loop-IsSound timeout start (r ∷ rs) m s =
      let n : WorkerManager T = (round repr cfg timeout start r m).1 in
      let next : IsSound n = IsSound-after timeout start r m s in
      if_ind (λ (p : Bool × WorkerManager T). IsSound p.1) (round repr cfg timeout start r m).0
        (loop-IsSound timeout start rs n next) next

  pub run-IsSound :
      (timeout : Option ℕ) (start : ℕ) (rs : List Round) (m : WorkerManager T)
      → IsSound m
      → IsSound (run repr cfg timeout start rs m).1
  unfolding run
  run-IsSound timeout start rs m s =
      loop-IsSound timeout start rs (record m { last_worker_cleanup = 0 })
        (record { valid = s.valid; untracked = s.untracked })
