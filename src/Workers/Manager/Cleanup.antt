-- ===== src/Workers/Manager/Cleanup.antt =====
-- What `_cleanup_workers` does to a worker, and what it leaves alone.
use copr.Base.{
  ℕ, ◌+◌, ◌≤◌, ◌≡◌, refl, ◌∙◌, Option, none, some, List, [], ◌∷◌, Bool, true, not, length, arith,
  ltb, if_ind,
}
use copr.Base.Equality.{Text, text_eq}
use copr.Base.Dict.{contains, contains-discard, length-discard}
use copr.Workers.Manager.{
  WorkerInfo, Config, WorkerManager, Round, or_default, hgetall, hset, is_worker_alive,
  has_worker_ended, has_worker_started, worker_ids, delete_worker, finish_task, deadcheck,
  clean_allocated, clean_worker, clean_each, cleanup_workers,
}

module _ {T : Type 0} where
  -- The queue, the limits and the log of starts are the same, and no worker came in.
  pub record OnlyDrops (m n : WorkerManager T) : Type 0 where
    pub same_tasks : n.tasks ≡ m.tasks
    pub same_limits : n.limits ≡ m.limits
    pub same_started : n.started ≡ m.started
    pub fewer : length n.tracked_workers ≤ length m.tracked_workers
    pub no_new :
        (w : Text) → contains n.tracked_workers w ≡ true → contains m.tracked_workers w ≡ true

  pub OnlyDrops-trans : {l m n : WorkerManager T} → OnlyDrops l m → OnlyDrops m n → OnlyDrops l n
  OnlyDrops-trans a b = record {
    same_tasks = b.same_tasks ∙ a.same_tasks;
    same_limits = b.same_limits ∙ a.same_limits;
    same_started = b.same_started ∙ a.same_started;
    fewer = omega arith;
    no_new = λ w h. a.no_new w (b.no_new w h);
  }

  pub OnlyDrops-same :
      {m n : WorkerManager T}
      → n.tasks ≡ m.tasks
      → n.limits ≡ m.limits
      → n.started ≡ m.started
      → n.tracked_workers ≡ m.tracked_workers
      → OnlyDrops m n
  OnlyDrops-same t l s w = record {
    same_tasks = t;
    same_limits = l;
    same_started = s;
    fewer = rw w (omega arith);
    no_new = λ v h. rw w at h;
  }

  OnlyDrops-refl : (m : WorkerManager T) → OnlyDrops m m
  OnlyDrops-refl m = OnlyDrops-same refl refl refl refl

  hset-OnlyDrops :
      (w : Text) (write : WorkerInfo → WorkerInfo) (m : WorkerManager T)
      → OnlyDrops m (hset w write m)
  hset-OnlyDrops w write m = OnlyDrops-same refl refl refl refl

  delete_worker-OnlyDrops : (w : Text) (m : WorkerManager T) → OnlyDrops m (delete_worker w m)
  unfolding delete_worker
  delete_worker-OnlyDrops w m = record {
    same_tasks = refl;
    same_limits = refl;
    same_started = refl;
    fewer = length-discard m.tracked_workers w;
    no_new = λ v h. ground (arith, contains-discard m.tracked_workers w v);
  }

  finish_task-OnlyDrops : (w : Text) (m : WorkerManager T) → OnlyDrops m (finish_task w m)
  unfolding finish_task
  finish_task-OnlyDrops w m = OnlyDrops-same refl refl refl refl

  module _ (cfg : Config) (alive : ℕ → Bool) (now : ℕ) where
    deadcheck-OnlyDrops :
        (w : Text) (info : WorkerInfo) (allocated : ℕ) (m : WorkerManager T)
        → OnlyDrops m (deadcheck cfg alive now w info allocated m)
    unfolding deadcheck
    deadcheck-OnlyDrops w info a m =
        let late : Bool = ltb (or_default info.checked a + cfg.worker_timeout_deadcheck) now in
        let checked : WorkerManager T = hset w (λ i. record i { checked = some now }) m in
        let once : OnlyDrops m checked =
          hset-OnlyDrops w (λ i. record i { checked = some now }) m in
        if_ind (OnlyDrops m) late
          (if_ind (OnlyDrops m) (is_worker_alive alive info) once
            (OnlyDrops-trans once (hset-OnlyDrops w (λ i. record i { delete = true }) checked)))
          (OnlyDrops-refl m)

    clean_allocated-OnlyDrops :
        (w : Text) (info : WorkerInfo) (allocated : Option ℕ) (m : WorkerManager T)
        → OnlyDrops m (clean_allocated cfg alive now w info allocated m)
    unfolding clean_allocated
    clean_allocated-OnlyDrops w info none m = delete_worker-OnlyDrops w m
    clean_allocated-OnlyDrops w info (some a) m =
        let deleted : OnlyDrops m (delete_worker w m) = delete_worker-OnlyDrops w m in
        let ended : OnlyDrops m (delete_worker w (finish_task w m)) =
          OnlyDrops-trans (finish_task-OnlyDrops w m)
            (delete_worker-OnlyDrops w (finish_task w m)) in
        if_ind (OnlyDrops m) (has_worker_ended info) ended (
          if_ind (OnlyDrops m) info.delete deleted (
            if_ind (OnlyDrops m) (not (has_worker_started info))
              (if_ind (OnlyDrops m) (ltb (a + cfg.worker_timeout_start) now) deleted
                (OnlyDrops-refl m))
              (deadcheck-OnlyDrops w info a m)))

    clean_each-OnlyDrops :
        (ws : List Text) (m : WorkerManager T) → OnlyDrops m (clean_each cfg alive now ws m)
    unfolding clean_each clean_worker
    clean_each-OnlyDrops [] m = OnlyDrops-refl m
    clean_each-OnlyDrops (w ∷ ws) m =
        OnlyDrops-trans
          (clean_allocated-OnlyDrops w (hgetall m.redis w) (hgetall m.redis w).allocated m)
          (clean_each-OnlyDrops ws (clean_worker cfg alive now w m))

  -- A cleanup leaves the queue, the limits and the log of starts as they are, and tracks no worker that
  -- was not tracked before.
  pub cleanup_workers-OnlyDrops :
      (cfg : Config) (r : Round) (m : WorkerManager T) → OnlyDrops m (cleanup_workers cfg r m)
  unfolding cleanup_workers
  cleanup_workers-OnlyDrops cfg r m =
      let begun : WorkerManager T = record m { last_worker_cleanup = r.cleanup_end } in
      if_ind (OnlyDrops m) (ltb r.cleanup_now (m.last_worker_cleanup + cfg.worker_cleanup_period))
        (OnlyDrops-refl m)
        (OnlyDrops-trans (OnlyDrops-same {m = m} {n = begun} refl refl refl refl)
          (clean_each-OnlyDrops cfg r.alive r.cleanup_now (worker_ids cfg begun) begun))
