-- ===== src/Workers/Run/Bounds.antt =====
-- `run` never tracks more workers than allowed, and keeps within every limit.
use copr.Base.{
  ℕ, suc, ◌≤◌, ◌≡◌, Option, some, List, [], ◌∷◌, Bool, true, length, arith, All, Bool-cases, inl,
  inr, leb, if_ind,
}
use copr.Base.Equality.{Text, text_eq}
use copr.Base.Dict.{length-add}
use copr.Workers.JobQueue
use copr.Workers.JobQueue.{JobQueue, Popped, popped, key_error}
use copr.Workers.Limits.{check_all}
use copr.Workers.Limits.Respected.{Within, calculate_limits-Within}
use copr.Workers.Manager.{Config, WorkerManager, Round, get_worker_id, cleanup_workers}
use copr.Workers.Manager.Cleanup.{cleanup_workers-OnlyDrops}
use copr.Workers.Run.{timed_out, start_worker, after_pop, allocate, round, loop, run}

module _ {T : Type 0} where
  -- At most `max` workers are tracked, and no limit is past its bound.
  pub record IsBounded (max : ℕ) (m : WorkerManager T) : Type 0 where
    pub room : length m.tracked_workers ≤ max
    pub within : All Within m.limits

module _ {T : Type 0} (repr : T → Text) (cfg : Config) where
  start_worker-IsBounded :
      (max : ℕ) (t : T) (now : ℕ) (m : WorkerManager T)
      → suc (length m.tracked_workers) ≤ max
      → check_all t m.limits ≡ true
      → All Within m.limits
      → IsBounded max (start_worker repr cfg t now m)
  unfolding start_worker
  start_worker-IsBounded max t now m room check within =
      let w : Text = get_worker_id cfg.worker_prefix (repr t) in
      record {
        room = omega (arith, length-add m.tracked_workers w);
        within = calculate_limits-Within w t m.limits check within;
      }

  after_pop-IsBounded :
      (max now count : ℕ) (found : Popped T) (m : WorkerManager T)
      → suc (length m.tracked_workers) ≤ max
      → All Within m.limits
      → IsBounded max (after_pop repr cfg now count found m).1
  unfolding after_pop
  after_pop-IsBounded max now count key_error m room within = record {
    room = omega arith;
    within = within;
  }
  after_pop-IsBounded max now count (popped t) m room within =
      elim (Bool-cases (check_all t m.limits)) [
        | inl c ↦ rw c (start_worker-IsBounded max t now m room c within)
        | inr c ↦ rw c (record { room = omega arith; within = within })
      ]

  module _ (max : ℕ) (bound : cfg.max_workers ≡ some max) where
    allocate-IsBounded :
        (now : ℕ) (m : WorkerManager T)
        → IsBounded max m
        → IsBounded max (allocate repr cfg now m).1
    unfolding allocate
    allocate-IsBounded now m b =
        let (found, tasks) = JobQueue.pop_task repr m.tasks in
        elim (Bool-cases (leb max (length m.tracked_workers))) [
          | inl full ↦ simp (bound, full) b
          | inr free ↦
              simp (bound, free)
                (after_pop-IsBounded max now (length m.tracked_workers) found
                  (record m { tasks = tasks }) (ground arith) b.within)
        ]

    round-IsBounded :
        (timeout : Option ℕ) (start : ℕ) (r : Round) (m : WorkerManager T)
        → IsBounded max m
        → IsBounded max (round repr cfg timeout start r m).1
    unfolding round
    round-IsBounded timeout start r m b =
        let m' : WorkerManager T = record m { redis = r.outside m.redis } in
        let kept = cleanup_workers-OnlyDrops cfg r m' in
        let cleaned : IsBounded max (cleanup_workers cfg r m') = record {
          room = omega arith;
          within = rw kept.same_limits b.within;
        } in
        elim (Bool-cases (timed_out timeout start r.now)) [
          | inl e ↦ rw e (record { room = b.room; within = b.within })
          | inr e ↦ rw e (allocate-IsBounded r.now (cleanup_workers cfg r m') cleaned)
        ]

    loop-IsBounded :
        (timeout : Option ℕ) (start : ℕ) (rs : List Round) (m : WorkerManager T)
        → IsBounded max m
        → IsBounded max (loop repr cfg timeout start rs m).1
    unfolding loop
    loop-IsBounded timeout start [] m b = b
    loop-IsBounded timeout start (r ∷ rs) m b =
        let n : WorkerManager T = (round repr cfg timeout start r m).1 in
        let next : IsBounded max n = round-IsBounded timeout start r m b in
        if_ind (λ (p : Bool × WorkerManager T). IsBounded max p.1)
          (round repr cfg timeout start r m).0 (loop-IsBounded timeout start rs n next) next

    -- Whatever the clock says and other processes do, `run` tracks at most `max_workers` workers and
    -- takes no limit past its bound, if that was so when it began.
    pub run-IsBounded :
        (timeout : Option ℕ) (start : ℕ) (rs : List Round) (m : WorkerManager T)
        → IsBounded max m
        → IsBounded max (run repr cfg timeout start rs m).1
    unfolding run
    run-IsBounded timeout start rs m b =
        loop-IsBounded timeout start rs (record m { last_worker_cleanup = 0 })
          (record { room = b.room; within = b.within })
