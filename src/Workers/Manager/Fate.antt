-- ===== src/Workers/Manager/Fate.antt =====
-- What becomes of one worker in `_cleanup_workers`: the body of its loop at a worker.
use copr.Base.{
  ℕ, ◌+◌, ◌<◌, ◌≡◌, refl, ◌∙◌, Option, none, some, [], ◌∷◌, ◌++◌, Bool, true, false, ◌&&◌, arith,
  Bool-cases, inl, inr, ltb, lt→ltb, if_ind, if◌then◌else◌,
}
use copr.Base.Equality.{Text, text_eq, beq_refl}
use copr.Base.Dict.{get, contains, get-put, get-remove, contains-discard}
use copr.Workers.Manager.{
  WorkerInfo, Config, WorkerManager, or_default, hgetall, is_worker_alive, delete_worker, deadcheck,
  clean_allocated, clean_worker,
}

abbrev pub is_allocated : Option ℕ → Bool
is_allocated none = false
is_allocated (some a) = true

-- The hash of a worker that runs: allocated, started, with no status and no request to delete.
pub record IsRunning (a : ℕ) (info : WorkerInfo) : Type 0 where
  pub is_allocated_at : info.allocated ≡ some a
  pub has_started : info.started ≡ true
  pub no_status : info.status ≡ false
  pub no_delete : info.delete ≡ false

-- The hash that `deadcheck` leaves for a worker that was not checked for long.
abbrev pub checked_info : (ℕ → Bool) → ℕ → WorkerInfo → WorkerInfo
checked_info alive now i = record i {
  checked = some now;
  delete = if is_worker_alive alive i then i.delete else true;
}

abbrev pub is_late : Config → ℕ → ℕ → WorkerInfo → Bool
is_late cfg now a i = ltb (or_default i.checked a + cfg.worker_timeout_deadcheck) now

module _ {T : Type 0} where
  -- A worker is dropped: neither redis nor the manager knows it.
  pub record IsGone (w : Text) (m : WorkerManager T) : Type 0 where
    pub no_key : get m.redis w ≡ none
    pub not_tracked : contains m.tracked_workers w ≡ false

  delete_worker-IsGone : (w : Text) (m : WorkerManager T) → IsGone w (delete_worker w m)
  unfolding delete_worker
  delete_worker-IsGone w m = record {
    no_key = get-remove m.redis w w ∙ rw (beq_refl w);
    not_tracked = contains-discard m.tracked_workers w w ∙ rw (beq_refl w);
  }

  delete_worker-finished :
      (w : Text) (m : WorkerManager T) → (delete_worker w m).finished ≡ m.finished
  unfolding delete_worker
  delete_worker-finished w m = refl

module _ {T : Type 0} (cfg : Config) (alive : ℕ → Bool) (now : ℕ) where
  clean_allocated-finished :
      (w : Text) (info : WorkerInfo) (allocated : Option ℕ) (m : WorkerManager T)
      → (clean_allocated cfg alive now w info allocated m).finished
        ≡ (if is_allocated allocated && info.status then m.finished ++ w ∷ [] else m.finished)
  unfolding clean_allocated
  clean_allocated-finished w info none m = refl
  clean_allocated-finished w info (some a) m = ground arith

  -- At its turn in a cleanup, the task of a worker is reported as finished, once, if the worker has its
  -- `allocated` flag and a `status`, whatever else its hash says, and not at all otherwise.
  pub clean_worker-finished :
      (w : Text) (m : WorkerManager T)
      → let info = hgetall m.redis w in
        (clean_worker cfg alive now w m).finished
        ≡ (if is_allocated info.allocated && info.status then m.finished ++ w ∷ [] else m.finished)
  unfolding clean_worker
  clean_worker-finished w m =
      clean_allocated-finished w (hgetall m.redis w) (hgetall m.redis w).allocated m

  clean_worker-IsRunning :
      (w : Text) (a : ℕ) (i : WorkerInfo) (m : WorkerManager T)
      → get m.redis w ≡ some i
      → IsRunning a i
      → clean_worker cfg alive now w m ≡ deadcheck cfg alive now w i a m
  unfolding clean_worker
  clean_worker-IsRunning w a i m g r =
      simp (g, r.is_allocated_at, r.no_status, r.no_delete, r.has_started)

  deadcheck-get :
      (w : Text) (a : ℕ) (i : WorkerInfo) (m : WorkerManager T)
      → get m.redis w ≡ some i
      → get (deadcheck cfg alive now w i a m).redis w
        ≡ some (if is_late cfg now a i then checked_info alive now i else i)
  unfolding deadcheck
  deadcheck-get w a i m g = elim (Bool-cases (is_late cfg now a i)) [
    | inl late ↦ elim (Bool-cases (is_worker_alive alive i)) [
      | inl lives ↦ simp (late, lives, g, get-put, beq_refl)
      | inr dead ↦ simp (late, dead, g, get-put, beq_refl)
    ]
    | inr early ↦ rw early g
  ]

  deadcheck-tracked :
      (w : Text) (a : ℕ) (i : WorkerInfo) (m : WorkerManager T)
      → ((deadcheck cfg alive now w i a m).tracked_workers ≡ m.tracked_workers)
        × ((deadcheck cfg alive now w i a m).finished ≡ m.finished)
  unfolding deadcheck
  deadcheck-tracked w a i m =
      if_ind
        (λ (n : WorkerManager T).
          (n.tracked_workers ≡ m.tracked_workers) × (n.finished ≡ m.finished))
        (is_late cfg now a i)
        (if_ind
          (λ (n : WorkerManager T).
            (n.tracked_workers ≡ m.tracked_workers) × (n.finished ≡ m.finished))
          (is_worker_alive alive i) (refl, refl) (refl, refl))
        (refl, refl)

  -- The turn of a worker that runs does not drop it: it stays tracked, nothing is reported as finished,
  -- and its hash changes only if it was not checked for longer than the deadcheck
  -- timeout: then the time is noted, and `delete` is set if its process is gone.
  pub clean_worker_running :
      (w : Text) (a : ℕ) (i : WorkerInfo) (m : WorkerManager T)
      → get m.redis w ≡ some i
      → IsRunning a i
      → let n = clean_worker cfg alive now w m in
        (n.tracked_workers ≡ m.tracked_workers)
        × (n.finished ≡ m.finished)
        × (get n.redis w ≡ some (if is_late cfg now a i then checked_info alive now i else i))
  clean_worker_running w a i m g r =
      let (tracked, finished) = deadcheck-tracked w a i m in
      rw (clean_worker-IsRunning w a i m g r) (tracked, finished, deadcheck-get w a i m g)

  clean_worker_deleted :
      (w : Text) (a : ℕ) (i : WorkerInfo) (m : WorkerManager T)
      → get m.redis w ≡ some i
      → i.allocated ≡ some a
      → i.status ≡ false
      → i.delete ≡ true
      → clean_worker cfg alive now w m ≡ delete_worker w m
  unfolding clean_worker
  clean_worker_deleted w a i m g e s d = simp (g, e, s, d)

  clean_worker_late :
      (w : Text) (a : ℕ) (i : WorkerInfo) (m : WorkerManager T)
      → get m.redis w ≡ some i
      → i.allocated ≡ some a
      → i.status ≡ false
      → i.started ≡ false
      → ltb (a + cfg.worker_timeout_start) now ≡ true
      → clean_worker cfg alive now w m ≡ delete_worker w m
  unfolding clean_worker
  clean_worker_late w a i m g e s n late = elim (Bool-cases i.delete) [
    | inl d ↦ simp (g, e, s, d)
    | inr d ↦ simp (g, e, s, d, n, late)
  ]

  -- A worker that is allocated, has no status and did not start within its timeout is dropped at its
  -- turn in a cleanup.
  pub clean_worker_unstarted :
      (w : Text) (a : ℕ) (i : WorkerInfo) (m : WorkerManager T)
      → get m.redis w ≡ some i
      → i.allocated ≡ some a
      → i.status ≡ false
      → i.started ≡ false
      → a + cfg.worker_timeout_start < now
      → IsGone w (clean_worker cfg alive now w m)
  clean_worker_unstarted w a i m g e s n late =
      rw (clean_worker_late w a i m g e s n (lt→ltb (a + cfg.worker_timeout_start) now late))
        (delete_worker-IsGone w m)

-- A worker whose process died without a status is dropped by two turns in cleanups, if nobody writes
-- to its hash in between: the first one, which finds it unchecked for too long, and the next one, at
-- any time. Its task is not reported as finished.
pub dead_worker-IsGone :
    {T : Type 0} (cfg : Config) (alive later_alive : ℕ → Bool) (now later : ℕ) (w : Text) (a : ℕ)
    (i : WorkerInfo) (m : WorkerManager T)
    → get m.redis w ≡ some i
    → IsRunning a i
    → is_late cfg now a i ≡ true
    → is_worker_alive alive i ≡ false
    → let n = clean_worker cfg later_alive later w (clean_worker cfg alive now w m) in
      IsGone w n × (n.finished ≡ m.finished)
dead_worker-IsGone {T} cfg alive later_alive now later w a i m g r late dead =
    let n : WorkerManager T = clean_worker cfg alive now w m in
    let (tracked, finished, hash) = clean_worker_running cfg alive now w a i m g r in
    let flagged : get n.redis w ≡ some (record i { checked = some now; delete = true }) =
      hash ∙ simp (late, dead) in
    rw
      (clean_worker_deleted cfg later_alive later w a
        (record i { checked = some now; delete = true }) n flagged r.is_allocated_at r.no_status
        refl)
      (delete_worker-IsGone w n, delete_worker-finished w n ∙ finished)
