-- ===== src/Lock/Fair.antt =====
-- What the lock of common/copr_common/lock.py promises: one owner at a time, in the order of
-- arrival, and no process waits for one that has died.
use copr.Base.{ℕ, ◌≤◌, ◌≡◌, ◌≢◌, refl, sym, ap, ◌∙◌, List, true, arith, ==_iff}
use copr.Base.Maybe.{some_path}
use copr.Base.Equality.{nat_eq}
use copr.Base.Dict.{contains, Subset}
use mathlib.Core.Path.{subst}
use copr.Lock.{
  enqueue, look_none, enqueue_again, look_me, look_other, find_dead, find_alive, remove_dead, wait,
  give_up, finish, remove_own, notify_none, notify_next, clean, act, die, expire, later, Redis, Pc,
  locked, in_loop, set, Shared, Move, System, alive, Step, Reach,
}
use copr.Lock.Queue.{count, ahead, ahead-push, ahead-remove_first, head-ahead}
use copr.Lock.Invariant.{is_locked, target, in_loop-is_queued, SystemInv, Reach-Inv}

module _ (R : Redis) where
  abbrev pub entries : System R → List ℕ
  entries s = R.entries s.shared.queue

  -- A live process at the `yield`: it has the lock.
  abbrev pub Holds : System R → ℕ → Type 0
  Holds s p = (alive R s p ≡ true) × (s.pc p ≡ locked)

  -- In every reachable state, however the processes' calls interleave and whichever die, at most
  -- one live process has the lock.
  pub one_owner : {s : System R} → Reach R s → (p q : ℕ) → Holds s p → Holds s q → p ≡ q
  one_owner {s} r p q hp hq =
      some_path (sym (i.top p hp.0 (ap is_locked hp.1)) ∙ i.top q hq.0 (ap is_locked hq.1))
    where
      i : SystemInv R s
      i = Reach-Inv R r

  -- A live process is in the loop all the way from one state to another.
  pub data Waits (p : ℕ) (s : System R) : System R → Type 0 where
    here : Waits p s s
    also :
        {t u : System R}
        → Waits p s t
        → Step R t u
        → alive R u p ≡ true
        → in_loop (u.pc p) ≡ true
        → Waits p s u

  module _ (p : ℕ) {t : System R} (r : Reach R t) (live : alive R t p ≡ true)
      (loop : in_loop (t.pc p) ≡ true) where
    present : 1 ≤ count (entries t) p
    present = ground (arith, (Reach-Inv R r).inside p live (in_loop-is_queued (t.pc p) loop))

    abbrev Shrinks : List ℕ → Type 0
    Shrinks xs = Subset (ahead xs p) (ahead (entries t) p)

    push-Shrinks : (me : ℕ) → Shrinks (R.entries (R.rpush t.shared.queue me))
    push-Shrinks me =
        subst Shrinks (sym (R.entries-rpush t.shared.queue me))
          (λ q h. subst (λ xs. contains xs q ≡ true) (ahead-push (entries t) me p present) h)

    drop-Shrinks : (h : ℕ) → h ≢ p → Shrinks (R.entries (R.lrem t.shared.queue h))
    drop-Shrinks h ne =
        subst Shrinks (sym (R.entries-lrem t.shared.queue h))
          (λ q. ahead-remove_first (entries t) h p q ne)

    Move-Shrinks :
        {me : ℕ} {m : Shared R} {c d : Pc}
        → t.pc me ≡ c
        → in_loop (set t.pc me d p) ≡ true
        → Move R me t.shared c m d
        → Shrinks (R.entries m.queue)
    Move-Shrinks {me} at stays enqueue = push-Shrinks me
    Move-Shrinks {me} at stays enqueue_again = push-Shrinks me
    Move-Shrinks {me} at stays (remove_dead {h}) =
        drop-Shrinks h (λ e. ground (arith, (Reach-Inv R r).dead me h (ap target at)))
    Move-Shrinks {me} at stays remove_own = drop-Shrinks me (λ e. ground (arith, ==_iff me p))
    Move-Shrinks at stays (look_none _) = λ q h. h
    Move-Shrinks at stays (look_me _) = λ q h. h
    Move-Shrinks at stays (look_other _ _) = λ q h. h
    Move-Shrinks at stays (find_dead _) = λ q h. h
    Move-Shrinks at stays (find_alive _) = λ q h. h
    Move-Shrinks at stays wait = λ q h. h
    Move-Shrinks at stays (give_up _) = λ q h. h
    Move-Shrinks at stays finish = λ q h. h
    Move-Shrinks at stays (notify_none _) = λ q h. h
    Move-Shrinks at stays (notify_next _) = λ q h. h
    Move-Shrinks at stays clean = λ q h. h

    Step-Shrinks : {u : System R} → Step R t u → in_loop (u.pc p) ≡ true → Shrinks (entries u)
    Step-Shrinks (act me a move) stays = Move-Shrinks refl stays move
    Step-Shrinks (die _) stays = λ q h. h
    Step-Shrinks (expire _) stays = λ q h. h

  module _ (p : ℕ) {s : System R} (r : Reach R s) (live : alive R s p ≡ true)
      (loop : in_loop (s.pc p) ≡ true) where
    Waits-Loops :
        {t : System R}
        → Waits p s t
        → Reach R t × ((alive R t p ≡ true) × (in_loop (t.pc p) ≡ true))
    Waits-Loops here = (r, (live, loop))
    Waits-Loops (also w step a l) = (later (Waits-Loops w).0 step, (a, l))

    Waits-Subset : {t : System R} → Waits p s t → Subset (ahead (entries t) p) (ahead (entries s) p)
    Waits-Subset here = λ q h. h
    Waits-Subset (also w step a l) = λ q h.
        let (r', (a', l')) = Waits-Loops w in Waits-Subset w q (Step-Shrinks p r' a' l' step l q h)

    -- The order of arrival: while a live process waits in the loop, whichever process has the lock
    -- stood ahead of it in the queue from the start.
    pub first_come :
        {t : System R} → Waits p s t → (q : ℕ) → Holds t q → contains (ahead (entries s) p) q ≡ true
    first_come {t} w q h =
        let (r', (a, l)) = Waits-Loops w in
        Waits-Subset w q (
          head-ahead (entries t) q p ((Reach-Inv R r').top q h.0 (ap is_locked h.1))
            (present p r' a l) (λ e. ground (arith, h.1)))
