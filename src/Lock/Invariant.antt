-- ===== src/Lock/Invariant.antt =====
-- What every reachable state of the lock of common/copr_common/lock.py has.
use copr.Base.{
  ℕ, ◌≤◌, ◌≡◌, ◌≢◌, refl, sym, ap, ◌∙◌, Option, none, some, List, [], ◌∷◌, ◌++◌, Bool, true, false,
  arith, ==_iff,
}
use mathlib.Core.Path.{subst}
use copr.Lock.{
  enqueue, look_none, enqueue_again, look_me, look_other, find_dead, find_alive, remove_dead, wait,
  give_up, finish, remove_own, notify_none, notify_next, clean, act, die, expire, start, later,
  head, remove_first, Redis, Kill, is_alive, Pc, outside, looking, requeue, found, removing,
  waiting, locked, leaving, notifying, cleaning, is_queued, in_loop, set, Shared, Move, System,
  Step, Reach,
}
use copr.Lock.Queue.{count, count-push, count-remove_first, head-push, head-remove_first, head-none}

abbrev pub is_locked : Pc → Bool
is_locked locked = true
is_locked _ = false

abbrev pub is_requeue : Pc → Bool
is_requeue requeue = true
is_requeue _ = false

abbrev pub target : Pc → Option ℕ
target (removing h) = some h
target _ = none

-- An entry for each process in `lock`, and none for the others; the owner is at the head.
pub record Inv (xs : List ℕ) (pc : ℕ → Pc) (kill : ℕ → Kill) : Type 0 where
  pub one : (p : ℕ) → count xs p ≤ 1
  pub inside : (p : ℕ) → is_alive (kill p) ≡ true → is_queued (pc p) ≡ true → count xs p ≡ 1
  pub absent : (p : ℕ) → is_queued (pc p) ≡ false → count xs p ≡ 0
  pub top : (p : ℕ) → is_alive (kill p) ≡ true → is_locked (pc p) ≡ true → head xs ≡ some p
  pub dead : (p h : ℕ) → target (pc p) ≡ some h → is_alive (kill h) ≡ false
  pub filled : (p : ℕ) → is_alive (kill p) ≡ true → is_requeue (pc p) ≡ false

pub in_loop-is_queued : (c : Pc) → in_loop c ≡ true → is_queued c ≡ true
in_loop-is_queued outside h = ground arith
in_loop-is_queued locked h = refl
in_loop-is_queued leaving h = refl
in_loop-is_queued notifying h = ground arith
in_loop-is_queued cleaning h = ground arith
in_loop-is_queued looking h = refl
in_loop-is_queued requeue h = refl
in_loop-is_queued (found _) h = refl
in_loop-is_queued (removing _) h = refl
in_loop-is_queued waiting h = refl

module _ {xs : List ℕ} {pc : ℕ → Pc} {kill : ℕ → Kill} (i : Inv xs pc kill) (me : ℕ) where
  -- A step that leaves the queue alone.
  stay :
      (c : Pc)
      → is_queued c ≡ is_queued (pc me)
      → (is_locked c ≡ true → head xs ≡ some me)
      → ((h : ℕ) → target c ≡ some h → is_alive (kill h) ≡ false)
      → is_requeue c ≡ false
      → Inv xs (set pc me c) kill
  stay c same top dead filled = record {
    one = i.one;
    inside = λ p. ground (arith, i.inside p, ==_iff me p);
    absent = λ p. ground (arith, i.absent p, ==_iff me p);
    top = λ p. ground (arith, i.top p, ==_iff me p);
    dead = λ p h. ground (arith, i.dead p h, dead h, ==_iff me p);
    filled = λ p. ground (arith, i.filled p, ==_iff me p);
  }

  -- A process that is outside comes in.
  push : is_queued (pc me) ≡ false → Inv (xs ++ me ∷ []) (set pc me looking) kill
  push out = record {
    one = λ p. ground (arith, count-push xs me p, i.one p, i.absent me, ==_iff me p);
    inside = λ p. ground (arith, count-push xs me p, i.inside p, i.absent me, ==_iff me p);
    absent = λ p. ground (arith, count-push xs me p, i.absent p, ==_iff me p);
    top = λ p. ground (arith, i.top p, head-push xs me p, ==_iff me p);
    dead = λ p h. ground (arith, i.dead p h, ==_iff me p);
    filled = λ p. ground (arith, i.filled p, ==_iff me p);
  }

  drop_dead : (h : ℕ) → pc me ≡ removing h → Inv (remove_first xs h) (set pc me looking) kill
  drop_dead h at = record {
    one = λ p. ground (arith, count-remove_first xs h p, i.one p, ==_iff h p);
    inside = λ p.
        ground (
          arith,
          count-remove_first xs h p,
          i.inside p,
          i.inside me,
          gone,
          ==_iff me p,
          ==_iff h p,
        );
    absent = λ p. ground (arith, count-remove_first xs h p, i.absent p, ==_iff me p, ==_iff h p);
    top = λ p. ground (arith, i.top p, gone, head-remove_first xs h p, ==_iff me p);
    dead = λ p h. ground (arith, i.dead p h, ==_iff me p);
    filled = λ p. ground (arith, i.filled p, ==_iff me p);
  }
    where
      gone : is_alive (kill h) ≡ false
      gone = i.dead me h (ap target at)

  leave :
      is_alive (kill me) ≡ true
      → pc me ≡ leaving
      → Inv (remove_first xs me) (set pc me notifying) kill
  leave live at = record {
    one = λ p. ground (arith, count-remove_first xs me p, i.one p, ==_iff me p);
    inside = λ p. ground (arith, count-remove_first xs me p, i.inside p, ==_iff me p);
    absent = λ p. ground (arith, count-remove_first xs me p, i.one p, i.absent p, ==_iff me p);
    top = λ p. ground (arith, i.top p, head-remove_first xs me p, ==_iff me p);
    dead = λ p h. ground (arith, i.dead p h, ==_iff me p);
    filled = λ p. ground (arith, i.filled p, ==_iff me p);
  }

  -- The queue has the entry of a live process that is in `lock`.
  nonempty : is_alive (kill me) ≡ true → is_queued (pc me) ≡ true → head xs ≢ none
  nonempty live q e = ground (arith, i.inside me, head-none xs me)

die-Inv :
    {xs : List ℕ} {pc : ℕ → Pc} {kill : ℕ → Kill}
    → Inv xs pc kill
    → (p : ℕ) → Inv xs pc (set kill p Kill.esrch)
die-Inv {kill} i p = record {
  one = i.one;
  inside = λ q. ground (arith, i.inside q, ==_iff p q);
  absent = i.absent;
  top = λ q. ground (arith, i.top q, ==_iff p q);
  dead = λ q h. ground (arith, i.dead q h, ==_iff p h);
  filled = λ q. ground (arith, i.filled q, ==_iff p q);
}

start-Inv : {pc : ℕ → Pc} {kill : ℕ → Kill} → ((p : ℕ) → pc p ≡ outside) → Inv [] pc kill
unfolding count
start-Inv out = record {
  one = λ p. ground arith;
  inside = λ p. ground (arith, out p);
  absent = λ p _. refl;
  top = λ p. ground (arith, out p);
  dead = λ p h. ground (arith, out p);
  filled = λ p. ground (arith, out p);
}

module _ (R : Redis) where
  abbrev pub SystemInv : System R → Type 0
  SystemInv s = Inv (R.entries s.shared.queue) s.pc s.shared.kill

  Move-Inv :
      {me : ℕ} {m n : Shared R} {c d : Pc} {pc : ℕ → Pc}
      → Inv (R.entries m.queue) pc m.kill
      → is_alive (m.kill me) ≡ true
      → pc me ≡ c
      → Move R me m c n d
      → Inv (R.entries n.queue) (set pc me d) n.kill
  Move-Inv {me} {m} {pc} i live at enqueue =
      subst (λ xs. Inv xs (set pc me looking) m.kill) (sym (R.entries-rpush m.queue me))
        (push i me (ap is_queued at))
  Move-Inv {me} {m} {pc} i live at (look_none e) =
      ground (nonempty i me live (ap is_queued at), sym (R.lindex-head m.queue) ∙ e, arith)
  Move-Inv {me} {m} {pc} i live at enqueue_again =
      ground (arith, i.filled me live, ap is_requeue at)
  Move-Inv {me} {m} {pc} i live at (look_me e) =
      stay i me locked (sym (ap is_queued at)) (λ _. sym (R.lindex-head m.queue) ∙ e)
        (λ h. ground arith) refl
  Move-Inv {me} {m} {pc} i live at (look_other {h} e ne) =
      stay i me (found h) (sym (ap is_queued at)) (λ k. ground arith) (λ h. ground arith) refl
  Move-Inv {me} {m} {pc} i live at (find_dead {h} e) =
      stay i me (removing h) (sym (ap is_queued at)) (λ k. ground arith) (λ h. ground arith) refl
  Move-Inv {me} {m} {pc} i live at (find_alive {h} e) =
      stay i me waiting (sym (ap is_queued at)) (λ k. ground arith) (λ h. ground arith) refl
  Move-Inv {me} {m} {pc} i live at (remove_dead {h}) =
      subst (λ xs. Inv xs (set pc me looking) m.kill) (sym (R.entries-lrem m.queue h))
        (drop_dead i me h at)
  Move-Inv {me} {m} {pc} i live at wait =
      stay i me looking (sym (ap is_queued at)) (λ k. ground arith) (λ h. ground arith) refl
  Move-Inv {me} {m} {pc} i live at (give_up {c} e) =
      stay i me leaving (sym (ap is_queued at ∙ in_loop-is_queued c e)) (λ k. ground arith)
        (λ h. ground arith) refl
  Move-Inv {me} {m} {pc} i live at finish =
      stay i me leaving (sym (ap is_queued at)) (λ k. ground arith) (λ h. ground arith) refl
  Move-Inv {me} {m} {pc} i live at remove_own =
      subst (λ xs. Inv xs (set pc me notifying) m.kill) (sym (R.entries-lrem m.queue me))
        (leave i me live at)
  Move-Inv {me} {m} {pc} i live at (notify_none e) =
      stay i me cleaning (sym (ap is_queued at)) (λ k. ground arith) (λ h. ground arith) refl
  Move-Inv {me} {m} {pc} i live at (notify_next e) =
      stay i me cleaning (sym (ap is_queued at)) (λ k. ground arith) (λ h. ground arith) refl
  Move-Inv {me} {m} {pc} i live at clean =
      stay i me outside (sym (ap is_queued at)) (λ k. ground arith) (λ h. ground arith) refl

  Step-Inv : {s t : System R} → SystemInv s → Step R s t → SystemInv t
  Step-Inv i (act p live move) = Move-Inv i live refl move
  Step-Inv i (die p) = die-Inv i p
  Step-Inv i (expire p) = i

  pub Reach-Inv : {s : System R} → Reach R s → SystemInv s
  Reach-Inv {s} (start no_entry no_process) =
      subst (λ xs. Inv xs s.pc s.shared.kill) (sym no_entry) (start-Inv no_process)
  Reach-Inv (later r step) = Step-Inv (Reach-Inv r) step
