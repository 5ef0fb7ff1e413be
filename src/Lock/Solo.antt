-- ===== src/Lock/Solo.antt =====
-- No process waits for one that has died: the dead entries of the queue of
-- common/copr_common/lock.py are removed by those who wait behind them.
use copr.Base.{
  ℕ, ◌≤◌, ◌≡◌, refl, sym, ap, ◌∙◌, inl, inr, some, List, [], ◌∷◌, true, false, Bool-cases, ◌==◌,
  arith, ==_iff,
}
use copr.Base.Equality.{nat_eq, beq_iff}
use copr.Base.Dict.{contains}
use mathlib.Core.Path.{subst}
use copr.Lock.{
  look_me, look_other, find_dead, find_alive, remove_dead, wait, head, remove_first, Redis, Kill,
  is_alive, Pc, outside, looking, requeue, found, removing, waiting, locked, leaving, notifying,
  cleaning, in_loop, set, Shared, Move, System, alive, Reach,
}
use copr.Lock.Queue.{count, count-remove_first, ahead, ahead-remove_first}
use copr.Lock.Invariant.{is_requeue, in_loop-is_queued, target, SystemInv, Reach-Inv}
use copr.Lock.Fair.{entries, Holds}

module _ (R : Redis) (p : ℕ) where
  -- Steps of one live process and of no other.
  pub data Alone : System R → System R → Type 0 where
    here : {s : System R} → Alone s s
    go :
        {s : System R} {m : Shared R} {c : Pc} {t : System R}
        → alive R s p ≡ true
        → Move R p s.shared (s.pc p) m c
        → Alone (record { shared = m; pc = set s.pc p c }) t
        → Alone s t

  abbrev Gets : System R → Type 0
  Gets s = (t : System R) × (Alone s t × Holds R t p)

  by_move :
      {s : System R} {m : Shared R} {c d : Pc}
      → alive R s p ≡ true
      → s.pc p ≡ c
      → Move R p s.shared c m d
      → Gets (record { shared = m; pc = set s.pc p d })
      → Gets s
  by_move {s} {m} {d} live at move (t, (steps, holds)) =
      (t, (go live (subst (λ e. Move R p s.shared e m d) (sym at) move) steps, holds))

  set_same : (f : ℕ → Pc) (c : Pc) → set f p c p ≡ c
  set_same f c = ground (arith, ==_iff p p)

  unfoldable Clear : List ℕ → (ℕ → Kill) → Type 0
  Clear xs kill =
      (1 ≤ count xs p) × ((h : ℕ) → contains (ahead xs p) h ≡ true → is_alive (kill h) ≡ false)

  from_looking :
      (xs : List ℕ) (s : System R)
      → entries R s ≡ xs
      → alive R s p ≡ true
      → s.pc p ≡ looking
      → Clear xs s.shared.kill
      → Gets s
  unfolding count ahead contains Clear remove_first
  from_looking [] s e live at clear = ground (arith, clear.0)
  from_looking (x ∷ xs) s e live at clear = elim (Bool-cases (x == p)) [
    | inl same ↦
        by_move live at (look_me (top ∙ ap some ((==_iff x p).0 same)))
          (_, (here, (live, set_same s.pc locked)))
    | inr other ↦ by_move live at (look_other top (λ q. ground (arith, ==_iff x p))) (
        by_move live (set_same s.pc (found x)) (find_dead (ground (arith, clear.1 x, beq_iff x x)))
          (by_move live (set_same (set s.pc p (found x)) (removing x)) remove_dead (
            from_looking xs _
              (R.entries-lrem s.shared.queue x
                ∙ ap (λ q. remove_first q x) e
                ∙ ground (arith, ==_iff x x))
              live (set_same (set (set s.pc p (found x)) p (removing x)) looking)
              (ground (arith, clear.0), λ h c. ground (arith, clear.1 h)))))
  ]
    where
      top : R.lindex s.shared.queue ≡ some x
      top = R.lindex-head s.shared.queue ∙ ap head e

  back_to_looking :
      (s : System R)
      → alive R s p ≡ true
      → s.pc p ≡ waiting
      → Clear (entries R s) s.shared.kill
      → Gets s
  back_to_looking s live at clear =
      by_move live at wait (from_looking (entries R s) _ refl live (set_same s.pc looking) clear)

  from_removing :
      (s : System R) (h : ℕ)
      → alive R s p ≡ true
      → alive R s h ≡ false
      → s.pc p ≡ removing h
      → Clear (entries R s) s.shared.kill
      → Gets s
  unfolding Clear
  from_removing s h live dead at clear = by_move live at remove_dead (
      from_looking (remove_first xs h) _ (R.entries-lrem s.shared.queue h) live
        (set_same s.pc looking)
        (
          ground (arith, count-remove_first xs h p, ==_iff h p, clear.0),
          λ q c. clear.1 q (ahead-remove_first xs h p q (λ e. ground arith) c),
        ))
    where
      xs : List ℕ
      xs = entries R s

  from_found :
      (s : System R) (h : ℕ)
      → alive R s p ≡ true
      → s.pc p ≡ found h
      → Clear (entries R s) s.shared.kill
      → Gets s
  from_found s h live at clear = elim (Bool-cases (alive R s h)) [
    | inl up ↦
        by_move live at (find_alive up) (back_to_looking _ live (set_same s.pc waiting) clear)
    | inr down ↦
        by_move live at (find_dead down)
          (from_removing _ h live down (set_same s.pc (removing h)) clear)
  ]

  from_loop :
      (s : System R) (c : Pc)
      → s.pc p ≡ c
      → in_loop c ≡ true
      → SystemInv R s
      → alive R s p ≡ true
      → Clear (entries R s) s.shared.kill
      → Gets s
  from_loop s looking at l i live clear = from_looking (entries R s) s refl live at clear
  from_loop s requeue at l i live clear = ground (arith, i.filled p live, ap is_requeue at)
  from_loop s (found h) at l i live clear = from_found s h live at clear
  from_loop s (removing h) at l i live clear =
      from_removing s h live (i.dead p h (ap target at)) at clear
  from_loop s waiting at l i live clear = back_to_looking s live at clear
  from_loop s outside at l i live clear = ground arith
  from_loop s locked at l i live clear = ground arith
  from_loop s leaving at l i live clear = ground arith
  from_loop s notifying at l i live clear = ground arith
  from_loop s cleaning at l i live clear = ground arith

  -- A live process in the loop with no live process ahead of it in the queue takes the lock by its
  -- own steps alone, whatever the dead ones have left there and from wherever it stands in the loop.
  pub dead_do_not_block :
      (s : System R)
      → Reach R s
      → alive R s p ≡ true
      → in_loop (s.pc p) ≡ true
      → ((h : ℕ) → contains (ahead (entries R s) p) h ≡ true → alive R s h ≡ false)
      → (t : System R) × (Alone s t × Holds R t p)
  unfolding Clear
  dead_do_not_block s r live loop dead =
      from_loop s (s.pc p) refl loop i live
        (ground (arith, i.inside p live (in_loop-is_queued (s.pc p) loop)), dead)
    where
      i : SystemInv R s
      i = Reach-Inv R r
