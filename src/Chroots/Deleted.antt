-- ===== src/Chroots/Deleted.antt =====
-- Whose data `delete_outdated_chroots_function` of
-- frontend/coprs_frontend/commands/delete_outdated_chroots.py has removed.
use copr.Base.{
  ◌≡◌, refl, sym, ap, ◌∙◌, Option, none, some, List, [], ◌∷◌, ◌++◌, Bool, true, false, not, ◌&&◌,
  ◌||◌, arith, ℕ, if◌then◌else◌, if_cases,
}
use mathlib.Core.Path.{subst}
use mathlib.Core.List.{append-nil, append_assoc}
use copr.Base.Maybe.{>>=-eq-some, some_path}
use copr.Chroots.{
  name, CoprChroot, DeletionStatus, is_set, before, delete_status, unclicked_status,
  inactive_status, active_status, is_expired,
}
use copr.Chroots.Edit.{Action, delete_chroot, Session}
use copr.Chroots.Commands.{
  is_to_be_deleted, send_delete_chroot, delete, delete_by_status, delete_each,
  delete_outdated_chroots_function,
}

-- The policy: the time is over, the project is neither deleted nor persistent, and the chroot was
-- unclicked by its owners or they were notified.
unfoldable pub may_be_deleted : ℕ → CoprChroot → Bool
may_be_deleted now c =
    before c.delete_after now
    && (not c.copr.deleted && (not c.copr.persistent && (c.deleted || is_set c.delete_notify)))

unfoldable pub deletions : ℕ → List CoprChroot → List Action
unfolding may_be_deleted
deletions now [] = []
deletions now (c ∷ cs) =
    let rest = deletions now cs in
    if may_be_deleted now c then delete_chroot c.copr.id (name c.mock_chroot) ∷ rest else rest

-- A chroot that the query finds, and that has a status, is deleted exactly if the policy allows it.
expired_lem :
    (now : ℕ) (c : CoprChroot) (st : DeletionStatus)
    → delete_status now c ≡ some st
    → is_to_be_deleted now c ≡ true
    → is_expired st ≡ may_be_deleted now c
unfolding delete_status unclicked_status inactive_status active_status is_to_be_deleted
    may_be_deleted
expired_lem now c st h found = ground (arith, h, found)

unfound_lem :
    (now : ℕ) (c : CoprChroot) → is_to_be_deleted now c ≡ false → may_be_deleted now c ≡ false
unfolding is_to_be_deleted may_be_deleted
unfound_lem now c h = ground (arith, h)

abbrev one_deletion : ℕ → CoprChroot → List Action
one_deletion now c =
    if may_be_deleted now c then delete_chroot c.copr.id (name c.mock_chroot) ∷ [] else []

-- One turn of the loop.
unfoldable turn : ℕ → CoprChroot → Session → Option Session
unfolding is_to_be_deleted delete_status
turn now c s = if is_to_be_deleted now c then delete_by_status c (delete_status now c) s else some s

found_turn :
    (now : ℕ) (c : CoprChroot) (s t : Session) (o : Option DeletionStatus)
    → delete_status now c ≡ o
    → is_to_be_deleted now c ≡ true
    → delete_by_status c o s ≡ some t
    → t.actions ≡ s.actions ++ one_deletion now c
unfolding delete send_delete_chroot
found_turn now c s t none here found ran = ground (arith, ran)
found_turn now c s t (some st) here found ran =
    subst (λ (u : Session). u.actions ≡ s.actions ++ one_deletion now c) (some_path ran)
      (if_cases (λ (u : Session). u.actions ≡ s.actions ++ one_deletion now c) (is_expired st)
        (λ gone. simp (sym (expired_lem now c st here found) ∙ gone) refl)
        (λ kept. simp (sym (expired_lem now c st here found) ∙ kept) (sym (append-nil s.actions))))

turn-actions :
    (now : ℕ) (c : CoprChroot) (s t : Session)
    → turn now c s ≡ some t
    → t.actions ≡ s.actions ++ one_deletion now c
unfolding turn
turn-actions now c s t ran =
    if_cases (λ (o : Option Session). o ≡ some t → t.actions ≡ s.actions ++ one_deletion now c)
      (is_to_be_deleted now c) (λ found e. found_turn now c s t (delete_status now c) refl found e)
      (λ other e.
        subst (λ (u : Session). u.actions ≡ s.actions ++ one_deletion now c) (some_path e)
          (simp (unfound_lem now c other) (sym (append-nil s.actions))))
      ran

delete_each-deletions :
    (now : ℕ) (cs : List CoprChroot) (s t : Session)
    → delete_each now cs s ≡ some t
    → t.actions ≡ s.actions ++ deletions now cs
unfolding delete_each deletions turn
delete_each-deletions now [] s t ran =
    subst (λ (u : Session). u.actions ≡ s.actions ++ []) (some_path ran)
      (sym (append-nil s.actions))
delete_each-deletions now (c ∷ cs) s t ran =
    let (u, first, rest) = >>=-eq-some (turn now c s) (delete_each now cs) ran in
    delete_each-deletions now cs u t rest
    ∙ ap (λ xs. xs ++ deletions now cs) (turn-actions now c s u first)
    ∙ append_assoc s.actions (one_deletion now c) (deletions now cs)
    ∙ ap (λ xs. s.actions ++ xs)
        (if_cases
          (λ (xs : List Action). xs ++ deletions now cs ≡ (
            if may_be_deleted now c
            then delete_chroot c.copr.id (name c.mock_chroot) ∷ deletions now cs
            else deletions now cs))
          (may_be_deleted now c) (λ y. simp y refl) (λ n. simp n refl))

-- The chroots whose deletion a successful run of the command asks of the backend are exactly those whose time is over, in projects
-- neither deleted nor persistent, that were unclicked by their owners or whose owners were notified.
pub delete_outdated_chroots_function-deletions :
    (now : ℕ) (s t : Session)
    → delete_outdated_chroots_function now s ≡ some t
    → t.actions ≡ s.actions ++ deletions now s.copr_chroots
unfolding delete_outdated_chroots_function
delete_outdated_chroots_function-deletions now s t ran =
    delete_each-deletions now s.copr_chroots s t ran
