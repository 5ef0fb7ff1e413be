-- ===== src/Frontend/Update/Terminal.antt =====
-- The terminal states of a chroot under the updates of `update_state_from_dict`,
-- frontend/coprs_frontend/coprs/logic/builds_logic.py.
use copr.Base.{
  ℕ, ◌≡◌, refl, sym, ap, ◌∙◌, Option, none, some, List, [], ◌∷◌, ◌++◌, true, false, if_cases, All,
}
use copr.Base.Equality.{text_eq, maybe_eq, beq, beq_refl}
use copr.Frontend.Status.{Status, status_eq}
use copr.Frontend.Build.{BuildChroot}
use copr.Frontend.Update.{UpdDict, set_status, is_terminal, update_chroot}

-- What becomes of a chroot by the reports on chroots, one after the other, each with its time.
unfoldable pub receive_chroot : List (ℕ × UpdDict) → BuildChroot → BuildChroot
unfolding update_chroot
receive_chroot [] c = c
receive_chroot ((now, upd) ∷ later) c = receive_chroot later (update_chroot now upd c)

set_status_terminal : (new old : Option Status) → is_terminal old ≡ true → set_status new old ≡ old
unfolding set_status is_terminal
set_status_terminal none old h = refl
set_status_terminal (some s) none h = cc
set_status_terminal (some s) (some o) h = rw h refl

set_status_running :
    (new old : Option Status)
    → is_terminal old ≡ false
    → is_terminal new ≡ false
    → is_terminal (set_status new old) ≡ false
unfolding set_status is_terminal
set_status_running none old h g = h
set_status_running (some s) none h g = g
set_status_running (some s) (some o) h g = rw h g

set_status_new :
    (s : Status) (old : Option Status) → is_terminal old ≡ false → set_status (some s) old ≡ some s
unfolding set_status is_terminal
set_status_new s none h = refl
set_status_new s (some o) h = rw h refl

pub update_chroot-name :
    (now : ℕ) (upd : UpdDict) (c : BuildChroot) → (update_chroot now upd c).name ≡ c.name
unfolding update_chroot
update_chroot-name now upd c =
    if_cases (λ (d : BuildChroot). d.name ≡ c.name) (beq upd.chroot (some c.name)) (λ y. refl)
      (λ n. refl)

update_chroot_terminal :
    (now : ℕ) (upd : UpdDict) (c : BuildChroot)
    → is_terminal c.status ≡ true
    → (update_chroot now upd c).status ≡ c.status
unfolding update_chroot
update_chroot_terminal now upd c h =
    if_cases (λ (d : BuildChroot). d.status ≡ c.status) (beq upd.chroot (some c.name))
      (λ y. set_status_terminal upd.status c.status h) (λ n. refl)

update_chroot_running :
    (now : ℕ) (upd : UpdDict) (c : BuildChroot)
    → is_terminal c.status ≡ false
    → is_terminal upd.status ≡ false
    → is_terminal (update_chroot now upd c).status ≡ false
unfolding update_chroot
update_chroot_running now upd c h g =
    if_cases (λ (d : BuildChroot). is_terminal d.status ≡ false) (beq upd.chroot (some c.name))
      (λ y. set_status_running upd.status c.status h g) (λ n. h)

receive_chroot_terminal :
    (us : List (ℕ × UpdDict)) (c : BuildChroot)
    → is_terminal c.status ≡ true
    → (receive_chroot us c).status ≡ c.status
unfolding receive_chroot
receive_chroot_terminal [] c h = refl
receive_chroot_terminal ((now, upd) ∷ us) c h =
    let same = update_chroot_terminal now upd c h in
    receive_chroot_terminal us (update_chroot now upd c) (ap is_terminal same ∙ h) ∙ same

update_chroot_ends :
    (now : ℕ) (upd : UpdDict) (c : BuildChroot) (s : Status)
    → upd.chroot ≡ some c.name
    → upd.status ≡ some s
    → is_terminal c.status ≡ false
    → (update_chroot now upd c).status ≡ some s
unfolding update_chroot
update_chroot_ends now upd c s named new h =
    simp (named, beq_refl (some c.name), new) (set_status_new s c.status h)

pub chroot_first_terminal :
    (before later : List (ℕ × UpdDict)) (now : ℕ) (upd : UpdDict) (c : BuildChroot) (s : Status)
    → is_terminal c.status ≡ false
    → All (λ u. is_terminal u.1.status ≡ false) before
    → upd.chroot ≡ some c.name
    → upd.status ≡ some s
    → is_terminal (some s) ≡ true
    → (receive_chroot (before ++ (now, upd) ∷ later) c).status ≡ some s
unfolding receive_chroot
chroot_first_terminal [] later now upd c s h all named new end =
    let ends = update_chroot_ends now upd c s named new h in
    receive_chroot_terminal later (update_chroot now upd c) (ap is_terminal ends ∙ end) ∙ ends
chroot_first_terminal ((t, u) ∷ before) later now upd c s h all named new end =
    chroot_first_terminal before later now upd (update_chroot t u c) s
      (update_chroot_running t u c h all.0) all.1
      (named ∙ ap (λ n. some n) (sym (update_chroot-name t u c))) new end
