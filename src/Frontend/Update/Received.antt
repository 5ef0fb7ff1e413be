-- ===== src/Frontend/Update/Received.antt =====
-- What becomes of a build by the updates that are not about its sources, through
-- `update_state_from_dict` of frontend/coprs_frontend/coprs/logic/builds_logic.py.
use copr.Base.{
  ℕ, ◌≡◌, refl, sym, ap, ◌∙◌, Option, none, some, List, [], ◌∷◌, ◌++◌, true, false, All, All-map,
  map, if◌then◌else◌, Bool-cases, inl, inr,
}
use copr.Base.Equality.{Text, text_eq, maybe_eq, beq, beq_iff}
use copr.Base.Maybe.{◌>>=◌, some_path}
use copr.Frontend.Status.{Status, status_eq}
use copr.Frontend.Build.{Build, BuildChroot}
use copr.Frontend.Update.{
  UpdDict, update_chroot, TaskId, of_sources, of_chroot, set_attrs, is_source_task,
  update_state_from_dict,
}
use copr.Frontend.Update.Ended.{is_ended, is_terminal-is_ended}
use copr.Frontend.Update.Terminal.{receive_chroot, update_chroot-name, chroot_first_terminal}

receive_chroot-name :
    (us : List (ℕ × UpdDict)) (c : BuildChroot) → (receive_chroot us c).name ≡ c.name
unfolding receive_chroot
receive_chroot-name [] c = refl
receive_chroot-name ((now, upd) ∷ us) c =
    receive_chroot-name us (update_chroot now upd c) ∙ update_chroot-name now upd c

-- The build after some updates; `none` is an exception. The chroots of a package are read only in a
-- report on sources.
unfoldable pub receive : List (ℕ × UpdDict) → Build → Option Build
unfolding update_state_from_dict
receive [] build = some build
receive ((now, upd) ∷ later) build = update_state_from_dict now upd none build >>= receive later

-- The update is not about the sources of the build.
abbrev pub IsOnChroots : Build → ℕ × UpdDict → Type 0
IsOnChroots build u = is_source_task u.1.task_id build ≡ false

-- What is read of a build afterwards: the state of the chroot with the name.
unfoldable pub status_named : List BuildChroot → Text → Option Status
status_named [] name = none
status_named (c ∷ cs) name = if beq c.name name then c.status else status_named cs name

unfoldable pub find_named : List BuildChroot → Text → Option BuildChroot
find_named [] name = none
find_named (c ∷ cs) name = if beq c.name name then some c else find_named cs name

status_named-receive_chroot :
    (us : List (ℕ × UpdDict)) (cs : List BuildChroot) (name : Text) (c : BuildChroot)
    → find_named cs name ≡ some c
    → (status_named (map (receive_chroot us) cs) name ≡ (receive_chroot us c).status)
      × (c.name ≡ name)
unfolding status_named find_named
status_named-receive_chroot us [] name c found = absurd cc
status_named-receive_chroot us (d ∷ cs) name c found = elim (Bool-cases (beq d.name name)) [
  | inl here ↦
      let same : d ≡ c = some_path (sym (simp here refl) ∙ found) in
      (
        rw (receive_chroot-name us d, here)
            (ap (λ (x : BuildChroot). (receive_chroot us x).status) same),
        ap (λ (x : BuildChroot). x.name) (sym same) ∙ (beq_iff d.name name).0 here,
      )
  | inr there ↦
      let (later, named) =
        status_named-receive_chroot us cs name c (sym (simp there refl) ∙ found) in
      (rw (receive_chroot-name us d, there) later, named)
]

same_source_task :
    (t : Option TaskId) (build b : Build)
    → b.id ≡ build.id
    → is_source_task t b ≡ is_source_task t build
unfolding is_source_task
same_source_task none build b h = refl
same_source_task (some (of_sources id)) build b h = rw h refl
same_source_task (some (of_chroot id name)) build b h = refl

after_report : ℕ → UpdDict → Build → Build
after_report now upd build = record (set_attrs upd build) {
  build_chroots = map (update_chroot now upd) build.build_chroots;
}

after_report-id :
    (now : ℕ) (upd : UpdDict) (build : Build) → (after_report now upd build).id ≡ build.id
unfolding after_report set_attrs
after_report-id now upd build = refl

after_report_lem :
    (now : ℕ) (upd : UpdDict) (build : Build)
    → is_source_task upd.task_id build ≡ false
    → update_state_from_dict now upd none build ≡ some (after_report now upd build)
unfolding update_state_from_dict after_report set_attrs
after_report_lem now upd build on =
    let on' = same_source_task upd.task_id build (set_attrs upd build) refl ∙ on in rw on' refl

unfoldable received : List (ℕ × UpdDict) → Build → Build
unfolding after_report
received [] build = build
received ((now, upd) ∷ us) build = received us (after_report now upd build)

receive-received :
    (us : List (ℕ × UpdDict)) (build : Build)
    → All (IsOnChroots build) us
    → receive us build ≡ some (received us build)
unfolding receive received
receive-received [] build on = refl
receive-received ((now, upd) ∷ us) build on =
    let next = after_report now upd build in
    rw (after_report_lem now upd build on.0) (
      receive-received us next (
        All-map us
          (λ u h. same_source_task u.1.task_id build next (after_report-id now upd build) ∙ h)
          on.1))

map_twice :
    (f g : BuildChroot → BuildChroot) (cs : List BuildChroot)
    → map f (map g cs) ≡ map (λ c. f (g c)) cs
map_twice f g [] = refl
map_twice f g (c ∷ cs) = ap (λ l. f (g c) ∷ l) (map_twice f g cs)

map_same : (cs : List BuildChroot) → cs ≡ map (λ c. c) cs
map_same [] = refl
map_same (c ∷ cs) = ap (λ l. c ∷ l) (map_same cs)

received-build_chroots :
    (us : List (ℕ × UpdDict)) (build : Build)
    → (received us build).build_chroots ≡ map (receive_chroot us) build.build_chroots
unfolding received receive_chroot after_report
received-build_chroots [] build = map_same build.build_chroots
received-build_chroots ((now, upd) ∷ us) build =
    received-build_chroots us (after_report now upd build)
    ∙ map_twice (receive_chroot us) (update_chroot now upd) build.build_chroots

-- The first terminal state that is reported for a chroot in no terminal state is the one that it keeps,
-- as long as no update is about the sources of the build: whatever was reported before, to any chroot,
-- as long as it was not terminal, and whatever is reported later, on any chroot. None of the updates
-- raises.
pub receive_first_terminal :
    (before later : List (ℕ × UpdDict)) (now : ℕ) (upd : UpdDict) (build : Build) (c : BuildChroot)
    (name : Text) (s : Status)
    → find_named build.build_chroots name ≡ some c
    → is_ended c.status ≡ false
    → All (IsOnChroots build) (before ++ (now, upd) ∷ later)
    → All (λ u. is_ended u.1.status ≡ false) before
    → upd.chroot ≡ some name
    → upd.status ≡ some s
    → is_ended (some s) ≡ true
    → (b : Build) × (receive (before ++ (now, upd) ∷ later) build ≡ some b)
      × (status_named b.build_chroots name ≡ some s)
receive_first_terminal before later now upd build c name s found running on none_yet named new end =
    let us = before ++ (now, upd) ∷ later in
    let (shown, own) = status_named-receive_chroot us build.build_chroots name c found in
    (
      received us build,
      receive-received us build on,
      ap (λ cs. status_named cs name) (received-build_chroots us build)
          ∙ shown
          ∙ chroot_first_terminal before later now upd c s (is_terminal-is_ended c.status ∙ running)
              (All-map before (λ u h. is_terminal-is_ended u.1.status ∙ h) none_yet)
              (named ∙ ap (λ n. some n) (sym own)) new (is_terminal-is_ended (some s) ∙ end),
    )
