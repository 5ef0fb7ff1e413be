-- ===== src/Frontend/Build/Outcome.antt =====
-- What `Build.status` of frontend/coprs_frontend/coprs/models.py is once the build is finished.
use mathlib.Core.Path.{subst}
use copr.Base.{
  ◌≡◌, refl, Option, none, some, List, [], ◌∷◌, true, false, arith, map, Bool-cases, inl, inr,
}
use copr.Base.Equality.{beq}
use copr.Base.Dict.{contains}
use copr.Frontend.Status.{
  Status, status_eq, value, failed, succeeded, running, pending, skipped, starting, forked, waiting,
  finished_states, status_beq_iff,
}
use copr.Frontend.Build.{
  Build, BuildChroot, chroot_states, has_state, first_state, or_pending, status_of_chroots, status,
  finished_early, is_finished_state, chroot_finished, all_finished, finished_chroots, finished,
}

has_state-unfinished :
    (o : Option Status) (states : List (Option Status)) (s : Status)
    → contains finished_states s ≡ false
    → is_finished_state o ≡ true
    → has_state states s ≡ false
    → has_state (o ∷ states) s ≡ false
unfolding has_state is_finished_state
has_state-unfinished none states s h f rest = cc
has_state-unfinished (some t) states s h f rest = elim (Bool-cases (beq t s)) [
  | inl same ↦
      let f' = subst (λ x. contains finished_states x ≡ true) ((status_beq_iff t s).0 same) f in cc
  | inr other ↦ ground (arith, rest, other)
]

no_unfinished_state :
    (build : Build) (chroots : List BuildChroot) (s : Status)
    → finished_early build ≡ false
    → contains finished_states s ≡ false
    → all_finished build chroots ≡ true
    → has_state (map (λ chroot. chroot.status) chroots) s ≡ false
unfolding all_finished chroot_finished has_state
no_unfinished_state build [] s early h all = refl
no_unfinished_state build (c ∷ cs) s early h all =
    has_state-unfinished c.status (map (λ chroot. chroot.status) cs) s h
      (ground (arith, early, all)) (no_unfinished_state build cs s early h (ground (arith, all)))

-- The order in which a finished build takes its state from its chroots.
abbrev pub outcome_order : List Status
outcome_order = failed ∷ succeeded ∷ skipped ∷ forked ∷ []

or_pending-not_waiting :
    (states : List (Option Status)) (o : Option Status)
    → has_state states waiting ≡ false
    → or_pending states o ≡ o
unfolding or_pending
or_pending-not_waiting states none h = rw h refl
or_pending-not_waiting states (some s) h = refl

status_of_chroots-outcome :
    (o : Option Status) (os : List (Option Status))
    → has_state (o ∷ os) running ≡ false
    → has_state (o ∷ os) starting ≡ false
    → has_state (o ∷ os) pending ≡ false
    → has_state (o ∷ os) waiting ≡ false
    → status_of_chroots (o ∷ os) ≡ first_state outcome_order (o ∷ os)
unfolding status_of_chroots first_state
status_of_chroots-outcome o os r s p w =
    simp (r, s, p) (or_pending-not_waiting (o ∷ os) (first_state outcome_order (o ∷ os)) w)

all_finished-finished :
    (build : Build) (c : BuildChroot) (cs : List BuildChroot)
    → build.build_chroots ≡ c ∷ cs
    → finished_early build ≡ false
    → finished build ≡ true
    → all_finished build (c ∷ cs) ≡ true
unfolding finished finished_chroots
all_finished-finished build c cs chroots early done =
    subst (λ l. finished_chroots build l ≡ true) chroots (ground (arith, early, done))

-- A build with sources that were imported and with chroots, which is not canceled: once it is
-- finished, its state is the first of "failed", "succeeded", "skipped" and "forked" that one of its
-- chroots has, and None ("unknown") where all of them are canceled.
pub status-finished :
    (build : Build) (c : BuildChroot) (cs : List BuildChroot)
    → build.build_chroots ≡ c ∷ cs
    → build.canceled_flag ≡ false
    → build.source_status ≡ succeeded
    → finished build ≡ true
    → status build ≡ first_state outcome_order (chroot_states build)
unfolding status finished_early contains value
status-finished build c cs chroots live sources done =
    let early : finished_early build ≡ false = simp (live, sources) in
    let all = all_finished-finished build c cs chroots early done in
    let outcome =
      status_of_chroots-outcome c.status (map (λ chroot. chroot.status) cs)
        (no_unfinished_state build (c ∷ cs) running early refl all)
        (no_unfinished_state build (c ∷ cs) starting early refl all)
        (no_unfinished_state build (c ∷ cs) pending early refl all)
        (no_unfinished_state build (c ∷ cs) waiting early refl all) in
    simp (live, sources, chroots) outcome
