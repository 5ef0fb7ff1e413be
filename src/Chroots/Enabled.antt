-- ===== src/Chroots/Enabled.antt =====
-- What `update_from_names` of frontend/coprs_frontend/coprs/logic/coprs_logic.py comes to.
use copr.Base.{
  ℕ, ◌≡◌, inl, inr, refl, sym, ap, ◌∙◌, some, List, [], Bool, true, false, ◌&&◌, ◌==◌, arith,
  Bool-cases,
}
use mathlib.Core.Option
use mathlib.Core.Path.{subst}
use copr.Base.Equality.{Text, nat_eq, text_eq}
use copr.Frontend.User.{Copr, Permission}
use copr.Chroots.{MockChroot, CoprChroot}
use copr.Chroots.Edit.{Session, Actor, row}
use copr.Chroots.Names.{
  mock_chroots_from_names, has_mock, run_createrepo, to_remove, unfinished_buildchroot, Removal,
  done, update_from_names,
}
use copr.Chroots.Rows.{is_on}
use copr.Chroots.Enabling.{Enables, enable_all-Enables}
use copr.Chroots.Removing.{Removes, remove_all-Removes}
use copr.Chroots.Wanted.{
  is_named, has_mock-mock_chroots_from_names, dropped, map-dropped, IsQuiet,
  unfinished_buildchroot-IsQuiet,
}
use copr.Chroots.Loops.{
  IsShared, Says, has_mock-to_remove, run_createrepo_rows, if_active, map_active, map_inactive,
  update_from_names-Ran,
}

module _ (table : List Permission) (now : ℕ) (actor g_user : Actor) (copr : Copr)
    (names : List Text) where
  module _ (mock : ℕ → MockChroot) (s t : Session) (shared : IsShared mock s.copr_chroots)
      (ran : update_from_names table now actor g_user copr names s ≡ done t) where
    abbrev new : List MockChroot
    new = mock_chroots_from_names s.mock_chroots names

    abbrev drops : ℕ → Bool
    drops = has_mock (to_remove copr new s.copr_chroots)

    drops_lem : (id : ℕ) → Says mock copr new s.copr_chroots id
    drops_lem id = has_mock-to_remove mock copr new s.copr_chroots id shared

    open (update_from_names-Ran table now actor g_user copr names s t ran) use {
      run_in, enabled, removal, first, second, none_running, result,
    }

    enables : Enables table actor copr s.copr_chroots new s enabled
    enables =
        enable_all-Enables table actor copr s.copr_chroots new [] s (run_in, enabled)
          (λ id. inr refl) first

    abbrev between : Removal
    between = record {
      running_builds = [];
      shortened = false;
      session = run_createrepo copr run_in enabled;
    }

    -- No row of the project that is to be dropped was touched by the first loop.
    before_removal :
        (c id : ℕ)
        → (copr.id == c && has_mock new id) ≡ false
        → row between.session.copr_chroots c id ≡ row s.copr_chroots c id
    unfolding Enables
    before_removal c id other =
        ap (λ rows. row rows c id) (run_createrepo_rows copr run_in enabled) ∙ enables.1 c id other

    removes : Removes table now g_user copr s.copr_chroots drops between removal
    removes =
        remove_all-Removes table now g_user copr s.copr_chroots (to_remove copr new s.copr_chroots)
          between removal
          (λ id h. inl (before_removal copr.id id (ground (arith, drops_lem id, h)))) second

    set_row : (id : ℕ) → has_mock new id ≡ true → is_on (row t.copr_chroots copr.id id) ≡ true
    unfolding Enables
    set_row id named =
        subst (λ (u : Session). is_on (row u.copr_chroots copr.id id) ≡ true) result
          (rw (removes.same copr.id id (ground (arith, drops_lem id, named)))
            (rw (run_createrepo_rows copr run_in enabled) (enables.0 id named)))

    other_row :
        (id : ℕ)
        → has_mock new id ≡ false
        → row t.copr_chroots copr.id id
          ≡ Option.map (if_active (mock id).is_active now) (row s.copr_chroots copr.id id)
    other_row id unnamed =
        subst
          (λ (u : Session).
            row u.copr_chroots copr.id id
            ≡ Option.map (if_active (mock id).is_active now) (row s.copr_chroots copr.id id))
          result
          (elim (Bool-cases (drops id)) [
            | inl dropped ↦
                removes.each id dropped
                ∙ map_active (mock id).is_active now (row s.copr_chroots copr.id id)
                    (ground (arith, drops_lem id, dropped))
            | inr stays ↦
                removes.same copr.id id (ground (arith, stays))
                ∙ before_removal copr.id id (ground (arith, unnamed))
                ∙ map_inactive (mock id).is_active now (row s.copr_chroots copr.id id)
                    (ground (arith, drops_lem id, stays, unnamed))
          ])

    foreign_row :
        (c id : ℕ) → (copr.id == c) ≡ false → row t.copr_chroots c id ≡ row s.copr_chroots c id
    foreign_row c id foreign =
        subst (λ (u : Session). row u.copr_chroots c id ≡ row s.copr_chroots c id) result
          (removes.same c id (ground (arith, foreign))
            ∙ before_removal c id (ground (arith, foreign)))

    quiet_row :
        (id : ℕ) (cc : CoprChroot)
        → has_mock new id ≡ false
        → (mock id).is_active ≡ true
        → row s.copr_chroots copr.id id ≡ some cc
        → unfinished_buildchroot cc t.build_chroots ≡ []
    quiet_row id cc unnamed active found =
        subst (λ (u : Session). unfinished_buildchroot cc u.build_chroots ≡ []) result
          (subst (λ bs. unfinished_buildchroot cc bs ≡ []) (sym removes.builds)
            (removes.none_running none_running id
              (ground (arith, drops_lem id, unnamed, active, found)) cc found))

-- The table that a successful call leaves: each of the named chroots is enabled in the project; its other
-- rows are dropped if their mock chroot is active and are otherwise as before; no row of another
-- project changes.
abbrev pub IsAsNamed :
    (ℕ → MockChroot)
    → ℕ
    → Copr
    → List MockChroot
    → List Text
    → List CoprChroot
    → List CoprChroot
    → Type 0
IsAsNamed mock now copr mocks names before rows =
    ((id : ℕ) → is_named mocks names id ≡ true → is_on (row rows copr.id id) ≡ true)
    × ((id : ℕ)
        → is_named mocks names id ≡ false
        → row rows copr.id id
          ≡ Option.map (dropped (mock id).is_active now) (row before copr.id id))
    × ((c id : ℕ) → (copr.id == c) ≡ false → row rows c id ≡ row before c id)

-- When `update_from_names` succeeds, the chroots with the given names are enabled in the project; its
-- other rows are disabled if their mock chroot is active, with seven days for the data of those that
-- were enabled, and otherwise as before; and no row of another project changes; in a table whose rows
-- refer to one object for each mock chroot.
pub update_from_names-IsAsNamed :
    (table : List Permission) (now : ℕ) (actor g_user : Actor) (copr : Copr) (names : List Text)
    (mock : ℕ → MockChroot) (s t : Session)
    → IsShared mock s.copr_chroots
    → update_from_names table now actor g_user copr names s ≡ done t
    → IsAsNamed mock now copr s.mock_chroots names s.copr_chroots t.copr_chroots
update_from_names-IsAsNamed table now actor g_user copr names mock s t shared ran =
    let same = has_mock-mock_chroots_from_names s.mock_chroots names in
    (
      (λ id named.
          set_row table now actor g_user copr names mock s t shared ran id (same id ∙ named)),
      (λ id unnamed.
          other_row table now actor g_user copr names mock s t shared ran id (same id ∙ unnamed)
          ∙ map-dropped (mock id).is_active now (row s.copr_chroots copr.id id)),
      foreign_row table now actor g_user copr names mock s t shared ran,
    )

-- When `update_from_names` succeeds, all build chroots of a chroot that it drops from the project, one
-- with a row and an active mock chroot that is not named, are over or have no status.
pub dropped-IsQuiet :
    (table : List Permission) (now : ℕ) (actor g_user : Actor) (copr : Copr) (names : List Text)
    (mock : ℕ → MockChroot) (s t : Session)
    → IsShared mock s.copr_chroots
    → update_from_names table now actor g_user copr names s ≡ done t
    → (id : ℕ) (cc : CoprChroot) → is_named s.mock_chroots names id ≡ false
    → (mock id).is_active ≡ true
    → row s.copr_chroots copr.id id ≡ some cc
    → IsQuiet cc t.build_chroots
dropped-IsQuiet table now actor g_user copr names mock s t shared ran id cc unnamed active found =
    unfinished_buildchroot-IsQuiet cc t.build_chroots (
      quiet_row table now actor g_user copr names mock s t shared ran id cc
        (has_mock-mock_chroots_from_names s.mock_chroots names id ∙ unnamed) active found)
