-- ===== src/Chroots/Loops.antt =====
-- The two loops that a successful call of `update_from_names` of
-- frontend/coprs_frontend/coprs/logic/coprs_logic.py has gone through, and which mock chroots the second
-- is about.
use copr.Base.{
  ℕ, ◌≡◌, inl, inr, refl, ap, Option, none, some, List, [], ◌∷◌, Bool, true, false, not, ◌&&◌, ◌==◌,
  arith, All, if◌then◌else◌, ==_iff, if_cases, Bool-cases,
}
use mathlib.Core.Option
use mathlib.Core.Path.{subst}
use copr.Base.Equality.{Text, nat_eq, text_eq}
use copr.Base.Maybe.{>>=-eq-some}
use copr.Frontend.User.{Copr, Permission}
use copr.Chroots.{MockChroot, CoprChroot}
use copr.Chroots.Edit.{Session, Actor, may_edit, is_row, row, unclick}
use copr.Chroots.Names.{
  mock_chroots_from_names, has_mock, enable_all, run_createrepo, to_remove, Removal, remove_all,
  reject_running, Outcome, done, no_rights, conflicting, outcome, update_from_names,
}

-- All the rows with a mock chroot refer to one object.
abbrev pub IsShared : (ℕ → MockChroot) → List CoprChroot → Type 0
IsShared mock rows = All (λ (cc : CoprChroot). cc.mock_chroot ≡ mock cc.mock_chroot.id) rows

abbrev pub Says : (ℕ → MockChroot) → Copr → List MockChroot → List CoprChroot → ℕ → Type 0
Says mock copr new rows id = has_mock (to_remove copr new rows) id ≡ (
    elim (row rows copr.id id) [ none ↦ false | some cc ↦ true ]
    && (not (has_mock new id) && (mock id).is_active))

-- The mock chroots to remove are the active ones with a row that are not among the new.
pub has_mock-to_remove :
    (mock : ℕ → MockChroot) (copr : Copr) (new : List MockChroot) (rows : List CoprChroot) (id : ℕ)
    → IsShared mock rows
    → Says mock copr new rows id
unfolding has_mock to_remove row is_row
has_mock-to_remove mock copr new [] id shared = refl
has_mock-to_remove mock copr new (cc ∷ rows) id shared =
    elim (Bool-cases (cc.mock_chroot.id == id)) [
      | inl same ↦ subst (Says mock copr new (cc ∷ rows)) ((==_iff cc.mock_chroot.id id).0 same) (
          ground (
            arith,
            has_mock-to_remove mock copr new rows cc.mock_chroot.id shared.1,
            ap (λ (m : MockChroot). m.is_active) shared.0,
            ==_iff cc.mock_chroot.id cc.mock_chroot.id,
          ))
      | inr other ↦ ground (arith, other, has_mock-to_remove mock copr new rows id shared.1)
    ]

session_of : Session → Outcome → Session
session_of s (done t) = t
session_of s no_rights = s
session_of s (conflicting _ _) = s

reject_running-done :
    (bs : List ℕ) (r : Removal) (t : Session)
    → reject_running bs r ≡ done t
    → (bs ≡ []) × (r.session ≡ t)
unfolding reject_running session_of
reject_running-done [] r t h = (refl, ap (session_of t) h)
reject_running-done (b ∷ bs) r t h = ground (arith, h)

outcome-done :
    (o : Option Removal) (t : Session)
    → outcome o ≡ done t
    → (r : Removal) × (o ≡ some r) × (r.running_builds ≡ []) × (r.session ≡ t)
outcome-done none t h = ground (arith, h)
outcome-done (some r) t h =
    let (none_left, same) = reject_running-done r.running_builds r t h in (r, refl, none_left, same)

pub run_createrepo_rows :
    (copr : Copr) (run : List Text) (s : Session)
    → (run_createrepo copr run s).copr_chroots ≡ s.copr_chroots
unfolding run_createrepo
run_createrepo_rows copr [] s = refl
run_createrepo_rows copr (c ∷ cs) s = refl

abbrev pub if_active : Bool → ℕ → CoprChroot → CoprChroot
if_active b now cc = if b then unclick now cc else cc

pub map_active :
    (b : Bool) (now : ℕ) (o : Option CoprChroot)
    → b ≡ true
    → Option.map (unclick now) o ≡ Option.map (if_active b now) o
map_active b now none h = refl
map_active b now (some cc) h = simp h

pub map_inactive :
    (b : Bool) (now : ℕ) (o : Option CoprChroot)
    → (elim o [ none ↦ false | some cc ↦ true ] && b) ≡ false
    → o ≡ Option.map (if_active b now) o
map_inactive b now none h = refl
map_inactive b now (some cc) h = simp h

module _ (table : List Permission) (now : ℕ) (actor g_user : Actor) (copr : Copr)
    (names : List Text) where
  -- The two loops that a successful call has gone through.
  pub record Ran (s t : Session) : Type 0 where
    pub run_in : List Text
    pub enabled : Session
    pub removal : Removal
    pub first :
        enable_all table actor copr s.copr_chroots
          (mock_chroots_from_names s.mock_chroots names)
          []
          s
        ≡ some (run_in, enabled)
    pub second :
        remove_all table now g_user copr s.copr_chroots
          (to_remove copr (mock_chroots_from_names s.mock_chroots names) s.copr_chroots)
          (record {
            running_builds = [];
            shortened = false;
            session = run_createrepo copr run_in enabled;
          })
        ≡ some removal
    pub none_running : removal.running_builds ≡ []
    pub result : removal.session ≡ t

  pub update_from_names-Ran :
      (s t : Session) → update_from_names table now actor g_user copr names s ≡ done t → Ran s t
  unfolding update_from_names
  update_from_names-Ran s t ran =
      if_cases (λ (o : Outcome). o ≡ done t → Ran s t) (not (may_edit table actor copr))
        (λ _ e. ground (arith, e))
        (λ _ e.
          let (removal, both, none_running, result) = outcome-done _ t e in
          let ((run_in, enabled), first, second) =
            >>=-eq-some
              (enable_all table actor copr s.copr_chroots
                (mock_chroots_from_names s.mock_chroots names) [] s)
              _ both in
          record {
            run_in = run_in;
            enabled = enabled;
            removal = removal;
            first = first;
            second = second;
            none_running = none_running;
            result = result;
          })
        ran
