-- ===== src/Chroots/Names.antt =====
-- `CoprChrootsLogic.update_from_names` of frontend/coprs_frontend/coprs/logic/coprs_logic.py: the chroots of
-- a project are set to those of given names. A Python set is a list without repetition; a mock chroot
-- among others is known by its id.

use copr.Base.{
  ℕ, zero, suc, Option, none, some, List, [], ◌∷◌, ◌++◌, Bool, true, false, not, ◌&&◌, ◌||◌, ◌==◌,
  leb, length, if◌then◌else◌,
}
use copr.Base.Equality.{Text, nat_eq, text_eq}
use copr.Base.Dict.{contains, add}
use copr.Base.Maybe.{◌>>=◌}
use copr.Frontend.User.{Copr, Permission}
use copr.Frontend.Status.{Status, status_eq, finished_states}
use copr.Chroots.{MockChroot, name, CoprChroot}
use copr.Chroots.Edit.{
  BuildRow, Action, createrepo, Session, Actor, may_edit, row, put_chroot, create_chroot,
  remove_copr_chroot,
}

unfoldable pub mock_chroots_from_names : List MockChroot → List Text → List MockChroot
mock_chroots_from_names [] names = []
mock_chroots_from_names (ch ∷ chs) names =
    let rest = mock_chroots_from_names chs names in
    if contains names (name ch) then ch ∷ rest else rest

-- mock_chroot in mock_chroots
unfoldable pub has_mock : List MockChroot → ℕ → Bool
has_mock [] id = false
has_mock (m ∷ ms) id = m.id == id || has_mock ms id

abbrev pub enable : CoprChroot → CoprChroot
enable cc = record cc { deleted = false; delete_after = none }

module _ (table : List Permission) (actor : Actor) (copr : Copr) where
  -- One turn of the loop over the new mock chroots, with what `chroot_map` has for it.
  unfoldable pub enable_one :
      MockChroot → Option CoprChroot → List Text → Session → Option (List Text × Session)
  unfolding create_chroot put_chroot
  enable_one mock_chroot (some cc) run_in s =
      if not cc.deleted
      then some (run_in, s)
      else some (
        add run_in (name mock_chroot),
        record s { copr_chroots = put_chroot (enable cc) s.copr_chroots },
      )
  enable_one mock_chroot none run_in s =
      create_chroot table actor copr mock_chroot s >>= (λ (cc, s'). some (
        add run_in (name mock_chroot),
        record s' { copr_chroots = put_chroot (enable cc) s'.copr_chroots },
      ))

  unfoldable pub enable_all :
      List CoprChroot → List MockChroot → List Text → Session → Option (List Text × Session)
  unfolding enable_one row
  enable_all current [] run_in s = some (run_in, s)
  enable_all current (m ∷ ms) run_in s =
      enable_one m (row current copr.id m.id) run_in s
      >>= (λ (run_in', s'). enable_all current ms run_in' s')

-- With `devel=None`: for "prod", and for "dev" where the project does no createrepo by itself.
unfoldable pub send_createrepo : Copr → List Text → List Action → List Action
send_createrepo copr chroots actions =
    let prod = actions ++ createrepo copr.id chroots false ∷ [] in
    if not copr.auto_createrepo then prod ++ createrepo copr.id chroots true ∷ [] else prod

unfoldable pub run_createrepo : Copr → List Text → Session → Session
unfolding send_createrepo
run_createrepo copr [] s = s
run_createrepo copr (c ∷ cs) s = record s { actions = send_createrepo copr (c ∷ cs) s.actions }

-- The mock chroots of the project's rows that are to be disabled: an EOLed one is not.
unfoldable pub to_remove : Copr → List MockChroot → List CoprChroot → List MockChroot
to_remove copr new [] = []
to_remove copr new (cc ∷ ccs) =
    let rest = to_remove copr new ccs in
    if cc.copr.id == copr.id && not (has_mock new cc.mock_chroot.id) && cc.mock_chroot.is_active
    then cc.mock_chroot ∷ rest
    else rest

-- In SQL, a status that is NULL is not known to be outside of the list.
abbrev pub is_unfinished : Option Status → Bool
is_unfinished none = false
is_unfinished (some s) = not (contains finished_states s)

abbrev pub is_of : ℕ → Option ℕ → Bool
is_of id none = false
is_of id (some i) = i == id

unfoldable pub unfinished_buildchroot : CoprChroot → List BuildRow → List BuildRow
unfinished_buildchroot cc [] = []
unfinished_buildchroot cc (b ∷ bs) =
    let rest = unfinished_buildchroot cc bs in
    if is_of cc.id b.copr_chroot_id && is_unfinished b.status then b ∷ rest else rest

unfoldable pub limit : ℕ → List BuildRow → List BuildRow
limit zero bs = []
limit (suc n) [] = []
limit (suc n) (b ∷ bs) = b ∷ limit n bs

abbrev pub max_items : ℕ
max_items = 5

unfoldable pub collect : List BuildRow → List ℕ → Bool → List ℕ × Bool
collect [] running shortened = (running, shortened)
collect (b ∷ bs) running shortened =
    let rest = collect bs (add running b.build_id) shortened in
    if leb max_items (length running) then (running, true) else rest

pub record Removal : Type 0 where
  pub running_builds : List ℕ
  pub shortened : Bool
  pub session : Session

pub data Outcome : Type 0 where
  done : Session → Outcome
  no_rights : Outcome
  conflicting : (builds : List ℕ) → (shortened : Bool) → Outcome

module _ (table : List Permission) (now : ℕ) (g_user : Actor) (copr : Copr)
    (current : List CoprChroot) where
  -- `chroot_map[mc]` is there: `mc` is a key of the map.
  unfoldable pub remove_one : Option CoprChroot → Removal → Option Removal
  unfolding unfinished_buildchroot limit collect remove_copr_chroot
  remove_one none r = some r
  remove_one (some cc) r =
      let (running, shortened) =
        collect (limit (suc max_items) (unfinished_buildchroot cc r.session.build_chroots))
          r.running_builds r.shortened in
      remove_copr_chroot table now g_user cc r.session
      >>= (λ s. some (record { running_builds = running; shortened = shortened; session = s }))

  unfoldable pub remove_all : List MockChroot → Removal → Option Removal
  unfolding remove_one row
  remove_all [] r = some r
  remove_all (mc ∷ mcs) r = remove_one (row current copr.id mc.id) r >>= (λ r'. remove_all mcs r')

-- The request is rejected while builds of the removed chroots are running.
unfoldable pub reject_running : List ℕ → Removal → Outcome
reject_running [] r = done r.session
reject_running (b ∷ bs) r = conflicting (b ∷ bs) r.shortened

abbrev pub outcome : Option Removal → Outcome
outcome none = no_rights
outcome (some r) = reject_running r.running_builds r

-- `actor` is the user that is given, `g_user` the one of the request.
unfoldable pub update_from_names :
    List Permission → ℕ → Actor → Actor → Copr → List Text → Session → Outcome
unfolding mock_chroots_from_names enable_all run_createrepo to_remove remove_all reject_running
update_from_names table now actor g_user copr names s =
    if not (may_edit table actor copr)
    then no_rights
    else (let new = mock_chroots_from_names s.mock_chroots names in
        outcome (
          enable_all table actor copr s.copr_chroots new [] s >>= (λ (run_in, s').
            remove_all table now g_user copr s.copr_chroots (to_remove copr new s.copr_chroots)
              (record {
                running_builds = [];
                shortened = false;
                session = run_createrepo copr run_in s';
              }))))
