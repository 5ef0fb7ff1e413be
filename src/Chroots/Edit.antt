-- ===== src/Chroots/Edit.antt =====
-- frontend/coprs_frontend/coprs/logic/coprs_logic.py, class CoprChrootsLogic: creating, updating,
-- enabling and disabling the chroots of a project. An exception rolls the request's changes back, and is
-- `none`, or a constructor of `Outcome` where the function raises several.
use copr.Base.{
  ℕ, suc, ◌+◌, ◌*◌, Option, none, some, List, [], ◌∷◌, ◌++◌, map, Bool, true, false, not, ◌&&◌,
  ◌==◌, if◌then◌else◌,
}
use copr.Base.Equality.{Text, codes, nat_eq, text_eq}
use copr.Workers.Manager.{or_default}
use mathlib.Core.Option
use copr.Frontend.User.{Copr, Permission, User, can_edit}
use copr.Frontend.Status.{Status}
use copr.Chroots.{MockChroot, name, CoprChroot, day}

-- models.py, the columns of BuildChroot that are read here
pub record BuildRow : Type 0 where
  pub build_id : ℕ
  pub copr_id : ℕ  -- of its build
  pub mock_chroot_id : ℕ
  pub copr_chroot_id : Option ℕ
  pub status : Option Status

-- logic/actions_logic.py: the actions that are sent to the backend, with what differs in their data.
pub data Action : Type 0 where
  createrepo : (copr_id : ℕ) → (chroots : List Text) → (devel : Bool) → Action
  update_comps : (copr_id : ℕ) → (chroot : Text) → (comps_present : Bool) → Action
  delete_chroot : (copr_id : ℕ) → (chroot : Text) → Action

-- A CancelRequest for the task of a build chroot, "<build id>-<chroot>".
pub record CancelRequest : Type 0 where
  pub build_id : ℕ
  pub chroot : Text

-- ReviewedOutdatedChroot
pub record Review : Type 0 where
  pub user_id : ℕ
  pub copr_chroot_id : ℕ

pub record Session : Type 0 where
  pub mock_chroots : List MockChroot
  pub copr_chroots : List CoprChroot
  pub build_chroots : List BuildRow
  pub actions : List Action
  pub next_id : ℕ  -- the id of the next row of copr_chroot
  pub reviews : List Review
  pub cancel_requests : List CancelRequest

pub record Update : Type 0 where
  pub buildroot_pkgs : Option Text
  pub repos : Option Text
  pub comps : Text  -- read only where `comps_name` is given
  pub comps_name : Option Text
  pub with_opts : Option Text
  pub without_opts : Option Text
  pub delete_after : Option ℕ
  pub delete_notify : Option ℕ
  pub module_toggle : Option Text
  pub bootstrap : Option Text
  pub bootstrap_image : Option Text
  pub isolation : Option Text

-- The default arguments of `update_chroot`.
abbrev pub defaults : Update
defaults = record {
  buildroot_pkgs = none;
  repos = none;
  comps = [];
  comps_name = none;
  with_opts = some [];
  without_opts = some [];
  delete_after = none;
  delete_notify = none;
  module_toggle = some [];
  bootstrap = none;
  bootstrap_image = none;
  isolation = none;
}

-- x.replace("\n", " ")
abbrev pub newlines_to_spaces : Text → Text
newlines_to_spaces t = map (λ c. if c == 10 then 32 else c) t

-- `if x is not None: y = x`, for a column that may be None.
abbrev pub or_keep {ℓ} : {A : Type ℓ} → Option A → Option A → Option A
or_keep none old = old
or_keep (some new) old = some new

abbrev pub or_custom : Option Text → Option Text → Option Text
or_custom none old = some (codes "custom_image")
or_custom (some []) old = some (codes "custom_image")
or_custom (some (c ∷ cs)) old = old

-- The column `bootstrap`, from the value that the argument `bootstrap` has left in it.
abbrev pub new_bootstrap : Update → Option Text → Option Text
new_bootstrap u old = by_image u.bootstrap_image
  where
    by_image : Option Text → Option Text
    by_image none = old
    by_image (some image) = or_custom u.bootstrap old

abbrev pub new_comps : Option Text → Text → Option Text → Option Text
new_comps none comps old = old
new_comps (some name) comps old = some comps

unfoldable pub update_columns : Update → CoprChroot → CoprChroot
update_columns u cc = record cc {
  buildroot_pkgs = or_default u.buildroot_pkgs cc.buildroot_pkgs;
  repos = or_default (Option.map newlines_to_spaces u.repos) cc.repos;
  with_opts = or_default u.with_opts cc.with_opts;
  without_opts = or_default u.without_opts cc.without_opts;
  comps = new_comps u.comps_name u.comps cc.comps;
  comps_name = or_keep u.comps_name cc.comps_name;
  delete_after = or_keep u.delete_after cc.delete_after;
  delete_notify = or_keep u.delete_notify cc.delete_notify;
  module_toggle = or_default u.module_toggle cc.module_toggle;
  bootstrap = new_bootstrap u (or_keep u.bootstrap cc.bootstrap);
  isolation = or_keep u.isolation cc.isolation;
  bootstrap_image = or_keep u.bootstrap_image cc.bootstrap_image;
}

unfoldable pub send_update_comps : Option Text → CoprChroot → List Action → List Action
send_update_comps none cc actions = actions
send_update_comps (some comps_name) cc actions =
    actions ++ update_comps cc.copr.id (name cc.mock_chroot) true ∷ []

-- A row is found, and an object written back, by its project and mock chroot, which are unique together.
unfoldable pub is_row : ℕ → ℕ → CoprChroot → Bool
is_row copr_id mock_chroot_id c = c.copr.id == copr_id && c.mock_chroot.id == mock_chroot_id

unfoldable pub row : List CoprChroot → ℕ → ℕ → Option CoprChroot
unfolding is_row
row [] copr_id mock_chroot_id = none
row (c ∷ cs) copr_id mock_chroot_id =
    if is_row copr_id mock_chroot_id c then some c else row cs copr_id mock_chroot_id

unfoldable pub put_chroot : CoprChroot → List CoprChroot → List CoprChroot
unfolding is_row
put_chroot cc [] = []
put_chroot cc (c ∷ cs) =
    let rest = put_chroot cc cs in
    if is_row cc.copr.id cc.mock_chroot.id c then cc ∷ cs else c ∷ rest

-- `_update_chroot`
unfoldable pub write_update : Update → CoprChroot → Session → Session
unfolding update_columns send_update_comps put_chroot
write_update u cc s = record s {
  copr_chroots = put_chroot (update_columns u cc) s.copr_chroots;
  actions = send_update_comps u.comps_name cc s.actions;
}

-- Who makes the change: AutomationUser may edit every project.
pub data Actor : Type 0 where
  automation : Actor
  user : User → Actor

abbrev pub may_edit : List Permission → Actor → Copr → Bool
may_edit table automation copr = true
may_edit table (user u) copr = (can_edit table u copr).0

unfoldable pub update_chroot :
    List Permission → Actor → CoprChroot → Update → Session → Option Session
unfolding write_update
update_chroot table actor cc u s =
    if not (may_edit table actor cc.copr) then none else some (write_update u cc s)

-- CoprChroot(copr=copr, mock_chroot=mock_chroot)
abbrev pub new_row : ℕ → Copr → MockChroot → CoprChroot
new_row id copr mock_chroot = record {
  id = id;
  copr = copr;
  mock_chroot = mock_chroot;
  buildroot_pkgs = [];
  repos = [];
  comps_name = none;
  comps = none;
  module_toggle = [];
  with_opts = [];
  without_opts = [];
  delete_after = none;
  delete_notify = none;
  bootstrap = none;
  bootstrap_image = none;
  isolation = some (codes "unchanged");
  deleted = false;
  last_build_timestamp = none;
}

-- Old build chroots of the project in the mock chroot get the new row.
unfoldable pub reassign : Copr → MockChroot → ℕ → List BuildRow → List BuildRow
reassign copr mock_chroot id [] = []
reassign copr mock_chroot id (b ∷ bs) =
    let rest = reassign copr mock_chroot id bs in
    if b.mock_chroot_id == mock_chroot.id && b.copr_id == copr.id
    then record b { copr_chroot_id = some id } ∷ rest
    else b ∷ rest

-- `create_chroot` with the defaults that `update_from_names` calls it with.
unfoldable pub create_chroot :
    List Permission → Actor → Copr → MockChroot → Session → Option (CoprChroot × Session)
unfolding update_columns reassign
create_chroot table actor copr mock_chroot s =
    if not (may_edit table actor copr)
    then none
    else (let chroot =
          update_columns (record defaults { buildroot_pkgs = some []; repos = some [] })
            (new_row s.next_id copr mock_chroot) in
        some (
          chroot,
          record s {
            copr_chroots = s.copr_chroots ++ chroot ∷ [];
            build_chroots = reassign copr mock_chroot s.next_id s.build_chroots;
            next_id = suc s.next_id;
          },
        ))

abbrev pub unclick : ℕ → CoprChroot → CoprChroot
unclick now cc =
    if cc.deleted then cc else record cc { delete_after = some (now + 7 * day); deleted = true }

unfoldable pub remove_copr_chroot :
    List Permission → ℕ → Actor → CoprChroot → Session → Option Session
unfolding put_chroot
remove_copr_chroot table now actor cc s =
    if not (may_edit table actor cc.copr)
    then none
    else some (record s { copr_chroots = put_chroot (unclick now cc) s.copr_chroots })
