-- ===== src/Chroots/Commands.antt =====
-- The commands of frontend/coprs_frontend/commands that run over outdated chroots:
-- delete_outdated_chroots.py, notify_outdated_chroots.py and fixup_unnoticed_chroots.py, with the
-- queries of CoprChrootsLogic that they use. A list of chroots that is kept over a change names its
-- rows by project and mock chroot; whether a mail is sent is a function of the user. The commits
-- between, and a dry run's lines on the output, change nothing here.
use copr.Base.{
  ℕ, ◌+◌, ◌-◌, Option, none, some, List, [], ◌∷◌, ◌++◌, Bool, true, false, not, ◌&&◌, ◌||◌, ◌==◌,
  leb, if◌then◌else◌,
}
use Prim.Native.Nat.{◌/◌}
use copr.Base.Equality.{nat_eq}
use copr.Base.Dict.{Dict, get, put}
use copr.Base.Maybe.{◌>>=◌}
use copr.Workers.Manager.{or_default}
use copr.Frontend.User.{Copr, Permission, approved}
use copr.Chroots.{name, CoprChroot, DeletionStatus, is_set, before, day, delete_status, is_expired}
use copr.Chroots.Edit.{Action, delete_chroot, Session, row, put_chroot}

-- `filter_to_be_deleted`, of the projects that are not deleted.
unfoldable pub is_to_be_deleted : ℕ → CoprChroot → Bool
is_to_be_deleted now c = not c.copr.deleted && (before c.delete_after now && not c.copr.persistent)

-- `send_delete_chroot`
unfoldable pub send_delete_chroot : CoprChroot → List Action → List Action
send_delete_chroot c actions = actions ++ delete_chroot c.copr.id (name c.mock_chroot) ∷ []

-- `Deleter.delete`: the action, which also marks the chroot as deleted, and the date reset.
unfoldable pub delete : CoprChroot → Session → Session
unfolding put_chroot send_delete_chroot
delete c s = record s {
  copr_chroots = put_chroot (record c { deleted = true; delete_after = none }) s.copr_chroots;
  actions = send_delete_chroot c s.actions;
}

-- `none` is the RuntimeError of `delete_status`.
abbrev pub delete_by_status : CoprChroot → Option DeletionStatus → Session → Option Session
delete_by_status c none s = none
delete_by_status c (some status) s = some (if is_expired status then delete c s else s)

unfoldable pub delete_each : ℕ → List CoprChroot → Session → Option Session
unfolding is_to_be_deleted delete delete_status
delete_each now [] s = some s
delete_each now (c ∷ cs) s =
    (if is_to_be_deleted now c then delete_by_status c (delete_status now c) s else some s)
    >>= delete_each now cs

-- Without `dry_run`.
unfoldable pub delete_outdated_chroots_function : ℕ → Session → Option Session
unfolding delete_each
delete_outdated_chroots_function now s = delete_each now s.copr_chroots s

abbrev pub not_before : Option ℕ → ℕ → Bool
not_before none now = false
not_before (some t) now = leb now t

-- `filter_outdated`, of the projects that are not deleted.
unfoldable pub is_outdated : ℕ → CoprChroot → Bool
is_outdated now c =
    not c.copr.deleted
    && (not_before c.delete_after now
        && (not c.deleted && (not c.mock_chroot.is_active || c.mock_chroot.rolling)))

-- The project and the mock chroot of a row.
pub record Key : Type 0 where
  pub copr_id : ℕ
  pub mock_chroot_id : ℕ

abbrev pub key : CoprChroot → Key
key c = record { copr_id = c.copr.id; mock_chroot_id = c.mock_chroot.id }

-- `get_admins_for_copr`, by their ids.
unfoldable pub approved_admins : List Permission → ℕ → List ℕ
approved_admins [] copr_id = []
approved_admins (p ∷ ps) copr_id =
    let rest = approved_admins ps copr_id in
    if p.copr_id == copr_id && p.copr_admin == approved then p.user_id ∷ rest else rest

abbrev pub get_admins_for_copr : List Permission → Copr → List ℕ
get_admins_for_copr table copr = copr.user_id ∷ approved_admins table copr.id

unfoldable pub add_for : (ℕ → Bool) → Key → List ℕ → Dict ℕ (List Key) → Dict ℕ (List Key)
add_for wanted k [] users = users
add_for wanted k (admin ∷ admins) users = add_for wanted k admins (
    if not (wanted admin)
    then users
    else put users admin (or_default (get users admin) [] ++ k ∷ []))

unfoldable pub get_user_chroots_map :
    List Permission → (ℕ → Bool) → ℕ → List CoprChroot → Dict ℕ (List Key) → Dict ℕ (List Key)
unfolding add_for is_outdated approved_admins
get_user_chroots_map table wanted now [] users = users
get_user_chroots_map table wanted now (c ∷ cs) users = get_user_chroots_map table wanted now cs (
    if is_outdated now c
    then add_for wanted (key c) (get_admins_for_copr table c.copr) users
    else users)

-- Never notified, or at least `period` days ago.
abbrev pub is_due : ℕ → ℕ → Option ℕ → Bool
is_due period now none = true
is_due period now (some t) = leb period ((now - t) / day)

abbrev pub is_due_row : ℕ → ℕ → Option CoprChroot → Bool
is_due_row period now none = false
is_due_row period now (some c) = is_due period now c.delete_notify

-- `filter_chroots` without `all`.
unfoldable pub filter_chroots : ℕ → ℕ → List CoprChroot → List Key → List Key
unfolding row
filter_chroots period now rows [] = []
filter_chroots period now rows (k ∷ ks) =
    let rest = filter_chroots period now rows ks in
    if is_due_row period now (row rows k.copr_id k.mock_chroot_id) then k ∷ rest else rest

abbrev pub notified : ℕ → Option CoprChroot → List CoprChroot → List CoprChroot
notified now none rows = rows
notified now (some c) rows = put_chroot (record c { delete_notify = some now }) rows

unfoldable pub mark_notified : ℕ → List Key → List CoprChroot → List CoprChroot
unfolding row put_chroot
mark_notified now [] rows = rows
mark_notified now (k ∷ ks) rows =
    mark_notified now ks (notified now (row rows k.copr_id k.mock_chroot_id) rows)

-- A mail that was sent: to whom and about what.
pub record Mail : Type 0 where
  pub user_id : ℕ
  pub chroots : List Key

-- `Notifier.notify`, of chroots that are some.
abbrev pub notify : (ℕ → Bool) → ℕ → ℕ → List Key → List CoprChroot → List Mail × List CoprChroot
notify sends now user_id [] rows = ([], rows)
notify sends now user_id (k ∷ ks) rows =
    if sends user_id
    then (record { user_id = user_id; chroots = k ∷ ks } ∷ [], mark_notified now (k ∷ ks) rows)
    else ([], rows)

unfoldable pub notify_each :
    (ℕ → Bool) → ℕ → ℕ → Dict ℕ (List Key) → List CoprChroot → List Mail × List CoprChroot
unfolding filter_chroots mark_notified
notify_each sends period now [] rows = ([], rows)
notify_each sends period now ((user_id, ks) ∷ users) rows =
    let (mails, rows') = notify sends now user_id (filter_chroots period now rows ks) rows in
    let (later, rows'') = notify_each sends period now users rows' in (mails ++ later, rows'')

-- Without `dry_run` and `all`; `wanted` is the filter by mail address.
unfoldable pub notify_outdated_chroots_function :
    List Permission
    → (ℕ → Bool)
    → (ℕ → Bool)
    → ℕ
    → ℕ
    → List CoprChroot
    → List Mail × List CoprChroot
unfolding get_user_chroots_map notify_each
notify_outdated_chroots_function table wanted sends period now rows =
    notify_each sends period now (get_user_chroots_map table wanted now rows []) rows

-- `should_already_be_noticed`, of the projects that are not deleted.
unfoldable pub is_unnoticed : ℕ → ℕ → CoprChroot → Bool
is_unnoticed now remaining c =
    not c.copr.deleted
    && (before c.delete_after (now + remaining)
        && (not c.deleted && (not (is_set c.delete_notify) && not c.mock_chroot.is_active)))

-- Without `dry_run`; the two arguments of the command in seconds.
unfoldable pub fixup_unnoticed_chroots : ℕ → ℕ → ℕ → List CoprChroot → List CoprChroot
unfolding is_unnoticed
fixup_unnoticed_chroots now remaining prolong [] = []
fixup_unnoticed_chroots now remaining prolong (c ∷ cs) =
    let rest = fixup_unnoticed_chroots now remaining prolong cs in
    if is_unnoticed now remaining c
    then record c { delete_after = some (now + prolong) } ∷ rest
    else c ∷ rest
