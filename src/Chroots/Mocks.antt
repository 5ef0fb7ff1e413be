-- ===== src/Chroots/Mocks.antt =====
-- frontend/coprs_frontend/coprs/logic/coprs_logic.py, class MockChrootsLogic: mock chroots by name, and
-- `func_alter_chroot` of frontend/coprs_frontend/commands/alter_chroot.py. The callback of a build whose
-- chroots are canceled (`process_update_callback`) tells other services and changes nothing here.
use copr.Base.{
  ℕ, Option, none, some, List, [], ◌∷◌, ◌++◌, map, Bool, true, false, not, ◌&&◌, ◌||◌, ◌==◌,
  if◌then◌else◌,
}
use copr.Base.Equality.{Text, beq, text_eq, maybe_eq}
use copr.Frontend.Status.{canceled}
use copr.Workers.Manager.{rsplit}
use copr.Chroots.{MockChroot, dash, name, CoprChroot}
use copr.Chroots.Edit.{BuildRow, CancelRequest, Session}
use copr.Chroots.Names.{is_unfinished}

-- What `tuple_from_name` returns, with None for an architecture that is not given.
pub record NameTuple : Type 0 where
  pub os_release : Text
  pub os_version : Text
  pub arch : Option Text

abbrev pub two_parts : Option (Text × Text) → Option NameTuple
two_parts none = none
two_parts (some (release, version)) =
    some (record { os_release = release; os_version = version; arch = none })

abbrev pub three_parts : Option (Text × Text) → Text → Option NameTuple
three_parts none arch = none
three_parts (some (release, version)) arch =
    some (record { os_release = release; os_version = version; arch = some arch })

abbrev pub all_parts : Option (Text × Text) → Option NameTuple
all_parts none = none
all_parts (some (rest, arch)) = three_parts (rsplit dash rest) arch

-- `none` is the MalformedArgumentException.
unfoldable pub tuple_from_name : Text → Bool → Option NameTuple
unfolding rsplit
tuple_from_name name true = two_parts (rsplit dash name)
tuple_from_name name false = all_parts (rsplit dash name)

abbrev pub is_falsy : Option Text → Bool
is_falsy none = true
is_falsy (some []) = true
is_falsy (some (c ∷ cs)) = false

-- The filters of `get`.
unfoldable pub fits : NameTuple → Bool → Bool → MockChroot → Bool
fits t active_only noarch m =
    beq m.os_release t.os_release
    && (beq m.os_version t.os_version
        && ((noarch && is_falsy t.arch || beq (some m.arch) t.arch)
            && (not active_only || m.is_active)))

unfoldable pub get : NameTuple → Bool → Bool → List MockChroot → List MockChroot
unfolding fits
get t active_only noarch [] = []
get t active_only noarch (m ∷ ms) =
    let rest = get t active_only noarch ms in if fits t active_only noarch m then m ∷ rest else rest

abbrev pub first : List MockChroot → Option MockChroot
first [] = none
first (m ∷ ms) = some m

pub data Edited : Type 0 where
  malformed : Edited
  not_found : Edited
  edited : MockChroot → Session → Edited

abbrev pub set_active : Bool → MockChroot → MockChroot
set_active is_active m = record m {
  is_active = is_active;
  final_prunerepo_done = if is_active then false else m.final_prunerepo_done;
}

-- An object that is written to is the same in the table and in the chroots that refer to it.
abbrev pub put_mock : MockChroot → MockChroot → MockChroot
put_mock m old = if old.id == m.id then m else old

unfoldable pub write_mock : MockChroot → Session → Session
write_mock m s = record s {
  mock_chroots = map (put_mock m) s.mock_chroots;
  copr_chroots =
      map (λ (cc : CoprChroot). record cc { mock_chroot = put_mock m cc.mock_chroot })
        s.copr_chroots;
}

abbrev pub edit_first : Option MockChroot → Bool → Session → Edited
edit_first none is_active s = not_found
edit_first (some m) is_active s =
    edited (set_active is_active m) (write_mock (set_active is_active m) s)

abbrev pub edit_tuple : Option NameTuple → Bool → Session → Edited
edit_tuple none is_active s = malformed
edit_tuple (some t) is_active s = edit_first (first (get t false false s.mock_chroots)) is_active s

unfoldable pub edit_by_name : Text → Bool → Session → Edited
unfolding tuple_from_name get write_mock
edit_by_name name is_active s = edit_tuple (tuple_from_name name false) is_active s

pub data AlterAction : Type 0 where
  activate deactivate eol : AlterAction

abbrev pub is_activate : AlterAction → Bool
is_activate activate = true
is_activate _ = false

abbrev pub is_to_cancel : MockChroot → BuildRow → Bool
is_to_cancel m b = b.mock_chroot_id == m.id && is_unfinished b.status

unfoldable pub cancel_rows : MockChroot → List BuildRow → List BuildRow
cancel_rows m [] = []
cancel_rows m (b ∷ bs) =
    let rest = cancel_rows m bs in
    if is_to_cancel m b then record b { status = some canceled } ∷ rest else b ∷ rest

unfoldable pub requests : MockChroot → List BuildRow → List CancelRequest
requests m [] = []
requests m (b ∷ bs) =
    let rest = requests m bs in
    if is_to_cancel m b then record { build_id = b.build_id; chroot = name m } ∷ rest else rest

unfoldable pub cancel_build_chroots_by_mock : MockChroot → Session → Session
unfolding cancel_rows requests
cancel_build_chroots_by_mock m s = record s {
  build_chroots = cancel_rows m s.build_chroots;
  cancel_requests = s.cancel_requests ++ requests m s.build_chroots;
}

-- The unclicked chroots are not touched; a reactivation resets the EOL policy.
abbrev pub alter_copr_chroot : Bool → ℕ → MockChroot → CoprChroot → CoprChroot
alter_copr_chroot activates delete_after m cc =
    if not (cc.mock_chroot.id == m.id)
    then cc
    else if cc.deleted
    then cc
    else if activates
    then record cc { delete_after = none; delete_notify = none }
    else record cc { delete_after = some delete_after }

unfoldable pub alter_chroots : Bool → ℕ → MockChroot → Session → Session
alter_chroots activates delete_after m s = record s {
  copr_chroots = map (alter_copr_chroot activates delete_after m) s.copr_chroots;
}

unfoldable pub alter_edited : AlterAction → ℕ → Session → Edited → Session
unfolding alter_chroots cancel_build_chroots_by_mock
alter_edited action delete_after s malformed = s
alter_edited action delete_after s not_found = s
alter_edited deactivate delete_after s (edited m t) = t
alter_edited activate delete_after s (edited m t) = alter_chroots true delete_after m t
alter_edited eol delete_after s (edited m t) =
    alter_chroots false delete_after m (cancel_build_chroots_by_mock m t)

-- A name that is malformed or not there is printed and passed over.
unfoldable pub func_alter_chroot : List Text → AlterAction → ℕ → Session → Session
unfolding edit_by_name alter_edited
func_alter_chroot [] action delete_after s = s
func_alter_chroot (name ∷ names) action delete_after s =
    func_alter_chroot names action delete_after
      (alter_edited action delete_after s (edit_by_name name (is_activate action) s))
