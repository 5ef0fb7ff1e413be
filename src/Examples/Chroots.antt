-- ===== src/Examples/Chroots.antt =====
-- The chroots of a project at concrete inputs (frontend/coprs_frontend).
use copr.Base.{
  ℕ, ◌+◌, ◌⊎◌, ◌≡◌, refl, Option, none, some, List, [], ◌∷◌, ◌++◌, true, false, arith,
  if◌then◌else◌, ◌==◌, ◌*◌,
}
use copr.Base.Dict.{contains, add, get, put}
use copr.Base.Equality.{Text, text_beq, codes, text_eq, nat_eq}
use copr.Frontend.User.{Copr, Permission}
use copr.Frontend.Status.{value, succeeded}
use copr.Chroots.{MockChroot, CoprChroot, delete_status}
use copr.Chroots.Edit.{Session, automation, row, is_row, new_row}
use copr.Chroots.Names.{has_mock, update_from_names, Outcome, done, no_rights, conflicting, enable}
use copr.Chroots.Wanted.{is_named, IsQuiet}
use copr.Chroots.Enabled.{IsAsNamed, update_from_names-IsAsNamed, dropped-IsQuiet}
use copr.Chroots.Outdated.{Config, extend, make_review, has_not_reviewed}
use copr.Chroots.Extended.{prolonged, extend-prolonged}
use copr.Chroots.Reviewed.{make_review-has_not_reviewed}
use copr.Chroots.Commands.{Mail, notify_outdated_chroots_function, delete_outdated_chroots_function}
use copr.Chroots.Deleted.{deletions, delete_outdated_chroots_function-deletions}
use copr.Chroots.LifeCycle.{clicked, IsReenabled, IsDatedByHand, undefined_after_change}

abbrev hello : Copr
hello = record {
  id = 5;
  name = codes "hello";
  user_id = 1;
  group = none;
  persistent = false;
  deleted = false;
  auto_createrepo = true;
  appstream = true;
}

abbrev rawhide : MockChroot
rawhide = record {
  id = 1;
  os_release = codes "fedora";
  os_version = codes "rawhide";
  arch = codes "x86_64";
  is_active = true;
  rolling = true;
  final_prunerepo_done = false;
}

abbrev stream : MockChroot
stream = record {
  id = 2;
  os_release = codes "centos-stream";
  os_version = codes "9";
  arch = codes "x86_64";
  is_active = true;
  rolling = false;
  final_prunerepo_done = false;
}

abbrev old_fedora : MockChroot
old_fedora = record {
  id = 3;
  os_release = codes "fedora";
  os_version = codes "30";
  arch = codes "i386";
  is_active = false;
  rolling = false;
  final_prunerepo_done = true;
}

abbrev mock : ℕ → MockChroot
mock i = if i == 1 then rawhide else if i == 2 then stream else old_fedora

-- Fedora Rawhide is enabled, and so was Fedora 30 before its end; the release of CentOS was not yet.
abbrev of_rawhide : CoprChroot
of_rawhide = new_row 10 hello rawhide

abbrev of_fedora : CoprChroot
of_fedora = record (new_row 11 hello old_fedora) {
  delete_after = some 2000000;
  delete_notify = some 1000000;
  with_opts = codes "bootstrap";
}

abbrev session : Session
session = record {
  mock_chroots = rawhide ∷ stream ∷ old_fedora ∷ [];
  copr_chroots = of_rawhide ∷ of_fedora ∷ [];
  build_chroots =
      record {
        build_id = 7;
        copr_id = 5;
        mock_chroot_id = 1;
        copr_chroot_id = some 10;
        status = some succeeded;
      }
      ∷ [];
  actions = [];
  next_id = 12;
  reviews = [];
  cancel_requests = [];
}

abbrev names : List Text
names = codes "centos-stream-9-x86_64" ∷ []

session_of : Outcome → Session
session_of (done t) = t
session_of no_rights = session
session_of (conflicting _ _) = session

unfoldable only_stream : Session
unfolding session_of update_from_names
only_stream = session_of (update_from_names [] 100 automation automation hello names session)

only_stream-done :
    update_from_names [] 100 automation automation hello names session ≡ done only_stream
unfolding only_stream contains text_beq has_mock add value
only_stream-done = refl

update_from_names-IsAsNamed_example :
    IsAsNamed mock 100 hello session.mock_chroots names session.copr_chroots
      only_stream.copr_chroots
update_from_names-IsAsNamed_example =
    update_from_names-IsAsNamed [] 100 automation automation hello names mock session only_stream
      (refl, (refl, tt)) only_stream-done

dropped-IsQuiet_example : IsQuiet of_rawhide only_stream.build_chroots
unfolding is_named contains text_beq row is_row
dropped-IsQuiet_example =
    dropped-IsQuiet [] 100 automation automation hello names mock session only_stream
      (refl, (refl, tt)) only_stream-done 1 of_rawhide refl refl refl

abbrev config : Config
config = record {
  eol_chroots_notification_period = 80;
  delete_eol_chroots_after = 180 * 86400;
  eol_chroots_expire_period = 43200;
  rolling_chroots_inactivity_warning = 180 * 86400;
  rolling_chroots_inactivity_removal = 180 * 86400;
}

or_session : Option Session → Session
or_session none = session
or_session (some t) = t

unfoldable extended : Session
unfolding extend or_session
extended = or_session (extend config [] 100 automation of_fedora session)

extend-prolonged_example :
    row extended.copr_chroots 5 3 ≡ some (prolonged (100 + 180 * 86400) of_fedora)
unfolding extended or_session row is_row
extend-prolonged_example =
    extend-prolonged config [] 100 automation of_fedora session extended refl refl

make_review-has_not_reviewed_example :
    has_not_reviewed config 1500000 1 (5 ∷ []) (make_review config 1500000 1 (5 ∷ []) session)
    ≡ false
make_review-has_not_reviewed_example =
    make_review-has_not_reviewed config 1500000 1 (5 ∷ []) session ((λ h. refl), ((λ h. refl), tt))

abbrev mails : List Mail
unfolding notify_outdated_chroots_function
mails =
    (notify_outdated_chroots_function [] (λ _. true) (λ _. true) 80 1500000 session.copr_chroots).0

-- A second admin of the project gets no mail.
abbrev also_admin : Permission
also_admin = record { user_id = 2; copr_id = 5; copr_builder = 2; copr_admin = 2 }

one_mail :
    (notify_outdated_chroots_function
      (also_admin ∷ [])
      (λ _. true)
      (λ _. true)
      80
      (1000000 + 80 * 86400)
      (record of_fedora { delete_after = some 9000000 } ∷ [])).0
    ≡ record { user_id = 1; chroots = record { copr_id = 5; mock_chroot_id = 3 } ∷ [] } ∷ []
unfolding notify_outdated_chroots_function put get
one_mail = refl

unfoldable deleted_session : Session
unfolding delete_outdated_chroots_function or_session
deleted_session = or_session (delete_outdated_chroots_function 2000001 session)

delete_outdated_chroots_function-deletions_example :
    deleted_session.actions ≡ [] ++ deletions 2000001 session.copr_chroots
unfolding deleted_session or_session
delete_outdated_chroots_function-deletions_example =
    delete_outdated_chroots_function-deletions 2000001 session deleted_session refl

-- Rawhide, marked for removal for want of builds and announced, was then unclicked.
abbrev unclicked_rawhide : CoprChroot
unclicked_rawhide = record of_rawhide {
  delete_after = some 500;
  delete_notify = some 400;
  deleted = true;
}

undefined_after_change_example :
    IsReenabled unclicked_rawhide (enable unclicked_rawhide)
    ⊎ IsDatedByHand unclicked_rawhide (enable unclicked_rawhide)
unfolding delete_status
undefined_after_change_example =
    undefined_after_change {c = unclicked_rawhide} {d = enable unclicked_rawhide} 450 460
      (clicked refl) (λ e. ground (arith, e)) refl
