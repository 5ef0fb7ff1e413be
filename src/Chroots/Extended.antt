-- ===== src/Chroots/Extended.antt =====
-- What `extend` and `expire` of frontend/coprs_frontend/coprs/logic/outdated_chroots_logic.py write.
use copr.Base.{ℕ, ◌+◌, ◌≡◌, Option, some, List, [], not, arith, if_cases, ==_iff}
use mathlib.Core.Path.{subst}
use copr.Base.Maybe.{>>=-eq-some, some_path}
use copr.Frontend.User.{Permission}
use copr.Chroots.{CoprChroot}
use copr.Chroots.Edit.{
  Session, Actor, may_edit, is_row, row, update_columns, write_update, update_chroot,
}
use copr.Chroots.Rows.{row-put_chroot_same}
use copr.Chroots.Outdated.{Config, update_copr_chroot, extend}

-- The chroot with the new date, and with the options that are reset.
abbrev pub prolonged : ℕ → CoprChroot → CoprChroot
prolonged date cc = record cc {
  delete_after = some date;
  with_opts = [];
  without_opts = [];
  module_toggle = [];
}

-- Extending a chroot of the table sets the date of its deletion; it also empties the rpmbuild options
-- and the modules that were set for the chroot, and leaves every other column.
pub extend-prolonged :
    (config : Config) (table : List Permission) (now : ℕ) (actor : Actor) (cc : CoprChroot)
    (s t : Session)
    → row s.copr_chroots cc.copr.id cc.mock_chroot.id ≡ some cc
    → extend config table now actor cc s ≡ some t
    → row t.copr_chroots cc.copr.id cc.mock_chroot.id
      ≡ some (prolonged (now + config.delete_eol_chroots_after) cc)
unfolding extend update_copr_chroot update_chroot write_update update_columns is_row
extend-prolonged config table now actor cc s t here ran =
    let P = λ (u : Session).
      row u.copr_chroots cc.copr.id cc.mock_chroot.id
      ≡ some (prolonged (now + config.delete_eol_chroots_after) cc) in
    let (u, updated, rest) =
      >>=-eq-some (update_copr_chroot table now actor cc config.delete_eol_chroots_after s) _ ran in
    subst P (some_path rest) (
      if_cases (λ (o : Option Session). o ≡ some u → P u) (not (may_edit table actor cc.copr))
        (λ _ e. ground (arith, e))
        (λ _ e. subst P (some_path e) (
          row-put_chroot_same s.copr_chroots (prolonged (now + config.delete_eol_chroots_after) cc)
            cc.copr.id cc.mock_chroot.id
            (ground
              (arith, ==_iff cc.copr.id cc.copr.id, ==_iff cc.mock_chroot.id cc.mock_chroot.id))
            (λ e. ground (arith, here))))
        updated)
