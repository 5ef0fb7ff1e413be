-- ===== src/Chroots/LifeCycle.antt =====
-- The life of one chroot of a project, by every operation of frontend/coprs_frontend that writes
-- to the columns behind `delete_status` of coprs/models.py, and when that raises.
use copr.Base.{
  ℕ, ◌⊎◌, ◌≡◌, ◌≢◌, refl, Option, none, some, Bool, true, false, not, ◌&&◌, ◌||◌, arith, Bool-cases,
  inl, inr,
}
use copr.Chroots.{
  CoprChroot, expired, is_set, before, delete_status, active_status, build_submitted,
}
use copr.Chroots.Edit.{Update, defaults, update_columns, unclick, or_keep}
use copr.Chroots.Names.{enable}
use copr.Chroots.Mocks.{set_active, alter_copr_chroot}
use copr.Chroots.Outdated.{is_lifeless}
use copr.Chroots.Commands.{is_outdated, is_unnoticed}

-- The dates are those of the functions' arguments. A request to extend or to expire may name any chroot
-- of the project.
pub data Step (c : CoprChroot) : CoprChroot → Type 0 where
  submitted : (now : ℕ) → Step c (build_submitted now c)
  updated :
      (u : Update) → u.delete_after ≡ none → u.delete_notify ≡ none → Step c (update_columns u c)
  extended : (t : ℕ) → Step c (update_columns (record defaults { delete_after = some t }) c)
  expired_now :
      (now t : ℕ)
      → Step c (
          update_columns
            (record defaults { delete_after = some t })
            (record c { delete_notify = some now }))
  unclicked : (now : ℕ) → Step c (unclick now c)
  clicked : c.deleted ≡ true → Step c (enable c)
  marked :
      (warn t : ℕ)
      → is_lifeless warn c ≡ true
      → Step c (update_columns (record defaults { delete_after = some t }) c)
  notified : (now : ℕ) → is_outdated now c ≡ true → Step c (record c { delete_notify = some now })
  prolonged :
      (now remaining t : ℕ)
      → is_unnoticed now remaining c ≡ true
      → Step c (record c { delete_after = some t })
  erased :
      (now : ℕ)
      → delete_status now c ≡ some expired
      → Step c (record c { deleted = true; delete_after = none })
  activated :
      (t : ℕ)
      → Step c (
          alter_copr_chroot true t
            (set_active true c.mock_chroot)
            (record c { mock_chroot = set_active true c.mock_chroot }))
  deactivated : Step c (record c { mock_chroot = set_active false c.mock_chroot })
  ended :
      (t : ℕ)
      → Step c (
          alter_copr_chroot false t
            (set_active false c.mock_chroot)
            (record c { mock_chroot = set_active false c.mock_chroot }))

-- The columns for which `delete_status` has an answer, at whatever time.
unfoldable pub is_defined : CoprChroot → Bool
is_defined c =
    c.deleted
    || (not c.mock_chroot.is_active
        || (not (is_set c.delete_after) && not (is_set c.delete_notify)
            || is_set c.delete_after && c.mock_chroot.rolling))

pub delete_status-is_defined :
    (now : ℕ) (c : CoprChroot) → is_defined c ≡ false → delete_status now c ≡ none
unfolding delete_status is_defined active_status
delete_status-is_defined now c h = ground (arith, h)

pub is_defined-delete_status :
    (now : ℕ) (c : CoprChroot) → delete_status now c ≡ none → is_defined c ≡ false
unfolding delete_status is_defined active_status
is_defined-delete_status now c h = ground (arith, h)

keep_none : (o old : Option ℕ) → o ≡ none → or_keep o old ≡ old
keep_none none old h = refl
keep_none (some t) old h = ground (arith, h)

-- A chroot that was unclicked or deleted, whose owners had been notified, is enabled again.
abbrev pub IsReenabled : CoprChroot → CoprChroot → Type 0
IsReenabled c d = (c.deleted ≡ true) × (is_set c.delete_notify ≡ true) × (d.deleted ≡ false)

-- A chroot that is enabled, active and not rolling, with no date and no notification, is given a date.
abbrev pub IsDatedByHand : CoprChroot → CoprChroot → Type 0
IsDatedByHand c d =
    (c.deleted ≡ false)
    × (c.mock_chroot.is_active ≡ true)
    × (c.mock_chroot.rolling ≡ false)
    × (is_set c.delete_after ≡ false)
    × (is_set c.delete_notify ≡ false)
    × (is_set d.delete_after ≡ true)

step-Loses :
    {c d : CoprChroot}
    → Step c d
    → is_defined c ≡ true
    → is_defined d ≡ false
    → IsReenabled c d ⊎ IsDatedByHand c d
unfolding is_defined update_columns is_lifeless is_outdated is_unnoticed
step-Loses (submitted now) h k = ground (arith, h, k)
step-Loses {c} (updated u e f) h k = ground (
  arith,
  h,
  k,
  keep_none u.delete_after c.delete_after e,
  keep_none u.delete_notify c.delete_notify f,
)
step-Loses (extended t) h k = ground (arith, h, k)
step-Loses (expired_now now t) h k = ground (arith, h, k)
step-Loses (unclicked now) h k = ground (arith, h, k)
step-Loses (clicked e) h k = ground (arith, h, k, e)
step-Loses (marked warn t e) h k = ground (arith, h, k, e)
step-Loses (notified now e) h k = ground (arith, h, k, e)
step-Loses (prolonged now r t e) h k = ground (arith, h, k, e)
step-Loses (erased now e) h k = ground (arith, h, k)
step-Loses (activated t) h k = ground (arith, h, k)
step-Loses deactivated h k = ground (arith, h, k)
step-Loses (ended t) h k = ground (arith, h, k)

-- If a chroot that has a status loses it, so that `delete_status` raises, the operation either enabled
-- again an unclicked or deleted chroot whose owners had been notified, or gave a date to one that is
-- enabled, active and not rolling and had none.
pub undefined_after_change :
    {c d : CoprChroot} (before after : ℕ)
    → Step c d
    → delete_status before c ≢ none
    → delete_status after d ≡ none
    → IsReenabled c d ⊎ IsDatedByHand c d
undefined_after_change {c} {d} before after step had lost =
    let undefined = is_defined-delete_status after d lost in
    let defined : is_defined c ≡ true = elim (Bool-cases (is_defined c)) [
      | inl yes_defined ↦ yes_defined
      | inr not_defined ↦ ground (arith, had, delete_status-is_defined before c not_defined)
    ] in
    step-Loses step defined undefined
