-- ===== src/Chroots/Rows.antt =====
-- The row of a project and a mock chroot in the table of
-- frontend/coprs_frontend/coprs/logic/coprs_logic.py, after a row is written or added.
use copr.Base.{
  ℕ, ◌≡◌, ◌≢◌, refl, Option, none, some, List, [], ◌∷◌, ◌++◌, Bool, true, false, not, ◌&&◌, ◌==◌,
  arith, if◌then◌else◌, ==_iff,
}
use mathlib.Core.Option
use copr.Chroots.{CoprChroot}
use copr.Chroots.Edit.{is_row, row, put_chroot}

-- The project has the chroot enabled.
abbrev pub is_on : Option CoprChroot → Bool
is_on none = false
is_on (some cc) = not cc.deleted

pub row-put_chroot :
    (cs : List CoprChroot) (cc : CoprChroot) (c m : ℕ)
    → row (put_chroot cc cs) c m
      ≡ (if is_row c m cc then Option.map (λ _. cc) (row cs c m) else row cs c m)
unfolding row put_chroot is_row
row-put_chroot [] cc c m = ground arith
row-put_chroot (x ∷ cs) cc c m = ground (
  arith,
  row-put_chroot cs cc c m,
  ==_iff cc.copr.id c,
  ==_iff cc.mock_chroot.id m,
  ==_iff x.copr.id c,
  ==_iff x.mock_chroot.id m,
  ==_iff x.copr.id cc.copr.id,
  ==_iff x.mock_chroot.id cc.mock_chroot.id,
)

pub row-append :
    (cs : List CoprChroot) (cc : CoprChroot) (c m : ℕ)
    → row (cs ++ cc ∷ []) c m
      ≡ elim (row cs c m) [ none ↦ (if is_row c m cc then some cc else none) | some x ↦ some x ]
unfolding row
row-append [] cc c m = refl
row-append (x ∷ cs) cc c m = ground (arith, row-append cs cc c m)

pub row-is_row :
    (cs : List CoprChroot) (cc : CoprChroot) (c m : ℕ) → row cs c m ≡ some cc → is_row c m cc ≡ true
unfolding row
row-is_row [] cc c m h = ground arith
row-is_row (x ∷ cs) cc c m h = ground (arith, row-is_row cs cc c m)

pub row-put_chroot_same :
    (cs : List CoprChroot) (cc : CoprChroot) (c m : ℕ)
    → is_row c m cc ≡ true
    → row cs c m ≢ none
    → row (put_chroot cc cs) c m ≡ some cc
row-put_chroot_same cs cc c m key there = ground (arith, row-put_chroot cs cc c m)

pub row-put_chroot_other :
    (cs : List CoprChroot) (cc : CoprChroot) (c m : ℕ)
    → is_row c m cc ≡ false
    → row (put_chroot cc cs) c m ≡ row cs c m
row-put_chroot_other cs cc c m key = ground (arith, row-put_chroot cs cc c m)

-- A row of one key is not that of another.
pub is_row_other :
    (c m d n : ℕ) (cc : CoprChroot)
    → is_row c m cc ≡ true
    → (c == d && m == n) ≡ false
    → is_row d n cc ≡ false
unfolding is_row
is_row_other c m d n cc key other = ground (
  arith,
  ==_iff cc.copr.id c,
  ==_iff cc.mock_chroot.id m,
  ==_iff cc.copr.id d,
  ==_iff cc.mock_chroot.id n,
  ==_iff c d,
  ==_iff m n,
)
