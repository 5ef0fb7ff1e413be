-- ===== src/Rpm.antt =====
-- common/copr_common/rpm.py: `splitFilename`. A position is -1 where the character is not found; a slice
-- that ends at -1 leaves out the last character, and one that begins behind -1 is from the start.
pub mod Printed
use copr.Base.{
  ℕ, zero, suc, ◌-◌, Option, none, some, List, [], ◌∷◌, ◌++◌, Bool, true, false, ◌==◌, length,
  if◌then◌else◌,
}
use copr.Base.Equality.{Text, codes, text_eq, beq}

unfoldable pub take : ℕ → Text → Text
take zero t = []
take (suc n) [] = []
take (suc n) (x ∷ t) = x ∷ take n t

unfoldable pub drop : ℕ → Text → Text
drop zero t = t
drop (suc n) [] = []
drop (suc n) (x ∷ t) = drop n t

unfoldable pub drop_last : Text → Text
drop_last [] = []
drop_last (x ∷ []) = []
drop_last (x ∷ y ∷ t) = x ∷ drop_last (y ∷ t)

abbrev pub rfind_step : Option ℕ → Bool → Option ℕ
rfind_step none here = if here then some 0 else none
rfind_step (some i) here = some (suc i)

-- t.rfind(c) and t.find(c), with `none` for -1.
unfoldable pub rfind : ℕ → Text → Option ℕ
rfind c [] = none
rfind c (x ∷ t) = rfind_step (rfind c t) (x == c)

abbrev pub find_step : Option ℕ → Bool → Option ℕ
find_step none here = if here then some 0 else none
find_step (some i) here = if here then some 0 else some (suc i)

unfoldable pub find : ℕ → Text → Option ℕ
find c [] = none
find c (x ∷ t) = find_step (find c t) (x == c)

-- t[:i] and t[i + 1:]
unfoldable pub up_to : Option ℕ → Text → Text
unfolding take drop_last
up_to none t = drop_last t
up_to (some i) t = take i t

unfoldable pub behind : Option ℕ → Text → Text
unfolding drop
behind none t = t
behind (some i) t = drop (suc i) t

abbrev pub dot : ℕ
dot = b'.'

abbrev pub dash : ℕ
dash = b'-'

abbrev pub colon : ℕ
colon = b':'

unfoldable pub strip_rpm : Text → Text
unfolding take drop
strip_rpm filename =
    if beq (drop (length filename - 4) filename) (codes ".rpm")
    then take (length filename - 4) filename
    else filename

unfoldable pub epoch_of : Option ℕ → Text → Text
unfolding take
epoch_of none filename = []
epoch_of (some i) filename = take i filename

pub record Nevra : Type 0 where
  pub name : Text
  pub ver : Text
  pub rel : Text
  pub epoch : Text
  pub arch : Text

-- The function behind the removal of the extension.
unfoldable pub split_stripped : Text → Nevra
unfolding rfind find up_to behind epoch_of
split_stripped filename =
    let arch_index = rfind dot filename in
    let rel_index = rfind dash (up_to arch_index filename) in
    let ver_index = rfind dash (up_to rel_index filename) in
    let epoch_index = find colon filename in
    record {
      name = behind epoch_index (up_to ver_index filename);
      ver = behind ver_index (up_to rel_index filename);
      rel = behind rel_index (up_to arch_index filename);
      epoch = epoch_of epoch_index filename;
      arch = behind arch_index filename;
    }

unfoldable pub split_filename : Text → Nevra
unfolding strip_rpm split_stripped
split_filename filename = split_stripped (strip_rpm filename)
