-- ===== src/Examples/Rpm.antt =====
-- common/copr_common/rpm.py at a concrete name.
use copr.Base.{◌≡◌, refl, ◌++◌}
use copr.Base.Equality.{codes}
use copr.Base.Dict.{contains}
use copr.Rpm.{Nevra, split_filename}
use copr.Rpm.Printed.{print, split_filename-print}

abbrev bar : Nevra
bar = record {
  name = codes "bar-utils";
  ver = codes "9";
  rel = codes "123a";
  epoch = codes "1";
  arch = codes "ia64";
}

split_filename-print_example : split_filename (print bar.epoch bar ++ codes ".rpm") ≡ bar
unfolding contains
split_filename-print_example = split_filename-print bar (refl, refl, refl) refl
