-- ===== src/Chroots/Named.antt =====
-- The name of a mock chroot and `tuple_from_name` of
-- frontend/coprs_frontend/coprs/logic/coprs_logic.py.
use copr.Base.{◌≡◌, refl, some, ◌∷◌, ◌++◌, false}
use copr.Base.Equality.{nat_eq}
use copr.Base.Dict.{contains}
use copr.Workers.Manager.Ids.{rsplit_last}
use copr.Chroots.{MockChroot, dash, name}
use copr.Chroots.Mocks.{NameTuple, tuple_from_name}

abbrev pub name_tuple : MockChroot → NameTuple
name_tuple m = record { os_release = m.os_release; os_version = m.os_version; arch = some m.arch }

-- The name of a mock chroot is taken apart into its columns, if the version and the architecture
-- have no dash; the release may have some.
pub tuple_from_name-name :
    (m : MockChroot)
    → contains m.os_version dash ≡ false
    → contains m.arch dash ≡ false
    → tuple_from_name (name m) false ≡ some (name_tuple m)
unfolding tuple_from_name
tuple_from_name-name m version arch =
    rw (rsplit_last dash (m.os_release ++ dash ∷ m.os_version) m.arch arch)
      (rw (rsplit_last dash m.os_release m.os_version version) refl)
