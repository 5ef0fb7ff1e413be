-- ===== src/Chroots/Reached.antt =====
-- When `notify_outdated_chroots_function` of
-- frontend/coprs_frontend/commands/notify_outdated_chroots.py sends a mail about a chroot, and to whom.
use Prim.Native.Nat.{◌/◌}
use copr.Base.{
  ℕ, Option, none, some, List, [], ◌∷◌, Bool, true, false, not, ◌&&◌, ◌||◌, ◌==◌, leb, ltb, ◌-◌,
}
use copr.Base.Equality.{nat_eq}
use copr.Base.Dict.{Dict}
use copr.Frontend.User.{Copr, Permission, approved}
use copr.Chroots.{CoprChroot, day}
use copr.Chroots.Commands.{Key, key}
use copr.Chroots.Noticed.{has_key}

unfoldable any : (ℕ → Bool) → List ℕ → Bool
any f [] = false
any f (x ∷ xs) = f x || any f xs

abbrev pub is_key : Key → ℕ → ℕ → Bool
is_key k c m = k.copr_id == c && k.mock_chroot_id == m

-- Some user listed with the chroot can be sent a mail.
unfoldable reach : (ℕ → Bool) → Dict ℕ (List Key) → ℕ → ℕ → Bool
reach sends [] c m = false
reach sends ((u, ks) ∷ users) c m = (sends u && has_key ks c m) || reach sends users c m

abbrev pub is_some : Option ℕ → Bool
is_some none = false
is_some (some u) = true

-- One of the owner and the approved admins of the project passes the test.
unfoldable pub admin_passes : List Permission → Copr → (ℕ → Bool) → Bool
admin_passes [] copr test = test copr.user_id
admin_passes (p ∷ ps) copr test =
    (p.copr_id == copr.id && p.copr_admin == approved && test p.user_id)
    || admin_passes ps copr test

-- The chroot is enabled but on its way out: its mock chroot is not active or is rolling, and the day of
-- its deletion is still to come.
unfoldable pub is_on_way_out : ℕ → CoprChroot → Bool
is_on_way_out now x =
    comes x.delete_after
    && (not (x.copr.deleted || x.deleted) && (x.mock_chroot.rolling || not x.mock_chroot.is_active))
  where
    comes : Option ℕ → Bool
    comes none = false
    comes (some t) = leb now t

-- There is cause for a mail about the chroot: it is on its way out, and an admin of its project is wanted
-- and can be sent one.
unfoldable pub has_cause :
    List Permission → (ℕ → Bool) → (ℕ → Bool) → ℕ → List CoprChroot → ℕ → ℕ → Bool
unfolding admin_passes is_on_way_out
has_cause table wanted sends now [] c m = false
has_cause table wanted sends now (x ∷ xs) c m =
    (is_key (key x) c m
      && (is_on_way_out now x && admin_passes table x.copr (λ a. wanted a && sends a)))
    || has_cause table wanted sends now xs c m

-- The chroot has a row, and no mail about it was sent in the last `period` days.
unfoldable pub is_not_recent : ℕ → ℕ → Option CoprChroot → Bool
is_not_recent period now none = false
is_not_recent period now (some x) = long_ago x.delete_notify
  where
    long_ago : Option ℕ → Bool
    long_ago none = true
    long_ago (some t) = not (ltb ((now - t) / day) period)
