-- ===== src/Chroots/Outdated.antt =====
-- frontend/coprs_frontend/coprs/logic/outdated_chroots_logic.py: what users and a timer do about
-- outdated chroots. The periods of the configuration are in seconds, but the one for notifications is in
-- days. The projects that `get_coprs_permissible_by_user` gives are an argument, by their ids.
use copr.Base.{
  ℕ, ◌+◌, ◌-◌, ◌*◌, Option, none, some, List, [], ◌∷◌, ◌++◌, Bool, false, not, ◌&&◌, ◌||◌, ◌==◌,
  ltb, leb, if◌then◌else◌,
}
use copr.Base.Equality.{nat_eq}
use copr.Base.Dict.{contains}
use copr.Base.Maybe.{◌>>=◌}
use copr.Frontend.User.{Permission}
use copr.Chroots.{CoprChroot, is_set, before, day, delete_after_days, outdated_chroots}
use copr.Chroots.Edit.{Review, Session, Actor, automation, defaults, update_chroot}

pub record Config : Type 0 where
  pub eol_chroots_notification_period : ℕ  -- in days
  pub delete_eol_chroots_after : ℕ
  pub eol_chroots_expire_period : ℕ
  pub rolling_chroots_inactivity_warning : ℕ
  pub rolling_chroots_inactivity_removal : ℕ

-- `_update_copr_chroot`
unfoldable pub update_copr_chroot :
    List Permission → ℕ → Actor → CoprChroot → ℕ → Session → Option Session
unfolding update_chroot
update_copr_chroot table now actor cc period s =
    update_chroot table actor cc (record defaults { delete_after = some (now + period) }) s

unfoldable pub drop_reviews : ℕ → List Review → List Review
drop_reviews id [] = []
drop_reviews id (r ∷ rs) =
    let rest = drop_reviews id rs in if r.copr_chroot_id == id then rest else r ∷ rest

unfoldable pub extend : Config → List Permission → ℕ → Actor → CoprChroot → Session → Option Session
unfolding update_copr_chroot drop_reviews
extend config table now actor cc s =
    update_copr_chroot table now actor cc config.delete_eol_chroots_after s
    >>= (λ t. some (record t { reviews = drop_reviews cc.id t.reviews }))

unfoldable pub expire : Config → List Permission → ℕ → Actor → CoprChroot → Session → Option Session
unfolding update_copr_chroot
expire config table now actor cc s =
    update_copr_chroot table now actor (record cc { delete_notify = some now })
      config.eol_chroots_expire_period s

-- The ids of the chroots that the user has reviewed, `get_all_reviews`.
unfoldable pub reviewed : ℕ → List Review → List ℕ
reviewed user_id [] = []
reviewed user_id (r ∷ rs) =
    let rest = reviewed user_id rs in if r.user_id == user_id then r.copr_chroot_id ∷ rest else rest

unfoldable pub of_project : ℕ → List CoprChroot → List CoprChroot
of_project id [] = []
of_project id (c ∷ cs) = let rest = of_project id cs in if c.copr.id == id then c ∷ rest else rest

-- chroot.delete_after_days > period, of a chroot whose date is set.
abbrev pub more_days : Option ℕ → ℕ → Bool
more_days none period = false
more_days (some days) period = ltb period days

unfoldable pub review_chroots : ℕ → ℕ → ℕ → List ℕ → List CoprChroot → List Review
unfolding delete_after_days
review_chroots period now user_id reviews [] = []
review_chroots period now user_id reviews (c ∷ cs) =
    let rest = review_chroots period now user_id reviews cs in
    if contains reviews c.id
    then rest
    else if more_days (delete_after_days now c) period
    then rest
    else record { user_id = user_id; copr_chroot_id = c.id } ∷ rest

unfoldable pub review_projects : ℕ → ℕ → ℕ → List ℕ → List CoprChroot → List ℕ → List Review
unfolding review_chroots outdated_chroots of_project
review_projects period now user_id reviews chroots [] = []
review_projects period now user_id reviews chroots (p ∷ ps) =
    review_chroots period now user_id reviews (outdated_chroots (of_project p chroots))
    ++ review_projects period now user_id reviews chroots ps

unfoldable pub make_review : Config → ℕ → ℕ → List ℕ → Session → Session
unfolding reviewed review_projects
make_review config now user_id projects s = record s {
  reviews =
      s.reviews
      ++ review_projects config.eol_chroots_notification_period now user_id
          (reviewed user_id s.reviews) s.copr_chroots projects;
}

-- A NULL date is not below another.
abbrev pub date_between : ℕ → ℕ → Option ℕ → Bool
date_between now soon none = false
date_between now soon (some t) = leb t soon && ltb now t

-- The filters of the query of `has_not_reviewed`.
unfoldable pub to_review : ℕ → ℕ → List ℕ → List ℕ → CoprChroot → Bool
to_review now soon projects reviews c =
    contains projects c.copr.id
    && (date_between now soon c.delete_after
        && (not (contains reviews c.id) && not c.mock_chroot.is_active))

unfoldable pub any_to_review : ℕ → ℕ → List ℕ → List ℕ → List CoprChroot → Bool
unfolding to_review
any_to_review now soon projects reviews [] = false
any_to_review now soon projects reviews (c ∷ cs) =
    to_review now soon projects reviews c || any_to_review now soon projects reviews cs

unfoldable pub has_not_reviewed : Config → ℕ → ℕ → List ℕ → Session → Bool
unfolding reviewed any_to_review
has_not_reviewed config now user_id projects s =
    any_to_review now (now + config.eol_chroots_notification_period * day) projects
      (reviewed user_id s.reviews) s.copr_chroots

-- The filters of the query of `trigger_rolling_eol_policy`.
unfoldable pub is_lifeless : ℕ → CoprChroot → Bool
is_lifeless warn_timestamp c =
    c.mock_chroot.rolling
    && (c.mock_chroot.is_active
        && (not (is_set c.delete_after) && before c.last_build_timestamp warn_timestamp))

unfoldable pub mark_rolling : Config → ℕ → ℕ → List CoprChroot → Session → Option Session
unfolding is_lifeless update_copr_chroot
mark_rolling config now warn_timestamp [] s = some s
mark_rolling config now warn_timestamp (c ∷ cs) s =
    (if is_lifeless warn_timestamp c
      then update_copr_chroot [] now automation c config.rolling_chroots_inactivity_removal s
      else some s)
    >>= mark_rolling config now warn_timestamp cs

unfoldable pub trigger_rolling_eol_policy : Config → ℕ → Session → Option Session
unfolding mark_rolling
trigger_rolling_eol_policy config now s =
    mark_rolling config now (now - config.rolling_chroots_inactivity_warning) s.copr_chroots s
