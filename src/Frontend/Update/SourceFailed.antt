-- ===== src/Frontend/Update/SourceFailed.antt =====
-- What the update of a failed source build leaves: `update_state_from_dict` of
-- frontend/coprs_frontend/coprs/logic/builds_logic.py.
use mathlib.Core.Path.{subst}
use copr.Base.{
  ℕ, ◌≡◌, refl, sym, ap, ◌∙◌, Option, none, some, List, [], ◌∷◌, Bool, true, false, if_cases, All,
  map,
}
use copr.Base.Equality.{Text, text_eq, maybe_eq, beq, codes}
use copr.Base.Dict.{Dict, get, contains}
use copr.Base.Maybe.{◌>>=◌, >>=-eq-some, some_path}
use copr.Workers.Manager.{or_default}
use copr.Frontend.Status.{status_eq, value, failed}
use copr.Frontend.Build.{Build, BuildChroot, status, finished, finished_early, is_finished_state}
use copr.Frontend.Update.{
  UpdDict, MockChroot, Tags, srpm_build_error, finish, skip_chroot, skip_chroots, skip_by_results,
  skip_if, not_exclusive, skip_excluded, set_source_status, update_source_status, update_source,
}

abbrev pub IsFinished : BuildChroot → Type 0
IsFinished c = is_finished_state c.status ≡ true

finish-All-IsFinished :
    (now : ℕ) (upd : UpdDict) (cs : List BuildChroot)
    → All IsFinished (map (finish now upd failed) cs)
unfolding finish is_finished_state contains value
finish-All-IsFinished now upd [] = tt
finish-All-IsFinished now upd (c ∷ cs) = (refl, finish-All-IsFinished now upd cs)

skip_if-IsFinished :
    (now : ℕ) (upd : UpdDict) (test : Bool) (reason : Text) (c : BuildChroot)
    → IsFinished c
    → IsFinished (skip_if now upd test reason c)
unfolding skip_if finish is_finished_state contains value
skip_if-IsFinished now upd true reason c h = refl
skip_if-IsFinished now upd false reason c h = h

skip_chroot-IsFinished :
    (now : ℕ) (upd : UpdDict) (tags : Tags) (c : BuildChroot)
    → IsFinished c
    → IsFinished (skip_chroot now upd tags c)
unfolding skip_chroot
skip_chroot-IsFinished now upd tags c h =
    let test = not_exclusive tags.exclusivearch c.arch in
    let why = codes "This chroot was skipped because of ExclusiveArch" in
    skip_if-IsFinished now upd (contains tags.excludearch c.arch)
      (codes "This chroot was skipped because of ExcludeArch") (skip_if now upd test why c)
      (skip_if-IsFinished now upd test why c h)

skip_chroots-IsFinished :
    (now : ℕ) (upd : UpdDict) (tags : Dict Text Tags) (cs ds : List BuildChroot)
    → All IsFinished cs
    → skip_chroots now upd tags cs ≡ some ds
    → All IsFinished ds
unfolding skip_chroots
skip_chroots-IsFinished now upd tags [] ds all ran = subst (All IsFinished) (some_path ran) all
skip_chroots-IsFinished now upd tags (c ∷ cs) ds all ran =
    let (t, found, ran1) =
      >>=-eq-some (get tags c.name_release)
        (λ t. skip_chroots now upd tags cs >>= (λ rest. some (skip_chroot now upd t c ∷ rest)))
        ran in
    let (rest, ran2, same) =
      >>=-eq-some (skip_chroots now upd tags cs) (λ rest. some (skip_chroot now upd t c ∷ rest))
        ran1 in
    subst (All IsFinished) (some_path same) (
      skip_chroot-IsFinished now upd t c all.0,
      skip_chroots-IsFinished now upd tags cs rest all.1 ran2,
    )

-- What a failed source build leaves.
abbrev pub IsFailed : Build → Type 0
IsFailed b =
    (b.source_status ≡ failed)
    × (b.canceled_flag ≡ false)
    × (b.fail_type ≡ srpm_build_error)
    × All IsFinished b.build_chroots

skip_by_results-IsFailed :
    (tags : Option (Dict Text Tags)) (now : ℕ) (upd : UpdDict) (b b' : Build)
    → IsFailed b
    → skip_by_results tags now upd b ≡ some b'
    → IsFailed b'
unfolding skip_by_results
skip_by_results-IsFailed none now upd b b' h ran = subst IsFailed (some_path ran) h
skip_by_results-IsFailed (some tags) now upd b b' h ran =
    if_cases (λ r. r ≡ some b' → IsFailed b') (beq upd.chroot (some (codes "srpm-builds")))
      (λ srpm ran.
        let (cs, found, same) =
          >>=-eq-some (skip_chroots now upd tags b.build_chroots)
            (λ chroots. some (record b { build_chroots = chroots })) ran in
        subst IsFailed (some_path same)
          (h.0, h.1, h.2, skip_chroots-IsFinished now upd tags b.build_chroots cs h.3 found))
      (λ other ran. subst IsFailed (some_path ran) h) ran

set_source_status-IsFailed :
    (now : ℕ) (upd : UpdDict) (b : Build)
    → b.canceled_flag ≡ false
    → IsFailed (set_source_status now upd failed b.build_chroots b)
unfolding set_source_status value
set_source_status-IsFailed now upd b live =
    (refl, live, refl, finish-All-IsFinished now upd b.build_chroots)

status-IsFailed : (b : Build) → IsFailed b → (status b ≡ some failed) × (finished b ≡ true)
unfolding status finished finished_early contains value
status-IsFailed b (source, live, reason, all) = (simp (live, source), simp (live, source))

-- When the backend reports that the build of the sources failed, for a build that is not canceled,
-- and the report is taken: the build and each of its chroots is finished, the state of the build is
-- "failed", and the reason is that the SRPM build failed.
pub update_source_failed :
    (now : ℕ) (upd : UpdDict) (package_chroots : Option (List MockChroot)) (b b' : Build)
    → upd.status ≡ some failed
    → b.canceled_flag ≡ false
    → update_source now upd package_chroots b ≡ some b'
    → (status b' ≡ some failed)
      × (finished b' ≡ true)
      × (b'.fail_type ≡ srpm_build_error)
      × All IsFinished b'.build_chroots
unfolding update_source update_source_status skip_excluded value
update_source_failed now upd package_chroots b b' failing live ran =
    let ran' : update_source_status now upd package_chroots b failed ≡ some b' =
      sym (ap (λ s. s >>= update_source_status now upd package_chroots b) failing) ∙ ran in
    let h =
      skip_by_results-IsFailed upd.architecture_specific_tags now upd
        (set_source_status now upd failed b.build_chroots
          (record b { result_dir = or_default upd.result_dir [] }))
        b'
        (set_source_status-IsFailed now upd (record b { result_dir = or_default upd.result_dir [] })
          live)
        ran' in
    let (is_failed, done) = status-IsFailed b' h in (is_failed, done, h.2, h.3)
