-- ===== src/Frontend/Cancel/AllOrNothing.antt =====
-- `cancel_builds` of frontend/coprs_frontend/coprs/logic/builds_logic.py cancels all that it was asked
-- to cancel, or nothing.
use copr.Base.{
  ℕ, ◌≡◌, refl, sym, ap, ◌∙◌, List, [], ◌∷◌, Bool, true, false, not, arith, ◌==◌, if◌then◌else◌,
  if_cases, Bool-cases, inl, inr, All, All-map, map,
}
use copr.Base.Equality.{nat_eq}
use copr.Base.Dict.{contains}
use copr.Frontend.User.{Permission, User, can_build_in}
use copr.Frontend.User.Cached.{
  may_build, IsKept, can_build_in-may_build, can_build_in-IsKept, can_build_in_same_user,
}
use copr.Frontend.Build.{Build, cancelable}
use copr.Frontend.Cancel.{
  Session, Outcome, ToCancel, no_rights, conflicting, in_progress, bad_request, more_projects, done,
  get_by_ids, ids_of, set_canceled, set_all_canceled, sort_build, sort_builds, finish_cancel,
  cancel_builds, send_cancel_multiple_builds,
}

-- The row as `cancel_builds` leaves it.
abbrev pub canceled_if : List ℕ → Build → Build
canceled_if ids b = if contains ids b.id then record b { canceled_flag = true } else b

canceled_if_cons :
    (id : ℕ) (ids : List ℕ) (b : Build)
    → canceled_if ids (if b.id == id then record b { canceled_flag = true } else b)
      ≡ canceled_if (id ∷ ids) b
unfolding contains
canceled_if_cons id ids b = elim (Bool-cases (b.id == id)) [
  | inl same ↦
      let same' : (id == b.id) ≡ true = ground (arith, same) in
      elim (Bool-cases (contains ids b.id)) [
        | inl there ↦ simp (same, same', there)
        | inr new ↦ simp (same, same', new)
      ]
  | inr other ↦ let other' : (id == b.id) ≡ false = ground (arith, other) in simp (other, other')
]

map-set_canceled :
    (id : ℕ) (ids : List ℕ) (builds : List Build)
    → map (canceled_if ids) (set_canceled id builds) ≡ map (canceled_if (id ∷ ids)) builds
unfolding set_canceled
map-set_canceled id ids [] = refl
map-set_canceled id ids (b ∷ bs) =
    rw (map-set_canceled id ids bs)
      (ap (λ x. x ∷ map (canceled_if (id ∷ ids)) bs) (canceled_if_cons id ids b))

map_none_canceled : (builds : List Build) → builds ≡ map (canceled_if []) builds
unfolding contains
map_none_canceled [] = refl
map_none_canceled (b ∷ bs) = ap (λ l. b ∷ l) (map_none_canceled bs)

set_all_canceled_lem :
    (bs builds : List Build) → set_all_canceled bs builds ≡ map (canceled_if (ids_of bs)) builds
unfolding set_all_canceled
set_all_canceled_lem [] builds = map_none_canceled builds
set_all_canceled_lem (b ∷ bs) builds =
    set_all_canceled_lem bs (set_canceled b.id builds) ∙ map-set_canceled b.id (ids_of bs) builds

-- Sorting, by what the user may do: those that may be canceled, and the others' ids.
abbrev pub MayCancel : List Permission → User → Build → Type 0
MayCancel table user b = (may_build table user b.copr ≡ true) × (cancelable b ≡ true)

-- Builds whose projects have the same name are builds of the same project.
abbrev pub OneOfEachName : List Build → Type 0
OneOfEachName [] = Unit
OneOfEachName (b ∷ bs) =
    All (λ (d : Build). b.copr.name ≡ d.copr.name → b.copr ≡ d.copr) bs × OneOfEachName bs

-- What sorting promises: where no list of refusals has an entry, all may be canceled and are listed.
abbrev pub IsSorted : List Permission → User → List Build → ToCancel → Type 0
IsSorted table user bs sorted =
    sorted.no_permission ≡ []
    → sorted.not_cancelable ≡ []
    → (sorted.to_cancel ≡ bs) × All (MayCancel table user) bs

sort_build-IsSorted :
    (table : List Permission) (user : User) (b : Build) (bs : List Build) (rest : ToCancel)
    (can : Bool)
    → can ≡ may_build table user b.copr
    → IsSorted table user bs rest
    → IsSorted table user (b ∷ bs) (sort_build can b rest)
unfolding sort_build
sort_build-IsSorted table user b bs rest false right h = λ no_perm not_c. cc
sort_build-IsSorted table user b bs rest true right h =
    if_cases (IsSorted table user (b ∷ bs)) (not (cancelable b)) (λ fixed no_perm not_c. cc)
      (λ free no_perm not_c.
        let (same, all) = h no_perm not_c in
        (ap (λ l. b ∷ l) same, ((sym right, ground (arith, free)), all)))

keep-IsKept-All :
    (table : List Permission) (user : User) (c : Build) (bs : List Build)
    → All (λ (d : Build). c.copr.name ≡ d.copr.name → c.copr ≡ d.copr) bs
    → IsKept table user c.copr
    → All (λ (d : Build). IsKept table user d.copr) bs
    → All (λ (d : Build). IsKept table (can_build_in table user c.copr).1 d.copr) bs
keep-IsKept-All table user c [] one mine kept = tt
keep-IsKept-All table user c (d ∷ ds) one mine kept = (
  can_build_in-IsKept table user c.copr d.copr one.0 mine kept.0,
  keep-IsKept-All table user c ds one.1 mine kept.1,
)

sort_builds-IsSorted :
    (table : List Permission) (user : User) (bs : List Build)
    → OneOfEachName bs
    → All (λ (d : Build). IsKept table user d.copr) bs
    → IsSorted table user bs (sort_builds table user bs)
unfolding sort_builds
sort_builds-IsSorted table user [] one kept = λ no_perm not_c. (refl, tt)
sort_builds-IsSorted table user (b ∷ bs) one kept =
    let user' = (can_build_in table user b.copr).1 in
    sort_build-IsSorted table user b bs (sort_builds table user' bs)
      (can_build_in table user b.copr).0 (can_build_in-may_build table user b.copr kept.0)
      (λ no_perm not_c.
        let (same, all) =
          sort_builds-IsSorted table user' bs one.1
            (keep-IsKept-All table user b bs one.0 kept.0 kept.1) no_perm not_c in
        (
          same,
          All-map bs
              (λ d (may, free). (sym (can_build_in_same_user table user b.copr d.copr) ∙ may, free))
              all,
        ))

-- Conversely, where all may be canceled, nothing is refused.
sort_builds_none_refused :
    (table : List Permission) (user : User) (bs : List Build)
    → OneOfEachName bs
    → All (λ (d : Build). IsKept table user d.copr) bs
    → All (MayCancel table user) bs
    → ((sort_builds table user bs).no_permission ≡ [])
      × ((sort_builds table user bs).not_cancelable ≡ [])
unfolding sort_builds sort_build
sort_builds_none_refused table user [] one kept may = (refl, refl)
sort_builds_none_refused table user (b ∷ bs) one kept may =
    let user' = (can_build_in table user b.copr).1 in
    let ((can, free), rest) = may in
    let ih =
      sort_builds_none_refused table user' bs one.1
        (keep-IsKept-All table user b bs one.0 kept.0 kept.1)
        (All-map bs (λ d (may, free). (can_build_in_same_user table user b.copr d.copr ∙ may, free))
          rest) in
    simp (can_build_in-may_build table user b.copr kept.0, can, free) ih

-- What `cancel_builds` did: all the requested builds, which may all be canceled, became canceled with
-- requests to the backend, or some could not be and nothing was changed.
abbrev pub IsAllOrNothing : List Permission → User → List Build → Session → Outcome → Type 0
IsAllOrNothing table user requested s no_rights = ⊥
IsAllOrNothing table user requested s conflicting = ⊥
IsAllOrNothing table user requested s in_progress = ⊥
IsAllOrNothing table user requested s more_projects = ⊥
IsAllOrNothing table user requested s (bad_request no_perm not_c missing) =
    ¬ All (MayCancel table user) requested
IsAllOrNothing table user requested s (done s') =
    All (MayCancel table user) requested
    × (s'.builds ≡ map (canceled_if (ids_of requested)) s.builds)
    × (s'.cancel_requests ≡ send_cancel_multiple_builds requested s.cancel_requests)
    × (s'.delete_actions ≡ s.delete_actions)

finish_cancel-IsAllOrNothing :
    (table : List Permission) (user : User) (requested : List Build) (s : Session)
    (sorted : ToCancel) (no_perm not_c : List ℕ)
    → sorted.no_permission ≡ no_perm
    → sorted.not_cancelable ≡ not_c
    → IsSorted table user requested sorted
    → (All (MayCancel table user) requested
        → (sorted.no_permission ≡ []) × (sorted.not_cancelable ≡ []))
    → IsAllOrNothing table user requested s (finish_cancel sorted no_perm not_c s)
unfolding finish_cancel
finish_cancel-IsAllOrNothing table user requested s sorted [] [] p n right none_refused =
    let (same, all) = right p n in
    (all, rw same (set_all_canceled_lem requested s.builds), rw same refl, refl)
finish_cancel-IsAllOrNothing table user requested s sorted [] (j ∷ js) p n right none_refused =
    λ all. let (p', n') = none_refused all in cc
finish_cancel-IsAllOrNothing table user requested s sorted (i ∷ is) js p n right none_refused =
    λ all. let (p', n') = none_refused all in cc

-- If no two projects of the requested builds share a name, and the user object has kept no wrong
-- permission of theirs: `cancel_builds` cancels every requested build that is there, with the
-- requests to the backend, when the user may build in all of the projects and no build is finished;
-- otherwise it changes nothing.
pub cancel_builds-IsAllOrNothing :
    (table : List Permission) (user : User) (build_ids : List ℕ) (s : Session)
    → OneOfEachName (get_by_ids build_ids s.builds)
    → All (λ (d : Build). IsKept table user d.copr) (get_by_ids build_ids s.builds)
    → IsAllOrNothing table user
        (get_by_ids build_ids s.builds)
        s
        (cancel_builds table user build_ids s)
unfolding cancel_builds
cancel_builds-IsAllOrNothing table user build_ids s one kept =
    let requested = get_by_ids build_ids s.builds in
    let sorted = sort_builds table user requested in
    finish_cancel-IsAllOrNothing table user requested s sorted sorted.no_permission
      sorted.not_cancelable refl refl (sort_builds-IsSorted table user requested one kept)
      (sort_builds_none_refused table user requested one kept)
