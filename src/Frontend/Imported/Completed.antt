-- ===== src/Frontend/Imported/Completed.antt =====
-- `dist_git_upload_completed` of frontend/coprs_frontend/coprs/views/backend_ns/backend_general.py,
-- row by row.
use copr.Base.{
  ◌≡◌, refl, sym, ap, ◌∙◌, Option, some, List, [], ◌∷◌, map, Bool, true, false, not, ◌&&◌,
  if◌then◌else◌, arith, All, All-map, if_cases, Bool-cases, inl, inr,
}
use copr.Base.Equality.{Text, text_eq, maybe_eq, beq}
use copr.Base.Dict.{Dict, contains}
use copr.Frontend.Status.{value, status_eq, failed}
use copr.Frontend.Build.{Build}
use copr.Frontend.Imported.{
  Row, is_skipped, is_on, import_row, import_branches, collected, fail_row, all_collected,
  dist_git_upload_completed,
}
use copr.Frontend.Imported.Collected.{
  covered, HasBranch, collected_sound, collected_complete, All-and,
}
use copr.Frontend.Imported.Expected.{
  reported, with_status, marked, is_skipped-was_left_out, expected_row, expected_build,
  finish_source-expected_build,
}

unfoldable imported : Dict Text Text → Row → Row
imported [] row = row
imported ((branch, git_hash) ∷ commits) row = imported commits (import_row branch git_hash row)

map_same : (rows : List Row) → map (λ row. row) rows ≡ rows
map_same [] = refl
map_same (row ∷ rows) = ap (λ rs. row ∷ rs) (map_same rows)

map_twice : (f g : Row → Row) (rows : List Row) → map f (map g rows) ≡ map (λ row. f (g row)) rows
map_twice f g [] = refl
map_twice f g (row ∷ rows) = ap (λ rs. f (g row) ∷ rs) (map_twice f g rows)

import_branches_lem :
    (commits : Dict Text Text) (rows : List Row)
    → import_branches commits rows ≡ map (imported commits) rows
unfolding import_branches imported
import_branches_lem [] rows = sym (map_same rows)
import_branches_lem ((branch, git_hash) ∷ commits) rows =
    import_branches_lem commits (map (import_row branch git_hash) rows)
    ∙ map_twice (imported commits) (import_row branch git_hash) rows

imported_skipped :
    (commits : Dict Text Text) (row : Row)
    → is_skipped row.chroot.status ≡ true
    → imported commits row ≡ row
unfolding imported import_row
imported_skipped [] row h = refl
imported_skipped ((branch, git_hash) ∷ commits) row h =
    if_cases (λ (r : Row). imported commits r ≡ row) (not (is_on branch row))
      (λ off. imported_skipped commits row h) (λ on. simp h (imported_skipped commits row h))

reported_uncovered :
    (commits : Dict Text Text) (b old : Option Text)
    → covered commits b ≡ false
    → reported commits b old ≡ old
unfolding covered reported
reported_uncovered [] b old h = refl
reported_uncovered ((branch, git_hash) ∷ commits) b old h =
    ground (arith, h, reported_uncovered commits b old)

marked_again :
    (commits : Dict Text Text) (git_hash : Text) (row : Row)
    → (if covered commits row.branch
        then marked (reported commits row.branch (some git_hash)) row
        else marked (some git_hash) row)
      ≡ marked (reported commits row.branch (some git_hash)) row
marked_again commits git_hash row = elim (Bool-cases (covered commits row.branch)) [
  | inl has ↦ simp has refl
  | inr lacks ↦
      simp lacks
        (ap (λ x. marked x row) (sym (reported_uncovered commits row.branch (some git_hash) lacks)))
]

-- A row that is not skipped, with what is reported for its branch.
imported-marked :
    (commits : Dict Text Text) (row : Row)
    → is_skipped row.chroot.status ≡ false
    → imported commits row ≡ (
        if covered commits row.branch
        then marked (reported commits row.branch row.git_hash) row
        else row)
unfolding imported import_row covered reported value
imported-marked [] row h = refl
imported-marked ((branch, git_hash) ∷ commits) row h =
    elim (Bool-cases (beq row.branch (some branch))) [
      | inl on ↦
          simp (on, h)
            (imported-marked commits (marked (some git_hash) row) refl
              ∙ marked_again commits git_hash row)
      | inr off ↦ simp off (imported-marked commits row h)
    ]

expected_uncovered :
    (commits : Dict Text Text) (tasks : List Text) (row : Row)
    → contains tasks row.chroot.name ≡ false
    → imported commits row ≡ row
    → fail_row tasks (imported commits row) ≡ with_status failed row
unfolding fail_row
expected_uncovered commits tasks row h same = rw same (simp h refl)

imported_uncovered :
    (commits : Dict Text Text) (row : Row)
    → covered commits row.branch ≡ false
    → imported commits row ≡ row
imported_uncovered commits row lacks = elim (Bool-cases (is_skipped row.chroot.status)) [
  | inl stays ↦ imported_skipped commits row stays
  | inr goes ↦ imported-marked commits row goes ∙ simp lacks refl
]

expected_lem :
    (commits : Dict Text Text) (tasks : List Text) (row : Row)
    → contains tasks row.chroot.name ≡ covered commits row.branch
    → fail_row tasks (imported commits row) ≡ expected_row commits row
unfolding fail_row expected_row
expected_lem commits tasks row h = elim (Bool-cases (covered commits row.branch)) [
  | inr lacks ↦
      simp lacks
        (expected_uncovered commits tasks row (h ∙ lacks) (imported_uncovered commits row lacks))
  | inl has ↦ elim (Bool-cases (is_skipped row.chroot.status)) [
    | inl stays ↦
        rw (imported_skipped commits row stays)
          (simp (h ∙ has, has, sym (is_skipped-was_left_out row.chroot.status) ∙ stays) refl)
    | inr goes ↦
        rw (imported-marked commits row goes)
          (simp (h ∙ has, has, sym (is_skipped-was_left_out row.chroot.status) ∙ goes) refl)
  ]
]

map_rows :
    (f g : Row → Row) (rows : List Row) → All (λ row. f row ≡ g row) rows → map f rows ≡ map g rows
map_rows f g [] h = refl
map_rows f g (row ∷ rows) h = rw (h.0, map_rows f g rows h.1) refl

-- Each chroot of the build was covered.
unfoldable pub all_covered : Dict Text Text → List Row → Bool
unfolding covered
all_covered commits [] = true
all_covered commits (row ∷ rows) = covered commits row.branch && all_covered commits rows

all_collected_lem :
    (commits : Dict Text Text) (tasks : List Text) (rows : List Row)
    → All (λ row. contains tasks row.chroot.name ≡ covered commits row.branch) rows
    → all_collected tasks rows ≡ all_covered commits rows
unfolding all_collected all_covered
all_collected_lem commits tasks [] h = refl
all_collected_lem commits tasks (row ∷ rows) h =
    rw (h.0, all_collected_lem commits tasks rows h.1) refl

collected-covered :
    (branch_of : Text → Option Text) (commits : Dict Text Text) (rows : List Row)
    → All (HasBranch branch_of) rows
    → All
        (λ row. contains (collected commits rows) row.chroot.name ≡ covered commits row.branch)
        rows
collected-covered branch_of commits rows right =
    All-map rows
      (λ row h. ground (arith, h.1, collected_sound branch_of commits rows row right h.0))
      (All-and _ _ rows right (collected_complete commits rows))

-- If chroots of one name have one branch, the import of a build leaves each of its chroots as its own
-- branch says, and the sources have succeeded exactly if a commit was reported for each chroot's branch;
-- else they have failed, and the build's failure is that of their import.
pub dist_git_upload_completed-expected_row :
    (branch_of : Text → Option Text) (commits : Dict Text Text) (build : Build) (rows : List Row)
    → All (HasBranch branch_of) rows
    → dist_git_upload_completed commits (some build) rows ≡ (
      true,
      some (expected_build (all_covered commits rows) build),
      map (expected_row commits) rows,
    )
unfolding dist_git_upload_completed
dist_git_upload_completed-expected_row branch_of commits build rows right =
    let known = collected-covered branch_of commits rows right in
    let tasks = collected commits rows in
    rw
      (
        all_collected_lem commits tasks rows known,
        finish_source-expected_build (all_covered commits rows) build,
        import_branches_lem commits rows,
        map_twice (fail_row tasks) (imported commits) rows,
        map_rows (λ row. fail_row tasks (imported commits row)) (expected_row commits) rows
            (All-map rows (λ row h. expected_lem commits tasks row h) known),
      )
      refl
