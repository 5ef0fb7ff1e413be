-- ===== src/Frontend/Imported/Collected.antt =====
-- The tasks that `dist_git_upload_completed` of
-- frontend/coprs_frontend/coprs/views/backend_ns/backend_general.py collects.
use copr.Base.{
  ◌≡◌, sym, ap, ◌∙◌, Option, some, List, [], ◌∷◌, Bool, true, false, ◌||◌, arith, All, All-map,
  if_cases, Bool-cases, inl, inr,
}
use copr.Base.Equality.{Text, text_eq, maybe_eq, beq, beq_iff}
use copr.Base.Dict.{Dict, contains, contains-append}
use copr.Frontend.Status.{status_eq}
use copr.Frontend.Imported.{Row, is_on, collect_branch, collected}

-- A commit was reported for the branch.
unfoldable pub covered : Dict Text Text → Option Text → Bool
covered [] b = false
covered ((branch, git_hash) ∷ commits) b = beq b (some branch) || covered commits b

-- The branch is that of the mock chroot, which has the chroot's name.
abbrev pub HasBranch : (Text → Option Text) → Row → Type 0
HasBranch branch_of row = row.branch ≡ branch_of row.chroot.name

collect_branch_sound :
    (branch_of : Text → Option Text) (branch name : Text) (rows : List Row)
    → All (HasBranch branch_of) rows
    → contains (collect_branch branch rows) name ≡ true
    → branch_of name ≡ some branch
unfolding collect_branch contains
collect_branch_sound branch_of branch name [] right h = ground (arith, h)
collect_branch_sound branch_of branch name (row ∷ rows) right h =
    if_cases (λ (xs : List Text). contains xs name ≡ true → branch_of name ≡ some branch)
      (is_on branch row)
      (λ on h'. elim (Bool-cases (beq row.chroot.name name)) [
        | inl same ↦
            ap branch_of (sym ((beq_iff row.chroot.name name).0 same))
            ∙ sym right.0
            ∙ (beq_iff row.branch (some branch)).0 on
        | inr other ↦
            collect_branch_sound branch_of branch name rows right.1 (ground (arith, other, h'))
      ])
      (λ off h'. collect_branch_sound branch_of branch name rows right.1 h') h

collect_branch_complete :
    (branch : Text) (rows : List Row)
    → All
        (λ row.
          is_on branch row ≡ true → contains (collect_branch branch rows) row.chroot.name ≡ true)
        rows
unfolding collect_branch contains
collect_branch_complete branch [] = tt
collect_branch_complete branch (row ∷ rows) = (
  (λ on. ground (arith, on, beq_iff row.chroot.name row.chroot.name)),
  All-map rows (λ r h on. ground (arith, h on)) (collect_branch_complete branch rows),
)

pub collected_sound :
    (branch_of : Text → Option Text) (commits : Dict Text Text) (rows : List Row) (row : Row)
    → All (HasBranch branch_of) rows
    → HasBranch branch_of row
    → contains (collected commits rows) row.chroot.name ≡ true
    → covered commits row.branch ≡ true
unfolding collected covered contains
collected_sound branch_of [] rows row right own h = ground (arith, h)
collected_sound branch_of ((branch, git_hash) ∷ commits) rows row right own h =
    elim (Bool-cases (contains (collect_branch branch rows) row.chroot.name)) [
      | inl found ↦
          (let same =
              (beq_iff row.branch (some branch)).1
                (own ∙ collect_branch_sound branch_of branch row.chroot.name rows right found) in
            ground (arith, same))
      | inr other ↦
          (let later = collected_sound branch_of commits rows row right own (
              ground (
                arith,
                other,
                h,
                contains-append (collect_branch branch rows) (collected commits rows)
                    row.chroot.name,
              )) in
            ground (arith, later))
    ]

pub All-and :
    {A : Type 0} (P Q : A → Type 0) (xs : List A) → All P xs → All Q xs → All (λ x. P x × Q x) xs
All-and P Q [] p q = tt
All-and P Q (x ∷ xs) p q = ((p.0, q.0), All-and P Q xs p.1 q.1)

pub collected_complete :
    (commits : Dict Text Text) (rows : List Row)
    → All
        (λ row.
          covered commits row.branch ≡ true
          → contains (collected commits rows) row.chroot.name ≡ true)
        rows
unfolding collected covered
collected_complete [] rows =
    All-map rows (λ r h c. ground (arith, c)) (collect_branch_complete [] rows)
collected_complete ((branch, git_hash) ∷ commits) rows =
    All-map rows
      (λ r h c. elim (Bool-cases (is_on branch r)) [
        | inl on ↦
            (let e = h.0 on in
              ground (
                arith,
                e,
                contains-append (collect_branch branch rows) (collected commits rows) r.chroot.name,
              ))
        | inr off ↦
            (let e = h.1 (ground (arith, c, off)) in
              ground (
                arith,
                e,
                contains-append (collect_branch branch rows) (collected commits rows) r.chroot.name,
              ))
      ])
      (All-and _ _ rows (collect_branch_complete branch rows) (collected_complete commits rows))
