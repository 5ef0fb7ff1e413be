-- ===== src/Chroots/Reviewed.antt =====
-- `make_review` and `has_not_reviewed` of
-- frontend/coprs_frontend/coprs/logic/outdated_chroots_logic.py.
use copr.Base.{
  ℕ, ◌+◌, ◌*◌, ◌≡◌, ◌⊎◌, refl, sym, ap, ◌∙◌, Option, none, some, List, [], ◌∷◌, ◌++◌, true, false,
  ◌||◌, arith, All, ◌==◌, ==_iff, Bool-cases, inl, inr,
}
use mathlib.Core.Path.{subst}
use copr.Base.Equality.{nat_eq, beq_iff}
use copr.Base.Dict.{contains, contains-append}
use copr.Chroots.{CoprChroot, is_set, day, days_from, delete_after_days, outdated_chroots}
use copr.Chroots.Edit.{Review, Session}
use copr.Chroots.Outdated.{
  Config, reviewed, of_project, more_days, review_chroots, review_projects, make_review,
  date_between, to_review, any_to_review, has_not_reviewed,
}

reviewed-append :
    (user_id : ℕ) (rs ts : List Review)
    → reviewed user_id (rs ++ ts) ≡ reviewed user_id rs ++ reviewed user_id ts
unfolding reviewed
reviewed-append user_id [] ts = refl
reviewed-append user_id (r ∷ rs) ts = ground (arith, reviewed-append user_id rs ts)

-- A date of the query is at most the period away in whole days.
date_lem :
    (now period : ℕ) (o : Option ℕ)
    → date_between now (now + period * day) o ≡ true
    → (is_set o ≡ true) × (more_days (days_from now o) period ≡ false)
date_lem now period none h = ground (arith, h)
date_lem now period (some t) h = (refl, ground (arith, h))

abbrev Mem : CoprChroot → List CoprChroot → Type 0
Mem c [] = ⊥
Mem c (x ∷ xs) = (x ≡ c) ⊎ Mem c xs

module _ (period now user_id : ℕ) (reviews : List ℕ) where
  -- What `make_review` should review: a chroot of the project that is on the way out and in time.
  record IsDue (p : ℕ) (c : CoprChroot) : Type 0 where
    pub of : (c.copr.id == p) ≡ true
    pub dated : is_set c.delete_after ≡ true
    pub clicked : c.deleted ≡ false
    pub new : contains reviews c.id ≡ false
    pub soon : more_days (delete_after_days now c) period ≡ false

  unfoldable new_reviews : ℕ → List CoprChroot → List ℕ
  unfolding reviewed review_chroots outdated_chroots of_project
  new_reviews p cs =
      reviewed user_id
        (review_chroots period now user_id reviews (outdated_chroots (of_project p cs)))

  review-found :
      (p : ℕ) (c : CoprChroot) (cs : List CoprChroot)
      → IsDue p c
      → contains (new_reviews p (c ∷ cs)) c.id ≡ true
  unfolding new_reviews contains
  review-found p c cs due = ground (
    arith,
    due.of,
    due.dated,
    due.clicked,
    due.new,
    due.soon,
    ==_iff user_id user_id,
    beq_iff c.id c.id,
    ==_iff c.id c.id,
  )

  review-later :
      (p id : ℕ) (c : CoprChroot) (cs : List CoprChroot)
      → contains (new_reviews p cs) id ≡ true
      → contains (new_reviews p (c ∷ cs)) id ≡ true
  unfolding new_reviews contains
  review-later p id c cs h = ground (arith, h)

  review-Mem :
      (p : ℕ) (c : CoprChroot) (cs : List CoprChroot)
      → IsDue p c
      → Mem c cs
      → contains (new_reviews p cs) c.id ≡ true
  review-Mem p c [] due mem = elim mem [ ]
  review-Mem p c (x ∷ cs) due (inl here) =
      subst (λ y. contains (new_reviews p (y ∷ cs)) c.id ≡ true) (sym here)
        (review-found p c cs due)
  review-Mem p c (x ∷ cs) due (inr later) = review-later p c.id x cs (review-Mem p c cs due later)

  projects-Mem :
      (c : CoprChroot) (cs : List CoprChroot) (ps : List ℕ)
      → contains ps c.copr.id ≡ true
      → ((p : ℕ) → (c.copr.id == p) ≡ true → IsDue p c)
      → Mem c cs
      → contains (reviewed user_id (review_projects period now user_id reviews cs ps)) c.id ≡ true
  unfolding contains review_projects reviewed new_reviews
  projects-Mem c cs [] there due mem = ground (arith, there)
  projects-Mem c cs (p ∷ ps) there due mem =
      ap (λ xs. contains xs c.id)
        (reviewed-append user_id
          (review_chroots period now user_id reviews (outdated_chroots (of_project p cs)))
          (review_projects period now user_id reviews cs ps))
      ∙ contains-append (new_reviews p cs)
          (reviewed user_id (review_projects period now user_id reviews cs ps)) c.id
      ∙ elim (Bool-cases (c.copr.id == p)) [
        | inl mine ↦ ground (arith, review-Mem p c cs (due p mine) mem)
        | inr other ↦ ground (
          arith,
          projects-Mem c cs ps
              (ground (arith, there, other, beq_iff p c.copr.id, ==_iff c.copr.id p)) due mem,
        )
      ]

module _ (config : Config) (now user_id : ℕ) (projects : List ℕ) (s : Session) where
  abbrev IsClicked : CoprChroot → Type 0
  IsClicked c = c.mock_chroot.is_active ≡ false → c.deleted ≡ false

  abbrev period : ℕ
  period = config.eol_chroots_notification_period

  abbrev old : List ℕ
  old = reviewed user_id s.reviews

  abbrev now_reviewed : List ℕ
  now_reviewed = reviewed user_id (make_review config now user_id projects s).reviews

  reviewed_lem :
      (id : ℕ)
      → contains now_reviewed id ≡ (
          contains old id
          || contains
              (reviewed user_id (review_projects period now user_id old s.copr_chroots projects))
              id)
  unfolding make_review
  reviewed_lem id =
      ap (λ xs. contains xs id)
        (reviewed-append user_id s.reviews
          (review_projects period now user_id old s.copr_chroots projects))
      ∙ contains-append old
          (reviewed user_id (review_projects period now user_id old s.copr_chroots projects)) id

  -- A chroot that the query would find is reviewed.
  found-reviewed :
      (c : CoprChroot)
      → contains projects c.copr.id ≡ true
      → date_between now (now + period * day) c.delete_after ≡ true
      → c.deleted ≡ false
      → Mem c s.copr_chroots
      → contains now_reviewed c.id ≡ true
  unfolding delete_after_days
  found-reviewed c mine timely clicked mem = elim (Bool-cases (contains old c.id)) [
    | inl known ↦ ground (arith, reviewed_lem c.id, known)
    | inr new ↦
        let (dated, soon) = date_lem now period c.delete_after timely in
        let found =
          projects-Mem period now user_id old c s.copr_chroots projects mine
            (λ p of. record { of = of; dated = dated; clicked = clicked; new = new; soon = soon })
            mem in
        ground (arith, reviewed_lem c.id, found)
  ]

  in_time :
      (c : CoprChroot)
      → IsClicked c
      → Mem c s.copr_chroots
      → to_review now (now + period * day) projects now_reviewed c ≡ false
  unfolding to_review
  in_time c clicked mem =
      elim (Bool-cases (to_review now (now + period * day) projects now_reviewed c)) [
        | inl found ↦
            let covered =
              found-reviewed c (ground (arith, found)) (ground (arith, found))
                (clicked (ground (arith, found))) mem in
            ground (arith, found, covered)
        | inr e ↦ e
      ]

  none_in_time :
      (cs : List CoprChroot)
      → All IsClicked cs
      → ((c : CoprChroot) → Mem c cs → Mem c s.copr_chroots)
      → any_to_review now (now + period * day) projects now_reviewed cs ≡ false
  unfolding any_to_review
  none_in_time [] clicked sub = refl
  none_in_time (c ∷ cs) clicked sub =
      rw (in_time c clicked.0 (sub c (inl refl)))
        (none_in_time cs clicked.1 (λ d mem. sub d (inr mem)))

-- Once a user has declared the outdated chroots reviewed, there is none left for the user to review,
-- unless one with an inactive mock chroot was unclicked.
pub make_review-has_not_reviewed :
    (config : Config) (now user_id : ℕ) (projects : List ℕ) (s : Session)
    → All (λ (c : CoprChroot). c.mock_chroot.is_active ≡ false → c.deleted ≡ false) s.copr_chroots
    → has_not_reviewed config now user_id projects (make_review config now user_id projects s)
      ≡ false
unfolding has_not_reviewed make_review
make_review-has_not_reviewed config now user_id projects s clicked =
    none_in_time config now user_id projects s s.copr_chroots clicked (λ c mem. mem)
