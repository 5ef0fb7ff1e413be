-- ===== src/Chroots/Enabling.antt =====
-- What the first loop of `update_from_names` of frontend/coprs_frontend/coprs/logic/coprs_logic.py does
-- to the table of chroots.
use copr.Base.{
  ℕ, ◌≡◌, ◌≢◌, ◌⊎◌, inl, inr, refl, sym, ◌∙◌, Option, none, some, List, [], ◌∷◌, ◌++◌, true, false,
  not, ◌&&◌, ◌==◌, arith, ==_iff, if_cases, Bool-cases,
}
use mathlib.Core.Path.{subst}
use copr.Base.Equality.{Text, text_eq}
use copr.Base.Maybe.{>>=-eq-some, some_path}
use copr.Frontend.User.{Copr, Permission}
use copr.Chroots.{MockChroot, CoprChroot}
use copr.Chroots.Edit.{
  Session, Actor, may_edit, is_row, row, put_chroot, update_columns, create_chroot,
}
use copr.Chroots.Names.{has_mock, enable, enable_one, enable_all}
use copr.Chroots.Rows.{
  is_on, row-put_chroot, row-append, row-is_row, row-put_chroot_other, is_row_other,
}

-- A row that is there, or is added, and is then enabled.
enabled_row :
    (cs : List CoprChroot) (cc : CoprChroot) (c m : ℕ)
    → is_row c m cc ≡ true
    → row cs c m ≢ none
    → is_on (row (put_chroot (enable cc) cs) c m) ≡ true
unfolding is_row
enabled_row cs cc c m key there = ground (arith, row-put_chroot cs (enable cc) c m)

enabled_new_row :
    (cs : List CoprChroot) (cc : CoprChroot) (c m : ℕ)
    → is_row c m cc ≡ true
    → is_on (row (put_chroot (enable cc) (cs ++ cc ∷ [])) c m) ≡ true
enabled_new_row cs cc c m key =
    enabled_row (cs ++ cc ∷ []) cc c m key (λ e. ground (arith, row-append cs cc c m))

other_row :
    (cs : List CoprChroot) (cc : CoprChroot) (c m : ℕ)
    → is_row c m cc ≡ false
    → row (put_chroot (enable cc) cs) c m ≡ row cs c m
unfolding is_row
other_row cs cc c m key = row-put_chroot_other cs (enable cc) c m key

other_new_row :
    (cs : List CoprChroot) (cc : CoprChroot) (c m : ℕ)
    → is_row c m cc ≡ false
    → row (put_chroot (enable cc) (cs ++ cc ∷ [])) c m ≡ row cs c m
other_new_row cs cc c m key =
    other_row (cs ++ cc ∷ []) cc c m key ∙ ground (arith, row-append cs cc c m)

module _ (table : List Permission) (actor : Actor) (copr : Copr) (current : List CoprChroot) where
  -- Each row of the project is enabled already or is as it was.
  abbrev Inv : Session → Type 0
  Inv s =
      (id : ℕ)
      → (is_on (row s.copr_chroots copr.id id) ≡ true)
        ⊎ (row s.copr_chroots copr.id id ≡ row current copr.id id)

  abbrev EnablesOne : MockChroot → Session → Session → Type 0
  EnablesOne m s t =
      (is_on (row t.copr_chroots copr.id m.id) ≡ true)
      × ((c id : ℕ)
          → (copr.id == c && m.id == id) ≡ false
          → row t.copr_chroots c id ≡ row s.copr_chroots c id)

  abbrev Makes : MockChroot → Session → CoprChroot × Session → Type 0
  Makes m s r =
      (r.1.copr_chroots ≡ s.copr_chroots ++ r.0 ∷ [])
      × (r.0.copr.id ≡ copr.id)
      × (r.0.mock_chroot.id ≡ m.id)

  create_chroot-Makes :
      (m : MockChroot) (s : Session) (r : CoprChroot × Session)
      → create_chroot table actor copr m s ≡ some r
      → Makes m s r
  unfolding create_chroot update_columns
  create_chroot-Makes m s r ran =
      if_cases (λ (o : Option (CoprChroot × Session)). o ≡ some r → Makes m s r)
        (not (may_edit table actor copr)) (λ _ e. ground arith)
        (λ _ e. subst (Makes m s) (some_path e) (refl, refl, refl)) ran

  enable_one-EnablesOne :
      (m : MockChroot) (o : Option CoprChroot) (run : List Text) (s : Session)
      (r : List Text × Session)
      → row current copr.id m.id ≡ o
      → Inv s
      → enable_one table actor copr m o run s ≡ some r
      → EnablesOne m s r.1
  unfolding enable_one is_row
  enable_one-EnablesOne m none run s r here inv ran =
      let ((cc, u), made, rest) = >>=-eq-some (create_chroot table actor copr m s) _ ran in
      let (rows, same_copr, same_mock) = create_chroot-Makes m s (cc, u) made in
      subst (λ (p : List Text × Session). EnablesOne m s p.1) (some_path rest)
        (
          simp (rows) (
              enabled_new_row s.copr_chroots cc copr.id m.id (
                simp (same_copr, same_mock)
                  (ground (arith, ==_iff copr.id copr.id, ==_iff m.id m.id)))),
          λ c id other.
              simp rows (other_new_row s.copr_chroots cc c id (simp (same_copr, same_mock) other)),
        )
  enable_one-EnablesOne m (some cc) run s r here inv ran =
      if_cases (λ (o : Option (List Text × Session)). o ≡ some r → EnablesOne m s r.1)
        (not cc.deleted)
        (λ fresh e.
          subst (λ (p : List Text × Session). EnablesOne m s p.1) (some_path e)
            (ground (arith, inv m.id, here, fresh), λ c id other. refl))
        (λ gone e.
          subst (λ (p : List Text × Session). EnablesOne m s p.1) (some_path e)
            (
              enabled_row s.copr_chroots cc copr.id m.id (row-is_row current cc copr.id m.id here)
                  (λ e. ground (arith, inv m.id, here)),
              λ c id other. other_row s.copr_chroots cc c id (
                  is_row_other copr.id m.id c id cc (row-is_row current cc copr.id m.id here)
                    other),
            ))
        ran

  -- The whole loop: the given mock chroots are enabled in the project, and no other row is touched.
  unfoldable pub Enables : List MockChroot → Session → Session → Type 0
  Enables new s t =
      ((id : ℕ) → has_mock new id ≡ true → is_on (row t.copr_chroots copr.id id) ≡ true)
      × ((c id : ℕ)
          → (copr.id == c && has_mock new id) ≡ false
          → row t.copr_chroots c id ≡ row s.copr_chroots c id)

  EnablesOne-Inv : (m : MockChroot) (s t : Session) → Inv s → EnablesOne m s t → Inv t
  EnablesOne-Inv m s t inv one id = elim (Bool-cases (m.id == id)) [
    | inl same ↦ inl (rw (sym ((==_iff m.id id).0 same)) one.0)
    | inr other ↦ rw (one.1 copr.id id (ground (arith, other, ==_iff copr.id copr.id))) (inv id)
  ]

  pub enable_all-Enables :
      (new : List MockChroot) (run : List Text) (s : Session) (r : List Text × Session)
      → Inv s
      → enable_all table actor copr current new run s ≡ some r
      → Enables new s r.1
  unfolding enable_all Enables has_mock
  enable_all-Enables [] run s r inv ran =
      subst (λ (p : List Text × Session). Enables [] s p.1) (some_path ran)
        ((λ id h. ground arith), λ c id _. refl)
  enable_all-Enables (m ∷ ms) run s r inv ran =
      let ((run', t), first, rest) =
        >>=-eq-some (enable_one table actor copr m (row current copr.id m.id) run s) _ ran in
      let one = enable_one-EnablesOne m (row current copr.id m.id) run s (run', t) refl inv first in
      let (on, same) = enable_all-Enables ms run' t r (EnablesOne-Inv m s t inv one) rest in
      (
        λ id h. elim (Bool-cases (has_mock ms id)) [
          | inl later ↦ on id later
          | inr now ↦
              rw (same copr.id id (ground (arith, now)))
                (rw (sym ((==_iff m.id id).0 (ground (arith, h, now)))) one.0)
        ],
        λ c id other. same c id (ground (arith, other)) ∙ one.1 c id (ground (arith, other)),
      )
