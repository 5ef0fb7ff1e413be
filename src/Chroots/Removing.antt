-- ===== src/Chroots/Removing.antt =====
-- What the second loop of `update_from_names` of frontend/coprs_frontend/coprs/logic/coprs_logic.py does
-- to the table of chroots, and when it finds unfinished builds.
use copr.Base.{
  ℕ, suc, ◌≤◌, ◌≡◌, ◌≢◌, ◌⊎◌, inl, inr, refl, sym, ap, ◌∙◌, Option, none, some, List, [], ◌∷◌, Bool,
  true, false, not, ◌&&◌, ◌||◌, ◌==◌, arith, ==_iff, if_cases, if_ind, Bool-cases, length,
  length-append,
}
use mathlib.Core.Option
use mathlib.Core.Path.{subst}
use copr.Base.Equality.{nat_eq}
use copr.Base.Dict.{add, contains}
use copr.Base.Maybe.{>>=-eq-some, some_path}
use copr.Frontend.User.{Copr, Permission}
use copr.Chroots.{MockChroot, CoprChroot}
use copr.Chroots.Edit.{
  BuildRow, Session, Actor, may_edit, is_row, row, put_chroot, unclick, remove_copr_chroot,
}
use copr.Chroots.Names.{
  has_mock, unfinished_buildchroot, limit, max_items, collect, Removal, remove_one, remove_all,
}
use copr.Chroots.Rows.{row-is_row, row-put_chroot_same, row-put_chroot_other, is_row_other}

nonempty-add : (s : List ℕ) (a : ℕ) → 1 ≤ length (add s a)
unfolding add contains
nonempty-add [] a = omega arith
nonempty-add (x ∷ s) a = ground (arith, length-append (x ∷ s) (a ∷ []))

-- `collect` never forgets a build, and finds one where there is one.
collect-nonempty :
    (bs : List BuildRow) (running : List ℕ) (sh : Bool)
    → 1 ≤ length running
    → 1 ≤ length (collect bs running sh).0
unfolding collect
collect-nonempty [] running sh some_there = some_there
collect-nonempty (b ∷ bs) running sh some_there =
    ground (arith, collect-nonempty bs (add running b.build_id) sh, nonempty-add running b.build_id)

collect-found :
    (b : BuildRow) (bs : List BuildRow) (running : List ℕ) (sh : Bool)
    → 1 ≤ length (collect (b ∷ bs) running sh).0
unfolding collect
collect-found b bs running sh =
    ground (arith, collect-nonempty bs (add running b.build_id) sh, nonempty-add running b.build_id)

collect-none :
    (bs : List BuildRow) (running : List ℕ) (sh : Bool)
    → (collect (limit (suc max_items) bs) running sh).0 ≡ []
    → (bs ≡ []) × (running ≡ [])
unfolding limit collect
collect-none [] running sh h = (refl, h)
collect-none (b ∷ bs) running sh h =
    ground (arith, collect-found b (limit max_items bs) running sh, ap length h)

unclick_key : (now : ℕ) (cc : CoprChroot) (c m : ℕ) → is_row c m (unclick now cc) ≡ is_row c m cc
unfolding is_row
unclick_key now cc c m =
    if_ind (λ (r : CoprChroot). is_row c m r ≡ is_row c m cc) cc.deleted refl refl

module _ (table : List Permission) (now : ℕ) (g_user : Actor) (copr : Copr)
    (current : List CoprChroot) where
  abbrev pub gone : ℕ → Option CoprChroot
  gone id = Option.map (unclick now) (row current copr.id id)

  -- Each row is as it was or is disabled already.
  abbrev Inv : List MockChroot → Session → Type 0
  Inv mcs s =
      (id : ℕ)
      → has_mock mcs id ≡ true
      → (row s.copr_chroots copr.id id ≡ row current copr.id id)
        ⊎ (row s.copr_chroots copr.id id ≡ gone id)

  abbrev HasNone : ℕ → Session → Type 0
  HasNone id s =
      (cc : CoprChroot)
      → row current copr.id id ≡ some cc
      → unfinished_buildchroot cc s.build_chroots ≡ []

  -- The rows of the mock chroots for which `hit` holds are disabled, and no others; if no running
  -- build was collected, none of them has one.
  pub record Removes (hit : ℕ → Bool) (r t : Removal) : Type 0 where
    pub each : (id : ℕ) → hit id ≡ true → row t.session.copr_chroots copr.id id ≡ gone id
    pub same :
        (c id : ℕ)
        → (copr.id == c && hit id) ≡ false
        → row t.session.copr_chroots c id ≡ row r.session.copr_chroots c id
    pub builds : t.session.build_chroots ≡ r.session.build_chroots
    pub running : t.running_builds ≡ [] → r.running_builds ≡ []
    pub none_running : t.running_builds ≡ [] → (id : ℕ) → hit id ≡ true → HasNone id r.session

  trans-Removes :
      {hit hit' : ℕ → Bool} {r u t : Removal}
      → Removes hit r u
      → Removes hit' u t
      → Removes (λ id. hit id || hit' id) r t
  trans-Removes {hit} {hit'} {r} one two = record {
    each = λ id h. elim (Bool-cases (hit' id)) [
      | inl later ↦ two.each id later
      | inr now ↦ two.same copr.id id (ground (arith, now)) ∙ one.each id (ground (arith, h, now))
    ];
    same =
        λ c id other. two.same c id (ground (arith, other)) ∙ one.same c id (ground (arith, other));
    builds = two.builds ∙ one.builds;
    running = λ e. one.running (two.running e);
    none_running = λ e id h cc found. elim (Bool-cases (hit id)) [
      | inl now ↦ one.none_running (two.running e) id now cc found
      | inr later ↦
          subst (λ bs. unfinished_buildchroot cc bs ≡ []) one.builds
            (two.none_running e id (ground (arith, h, later)) cc found)
    ];
  }

  step-Inv :
      {r u : Removal} (mcs : List MockChroot) (mc : MockChroot)
      → Removes (λ id. mc.id == id) r u
      → Inv (mc ∷ mcs) r.session
      → Inv mcs u.session
  unfolding has_mock
  step-Inv mcs mc one inv id h = elim (Bool-cases (mc.id == id)) [
    | inl same ↦ inr (one.each id same)
    | inr other ↦ rw (one.same copr.id id (ground (arith, other))) (inv id (ground (arith, h)))
  ]

  -- What `remove_copr_chroot` writes.
  unfoldable unclicked : CoprChroot → Session → Session
  unclicked cc s = record s { copr_chroots = put_chroot (unclick now cc) s.copr_chroots }

  remove_copr_chroot_lem :
      (cc : CoprChroot) (s t : Session)
      → remove_copr_chroot table now g_user cc s ≡ some t
      → unclicked cc s ≡ t
  unfolding remove_copr_chroot unclicked
  remove_copr_chroot_lem cc s t ran =
      if_cases (λ (o : Option Session). o ≡ some t → unclicked cc s ≡ t)
        (not (may_edit table g_user cc.copr)) (λ _ e. ground arith) (λ _ e. some_path e) ran

  unfoldable after : CoprChroot → Removal → Removal
  unfolding unclicked
  after cc r =
      let (running, shortened) =
        collect (limit (suc max_items) (unfinished_buildchroot cc r.session.build_chroots))
          r.running_builds r.shortened in
      record { running_builds = running; shortened = shortened; session = unclicked cc r.session }

  after-Removes :
      (m : ℕ) (cc : CoprChroot) (r : Removal)
      → row current copr.id m ≡ some cc
      → row r.session.copr_chroots copr.id m ≢ none
      → Removes (λ id. m == id) r (after cc r)
  unfolding after unclicked
  after-Removes m cc r here there = record {
    each = λ id h. rw (sym ((==_iff m id).0 h)) (
        row-put_chroot_same r.session.copr_chroots (unclick now cc) copr.id m key there
        ∙ simp (here) refl);
    same = λ c id other.
        row-put_chroot_other r.session.copr_chroots (unclick now cc) c id
          (is_row_other copr.id m c id (unclick now cc) key other);
    builds = refl;
    running = λ e.
        (collect-none (unfinished_buildchroot cc r.session.build_chroots) r.running_builds
          r.shortened e).1;
    none_running = λ e id h. rw (sym ((==_iff m id).0 h)) (λ d found.
        subst (λ x. unfinished_buildchroot x r.session.build_chroots ≡ [])
          (some_path (sym here ∙ found))
          (collect-none (unfinished_buildchroot cc r.session.build_chroots) r.running_builds
            r.shortened e).0);
  }
    where
      key : is_row copr.id m (unclick now cc) ≡ true
      key = unclick_key now cc copr.id m ∙ row-is_row current cc copr.id m here

  remove_one-Removes :
      (m : ℕ) (o : Option CoprChroot) (r t : Removal)
      → row current copr.id m ≡ o
      → ((row r.session.copr_chroots copr.id m ≡ row current copr.id m)
          ⊎ (row r.session.copr_chroots copr.id m ≡ gone m))
      → remove_one table now g_user copr current o r ≡ some t
      → Removes (λ id. m == id) r t
  unfolding remove_one after
  remove_one-Removes m none r t here inv ran =
      subst (Removes (λ id. m == id) r) (some_path ran) (record {
        each = λ id h. rw (sym ((==_iff m id).0 h)) (ground (arith, inv, here));
        same = λ c id other. refl;
        builds = refl;
        running = λ e. e;
        none_running =
            λ e id h. rw (sym ((==_iff m id).0 h)) (λ d found. ground (arith, here, found));
      })
  remove_one-Removes m (some cc) r t here inv ran =
      let (s, removed, rest) =
        >>=-eq-some (remove_copr_chroot table now g_user cc r.session) _ ran in
      subst (Removes (λ id. m == id) r)
        (ap (λ x. record (after cc r) { session = x })
            (remove_copr_chroot_lem cc r.session s removed)
          ∙ some_path rest)
        (after-Removes m cc r here (λ e. ground (arith, inv, here)))

  pub remove_all-Removes :
      (mcs : List MockChroot) (r t : Removal)
      → Inv mcs r.session
      → remove_all table now g_user copr current mcs r ≡ some t
      → Removes (has_mock mcs) r t
  unfolding remove_all has_mock
  remove_all-Removes [] r t inv ran = subst (Removes (λ _. false) r) (some_path ran) (record {
    each = λ id h. ground arith;
    same = λ c id other. refl;
    builds = refl;
    running = λ e. e;
    none_running = λ e id h. ground arith;
  })
  remove_all-Removes (mc ∷ mcs) r t inv ran =
      let (u, first, rest) =
        >>=-eq-some (remove_one table now g_user copr current (row current copr.id mc.id) r) _
          ran in
      let one =
        remove_one-Removes mc.id (row current copr.id mc.id) r u refl
          (inv mc.id (ground (arith, ==_iff mc.id mc.id))) first in
      trans-Removes one (remove_all-Removes mcs u t (step-Inv mcs mc one inv) rest)
