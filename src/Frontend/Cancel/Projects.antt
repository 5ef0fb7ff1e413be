-- ===== src/Frontend/Cancel/Projects.antt =====
-- Whether builds are of one project, as `send_delete_multiple_builds` of
-- frontend/coprs_frontend/coprs/logic/actions_logic.py tells by the params of its action.
use copr.Base.{
  ℕ, ◌≡◌, refl, sym, ◌&&◌, ==_iff, Option, none, some, Bool-cases, inl, inr, ap, ◌∙◌, List, [], ◌∷◌,
  Bool, true, arith, All, ◌↔◌,
}
use copr.Base.Equality.{Text, nat_eq, text_eq, bool_eq, beq, beq_iff}
use copr.Frontend.User.{Copr}
use copr.Frontend.Build.{Build}
use copr.Frontend.Cancel.{same_owner, same_params, inherits}
use copr.Base.Maybe.{some_path}

same_owner_lem :
    (g : Option Text) (u : ℕ) (h : Option Text) (v : ℕ) (k : Option Text) (w : ℕ)
    → same_owner g u h v ≡ true
    → same_owner h v k w ≡ same_owner g u k w
unfolding same_owner
same_owner_lem none u none v none w e = ground (arith, e, ==_iff u v, ==_iff u w, ==_iff v w)
same_owner_lem none u none v (some k) w e = refl
same_owner_lem none u (some h) v k w e = ground (arith, e)
same_owner_lem (some g) u none v k w e = ground (arith, e)
same_owner_lem (some g) u (some h) v none w e = refl
same_owner_lem (some g) u (some h) v (some k) w e =
    ap (λ (x : Text). beq x k) (sym ((beq_iff g h).0 e))

same_params_lem : (c d e : Copr) → same_params c d ≡ true → same_params d e ≡ same_params c e
unfolding same_params
same_params_lem c d e h =
    let owner =
      same_owner_lem c.group c.user_id d.group d.user_id e.group e.user_id (ground (arith, h)) in
    let names = (beq_iff c.name d.name).0 (ground (arith, h)) in
    let streams = (beq_iff c.appstream d.appstream).0 (ground (arith, h)) in
    rw (owner, sym names, sym streams) refl

-- The projects of all the builds have the owner, the name and the appstream of the one.
unfoldable all_of : Copr → List Build → Bool
unfolding same_params
all_of copr [] = true
all_of copr (b ∷ bs) = same_params copr b.copr && all_of copr bs

all_of_lem : (c d : Copr) (bs : List Build) → same_params c d ≡ true → all_of d bs ≡ all_of c bs
unfolding all_of
all_of_lem c d [] h = refl
all_of_lem c d (b ∷ bs) h = rw (same_params_lem c d b.copr h, all_of_lem c d bs h) refl

inherits-all_of : (c : Copr) (bs : List Build) → inherits c bs ≡ all_of c bs
unfolding inherits all_of
inherits-all_of c [] = refl
inherits-all_of c (b ∷ bs) = elim (Bool-cases (same_params c b.copr)) [
  | inl same ↦ simp same (inherits-all_of b.copr bs ∙ all_of_lem c b.copr bs same)
  | inr other ↦ simp other refl
]

-- The name of the owner, as what tells it apart: the group, or else the user.
abbrev pub owner_of : Option Text → ℕ → Option Text × Option ℕ
owner_of none user_id = (none, some user_id)
owner_of (some g) user_id = (some g, none)

-- The projects have one owner, one name and one setting of appstream.
abbrev pub IsLike : Copr → Copr → Type 0
IsLike c d =
    (owner_of c.group c.user_id ≡ owner_of d.group d.user_id)
    × (c.name ≡ d.name)
    × (c.appstream ≡ d.appstream)

-- All the builds are of one project.
abbrev pub OfOneProject : List Build → Type 0
OfOneProject [] = Unit
OfOneProject (b ∷ bs) = All (λ (c : Build). IsLike b.copr c.copr) bs

same_owner_iff :
    (g : Option Text) (u : ℕ) (h : Option Text) (v : ℕ)
    → (same_owner g u h v ≡ true) ↔ (owner_of g u ≡ owner_of h v)
unfolding same_owner
same_owner_iff none u none v = (
  (λ e. ap (λ (n : ℕ). (none, some n)) ((==_iff u v).0 e)),
  (λ e. (==_iff u v).1 (some_path (ap (λ (p : Option Text × Option ℕ). p.1) e))),
)
same_owner_iff none u (some h) v = ((λ e. ground (arith, e)), (λ e. absurd cc))
same_owner_iff (some g) u none v = ((λ e. ground (arith, e)), (λ e. absurd cc))
same_owner_iff (some g) u (some h) v = (
  (λ e. ap (λ (t : Text). (some t, none)) ((beq_iff g h).0 e)),
  (λ e. (beq_iff g h).1 (some_path (ap (λ (p : Option Text × Option ℕ). p.0) e))),
)

same_params_iff : (c d : Copr) → (same_params c d ≡ true) ↔ IsLike c d
unfolding same_params
same_params_iff c d =
    let owner = same_owner_iff c.group c.user_id d.group d.user_id in
    (
      (λ h. (
        owner.0 (ground (arith, h)),
        (beq_iff c.name d.name).0 (ground (arith, h)),
        (beq_iff c.appstream d.appstream).0 (ground (arith, h)),
      )),
      (λ h. ground (
        arith,
        owner.1 h.0,
        (beq_iff c.name d.name).1 h.1,
        (beq_iff c.appstream d.appstream).1 h.2,
      )),
    )

all_of_iff :
    (c : Copr) (bs : List Build) → (all_of c bs ≡ true) ↔ All (λ (d : Build). IsLike c d.copr) bs
unfolding all_of
all_of_iff c [] = ((λ h. tt), (λ h. refl))
all_of_iff c (b ∷ bs) = (
  (λ h.
      ((same_params_iff c b.copr).0 (ground (arith, h)), (all_of_iff c bs).0 (ground (arith, h)))),
  (λ h. ground (arith, (same_params_iff c b.copr).1 h.0, (all_of_iff c bs).1 h.1)),
)

-- The params of the first build are inherited by all exactly if they are of one project.
pub inherits-OfOneProject :
    (b : Build) (bs : List Build) → (inherits b.copr bs ≡ true) ↔ OfOneProject (b ∷ bs)
inherits-OfOneProject b bs = (
  (λ h. (all_of_iff b.copr bs).0 (sym (inherits-all_of b.copr bs) ∙ h)),
  (λ h. inherits-all_of b.copr bs ∙ (all_of_iff b.copr bs).1 h),
)
