-- ===== src/Frontend/Batch/Ordered.antt =====
-- What `setup_batch` of frontend/coprs_frontend/coprs/logic/builds_logic.py keeps and gives.
use mathlib.Core.Path.{subst}
use copr.Base.{
  ap, ◌∙◌, ℕ, ◌<◌, ◌≡◌, ◌⊎◌, refl, sym, Option, none, some, List, Bool, true, false, arith, ◌&&◌,
  ◌==◌, ==_iff, if_cases, Bool-cases, inl, inr,
}
use copr.Base.Equality.{nat_eq}
use copr.Base.Maybe.{>>=-eq-some, some_path}
use copr.Frontend.User.{Permission, User}
use copr.Frontend.Build.{Build}
use copr.Frontend.Batch.{Batch, all_builds_finished}
use copr.Frontend.Batch.Chain.{IsOrdered, IsRight, is_done, finished_slow-IsRight}
use copr.Frontend.Batch.Setup.{
  Session, BatchingError, batching_user_error, joining_error, new_batch_error, set, add_batch,
  put_in_new, existing_batch, batch_or_new, unless_error, get_batch_or_create, given, or_zero,
  blocked_by_new, as_some, setup_batch,
}

-- Rows are found by their ids, which are positive and below the next one, and a batch is blocked by an
-- earlier one.
pub record IsWellFormed (s : Session) : Type 0 where
  pub ordered : IsOrdered s.db
  pub row : (i : ℕ) (b : Batch) → s.db.batch i ≡ some b → (b.id ≡ i) × (0 < i) × (i < s.next_id)
  pub positive : 0 < s.next_id

-- The batch that is to block is there.
abbrev Exists : Session → Option ℕ → Type 0
Exists s o = (i : ℕ) → o ≡ some i → (parent : Batch) × (s.db.batch i ≡ some parent)

set_other : {A : Type 0} (f : ℕ → A) (i j : ℕ) (a : A) → j < i → set f i a j ≡ f j
set_other f i j a h = ground (arith, h)

-- A row of the new table is the new one or an old one.
new_row :
    (o : Option ℕ) (s : Session) (i : ℕ) (b : Batch)
    → (add_batch o s).db.batch i ≡ some b
    → ((i ≡ s.next_id) × (b ≡ record { id = s.next_id; blocked_by_id = o }))
      ⊎ (s.db.batch i ≡ some b)
new_row o s i b h = elim (Bool-cases (s.next_id == i)) [
  | inl same ↦ inl (sym ((==_iff s.next_id i).0 same), some_path (sym (ground (arith, h, same))))
  | inr other ↦ inr (ground (arith, h, other))
]

add_batch-IsWellFormed :
    (o : Option ℕ) (s : Session) → Exists s o → IsWellFormed s → IsWellFormed (add_batch o s)
add_batch-IsWellFormed o s exists w = record {
  ordered = λ b i here blocked. elim (new_row o s b.id b here) [
    | inl (same, new) ↦
        let (parent, found) = exists i (sym (ap (λ (x : Batch). x.blocked_by_id) new) ∙ blocked) in
        let (e, pos, small) = w.row i parent found in
        (
          parent,
          set_other s.db.batch s.next_id i _ small ∙ found,
          pos,
          omega (arith, same, small),
          e,
        )
    | inr old ↦
        let (parent, found, pos, less, e) = w.ordered b i old blocked in
        let (_, _, small) = w.row i parent found in
        (parent, set_other s.db.batch s.next_id i _ small ∙ found, pos, less, e)
  ];
  row = λ i b here. elim (new_row o s i b here) [
    | inl (same, new) ↦ (
      ap (λ (x : Batch). x.id) new ∙ sym same,
      omega (arith, same, w.positive),
      omega (arith, same),
    )
    | inr old ↦ let (e, pos, small) = w.row i b old in (e, pos, omega (arith, small))
  ];
  positive = omega (arith, w.positive);
}

put_in_new-IsWellFormed : (b : Build) (s : Session) → IsWellFormed s → IsWellFormed (put_in_new b s)
put_in_new-IsWellFormed b s w =
    let v = add_batch-IsWellFormed none s (λ i e. ground (arith, e)) w in
    record { ordered = v.ordered; row = v.row; positive = v.positive }

-- The batch that a call gives is in the table, which is well formed.
abbrev IsGiven : ℕ × Session → Type 0
IsGiven r = IsWellFormed r.1 × ((b : Batch) × (r.1.db.batch r.0 ≡ some b))

unless_error-some :
    (o : Option BatchingError) (r t : ℕ × Session) → unless_error o r ≡ some t → r ≡ t
unless_error-some none r t h = some_path h
unless_error-some (some error) r t h = ground (arith, h)

batch_or_new-IsGiven :
    (o : Option Batch) (b : Build) (s : Session)
    → existing_batch s b.id ≡ o
    → IsWellFormed s
    → IsGiven (batch_or_new o b s)
batch_or_new-IsGiven none b s here w = (
  put_in_new-IsWellFormed b s w,
  (record { id = s.next_id; blocked_by_id = none }, ground (arith, ==_iff s.next_id s.next_id)),
)
batch_or_new-IsGiven (some batch) b s here w =
    let (i, of, found) = >>=-eq-some (s.batch_of b.id) s.db.batch here in
    (w, (batch, ap s.db.batch (w.row i batch found).0 ∙ found))

get_batch_or_create-IsGiven :
    (cache : List ℕ) (table : List Permission) (user : User) (build_id : ℕ) (modify : Bool)
    (s : Session) (r : ℕ × Session)
    → get_batch_or_create cache table user build_id modify s ≡ some r
    → IsWellFormed s
    → IsGiven r
unfolding get_batch_or_create
get_batch_or_create-IsGiven cache table user build_id modify s r ran w =
    let (build, found, rest) = >>=-eq-some (s.build build_id) _ ran in
    let batch = existing_batch s build.id in
    subst IsGiven
      (unless_error-some (batching_user_error s.db cache table user build batch modify)
        (batch_or_new batch build s) r rest)
      (batch_or_new-IsGiven batch build s refl w)

-- However `setup_batch` is called, a table in which rows are found by their ids and a batch is blocked
-- only by an earlier one stays so.
pub setup_batch-IsWellFormed :
    (cache : List ℕ) (table : List Permission) (user : User) (after_id with_id : Option ℕ)
    (always : Bool) (s : Session) (r : Option ℕ × Session)
    → IsWellFormed s
    → setup_batch cache table user after_id with_id always s ≡ some r
    → IsWellFormed r.1
unfolding setup_batch
setup_batch-IsWellFormed cache table user after_id with_id always s r w =
    let P = λ (o : Option (Option ℕ × Session)). o ≡ some r → IsWellFormed r.1 in
    let by_path = λ (x : Option ℕ × Session) (v : IsWellFormed x.1) (e : some x ≡ some r).
      subst (λ (y : Option ℕ × Session). IsWellFormed y.1) (some_path e) v in
    if_cases P (given with_id && given after_id) (λ _ e. ground (arith, e))
      (λ _.
        if_cases P (given with_id)
          (λ _ e.
            let (x, found, rest) =
              >>=-eq-some (get_batch_or_create cache table user (or_zero with_id) true s)
                (λ y. some (as_some y)) e in
            by_path (as_some x)
              (get_batch_or_create-IsGiven cache table user (or_zero with_id) true s x found w).0
              rest)
          (λ _.
            if_cases P (given after_id)
              (λ _ e.
                let (x, found, rest) =
                  >>=-eq-some (get_batch_or_create cache table user (or_zero after_id) false s)
                    (λ y. some (blocked_by_new y)) e in
                let (v, (b, there)) =
                  get_batch_or_create-IsGiven cache table user (or_zero after_id) false s x found
                    w in
                by_path (blocked_by_new x)
                  (add_batch-IsWellFormed (some x.0) x.1
                    (λ i h. (b, ap x.1.db.batch (sym (some_path h)) ∙ there)) v)
                  rest)
              (λ _.
                if_cases P always
                  (λ _ e.
                    by_path (some s.next_id, add_batch none s)
                      (add_batch-IsWellFormed none s (λ i h. ground (arith, h)) w) e)
                  (λ _ e. by_path (none, s) w e))))

module _ (cache : List ℕ) (table : List Permission) (user : User) (s : Session)
    (right : IsRight s.db cache) where
  abbrev IsOpen : ℕ × Session → Type 0
  IsOpen r = is_done (r.1.db.builds r.0) ≡ false

  batch_or_new-IsOpen :
      (o : Option Batch) (build : Build)
      → batching_user_error s.db cache table user build o true ≡ none
      → IsOpen (batch_or_new o build s)
  unfolding batching_user_error joining_error new_batch_error is_done all_builds_finished
  batch_or_new-IsOpen none build fine = ground (arith, fine, ==_iff s.next_id s.next_id)
  batch_or_new-IsOpen (some batch) build fine =
      ground (arith, fine, (finished_slow-IsRight s.db cache batch right).0)

  fine_if_some :
      (o : Option BatchingError) (r t : ℕ × Session) → unless_error o r ≡ some t → o ≡ none
  fine_if_some none r t h = refl
  fine_if_some (some error) r t h = ground (arith, h)

  -- The batch that a build is to be built in, with another build's, has a build that is not finished,
  -- or none; where the cache knows only of finished batches.
  pub get_batch_or_create-IsOpen :
      (build_id : ℕ) (r : ℕ × Session)
      → get_batch_or_create cache table user build_id true s ≡ some r
      → is_done (r.1.db.builds r.0) ≡ false
  unfolding get_batch_or_create
  get_batch_or_create-IsOpen build_id r ran =
      let (build, found, rest) = >>=-eq-some (s.build build_id) _ ran in
      let batch = existing_batch s build.id in
      let error = batching_user_error s.db cache table user build batch true in
      subst IsOpen (unless_error-some error (batch_or_new batch build s) r rest)
        (batch_or_new-IsOpen batch build (fine_if_some error (batch_or_new batch build s) r rest))
