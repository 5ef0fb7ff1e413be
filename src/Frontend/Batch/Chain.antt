-- ===== src/Frontend/Batch/Chain.antt =====
-- When `Batch.blocked` of frontend/coprs_frontend/coprs/models.py holds, in terms of `batch_chain`.
use copr.Base.{
  ap, ◌∙◌, ℕ, zero, suc, ◌<◌, ◌≡◌, refl, sym, some, List, [], ◌∷◌, Bool, true, false, not, arith,
  ◌||◌, ◌==◌, if_cases, Bool-cases, Option-cases, inl, inr,
}
use copr.Base.Equality.{nat_eq, beq_iff}
use copr.Base.Dict.{contains, add, contains-add}
use copr.Frontend.Build.{Build}
use copr.Frontend.Batch.{
  Batch, Database, all_builds_finished, finished_by_builds, finished_slow, blocked_by,
  unless_finished, by_parent, blocked, chain_from,
}

-- Builds that make a batch finished: there are some, and each is.
unfoldable pub is_done : List Build → Bool
is_done [] = false
is_done (build ∷ builds) = all_builds_finished (build ∷ builds)

-- Some batch of the list is not finished.
unfoldable pub any_unfinished : Database → List Batch → Bool
unfolding is_done
any_unfinished db [] = false
any_unfinished db (b ∷ bs) = any_unfinished db bs || not (is_done (db.builds b.id))

-- The cache is right: a batch whose key it has is finished.
abbrev pub IsRight : Database → List ℕ → Type 0
IsRight db cache = (i : ℕ) → contains cache i ≡ true → is_done (db.builds i) ≡ true

-- A batch is only ever blocked by one that was there before it, which has the smaller id.
abbrev pub IsOrdered : Database → Type 0
IsOrdered db =
    (b : Batch) (i : ℕ)
    → db.batch b.id ≡ some b
    → b.blocked_by_id ≡ some i
    → (parent : Batch) × (db.batch i ≡ some parent) × (0 < i) × (i < b.id) × (parent.id ≡ i)

-- What is asked of an answer and the cache that it leaves.
abbrev pub IsAnswer : Database → Bool → Bool × List ℕ → Type 0
IsAnswer db expected r = (r.0 ≡ expected) × IsRight db r.1

add-IsRight :
    (db : Database) (cache : List ℕ) (self : Batch)
    → IsRight db cache
    → is_done (db.builds self.id) ≡ true
    → IsRight db (add cache self.id)
add-IsRight db cache self right done i there = elim (Bool-cases (contains cache i)) [
  | inl old ↦ right i old
  | inr new ↦
      rw (sym ((beq_iff self.id i).0 (ground (arith, contains-add cache self.id i, new, there))))
        done
]

finished_by_builds-IsRight :
    (db : Database) (cache : List ℕ) (self : Batch) (builds : List Build)
    → IsRight db cache
    → db.builds self.id ≡ builds
    → IsAnswer db (is_done builds) (finished_by_builds builds cache self)
unfolding finished_by_builds is_done
finished_by_builds-IsRight db cache self [] right found = (refl, right)
finished_by_builds-IsRight db cache self (b ∷ bs) right found =
    if_cases (IsAnswer db (all_builds_finished (b ∷ bs))) (all_builds_finished (b ∷ bs))
      (λ all. (sym all, add-IsRight db cache self right (rw found all)))
      (λ some_left. (sym some_left, right))

-- With a right cache, `finished_slow` says whether the batch has builds and all are finished, and
-- leaves the cache right.
pub finished_slow-IsRight :
    (db : Database) (cache : List ℕ) (self : Batch)
    → IsRight db cache
    → IsAnswer db (is_done (db.builds self.id)) (finished_slow db cache self)
unfolding finished_slow
finished_slow-IsRight db cache self right =
    if_cases (IsAnswer db (is_done (db.builds self.id))) (contains cache self.id)
      (λ hit. (sym (right self.id hit), right))
      (λ miss. finished_by_builds-IsRight db cache self (db.builds self.id) right refl)

-- `blocked` and `batch_chain` both end, and `blocked` says whether a batch of the chain above is not
-- finished.
abbrev pub Answers : ℕ → Database → List ℕ → Batch → Type 0
Answers fuel db cache self =
    (above : List Batch) × (answer : Bool × List ℕ) × (chain_from fuel db (some self)
      ≡ some (self ∷ above))
    × (blocked fuel db cache self ≡ some answer)
    × IsAnswer db (any_unfinished db above) answer

unless_finished-IsAnswer :
    (db : Database) (parent : Batch) (above : List Batch) (answer : Bool × List ℕ)
    → IsAnswer db (any_unfinished db above) answer
    → (next : Bool × List ℕ) × (unless_finished db parent answer ≡ some next)
      × IsAnswer db (any_unfinished db (parent ∷ above)) next
unfolding unless_finished any_unfinished
unless_finished-IsAnswer db parent above (true, cache) (h, right) =
    ((true, cache), refl, (ground (arith, h), right))
unless_finished-IsAnswer db parent above (false, cache) (h, right) =
    let (same, right') = finished_slow-IsRight db cache parent right in
    let r = finished_slow db cache parent in
    ((not r.0, r.1), refl, (ground (arith, h, same), right'))

-- For a batch of a database where each is only blocked by an earlier one, and with a right cache: fuel
-- above the batch's id is enough for `blocked` and for `batch_chain`, a batch is blocked exactly when some
-- batch above it in its chain is not finished, and the cache stays right.
pub blocked-Answers :
    (fuel : ℕ) (db : Database) (cache : List ℕ) (self : Batch)
    → IsOrdered db
    → IsRight db cache
    → db.batch self.id ≡ some self
    → self.id < fuel
    → Answers fuel db cache self
unfolding blocked chain_from by_parent blocked_by any_unfinished
blocked-Answers zero db cache self ordered right row enough = ground (arith, enough)
blocked-Answers (suc fuel) db cache self ordered right row enough =
    elim (Option-cases self.blocked_by_id) [
      | inl free ↦ ([], (false, cache), simp free, simp free, (refl, right))
      | inr (i, held) ↦
          let (parent, found, real, older, same) = ordered self i row held in
          let (above, answer, chain, ran, is_answer) =
            blocked-Answers fuel db cache parent ordered right (ap db.batch same ∙ found)
              (omega (arith, older, same, enough)) in
          let (next, step, is_next) = unless_finished-IsAnswer db parent above answer is_answer in
          let nonzero : (i == 0) ≡ false = ground (arith, real) in
          (
            parent ∷ above,
            next,
            simp (held, found, chain),
            simp (held, nonzero, found, ran) step,
            is_next,
          )
    ]
