-- ===== src/Workers/JobQueue/Invariant.antt =====
-- What holds of a JobQueue between two calls, and the facts on its lists that keep it so.
use copr.Base.{
  ℕ, suc, ◌<◌, ◌≡◌, ◌≢◌, ◌⊎◌, refl, List, [], ◌∷◌, true, false, arith, All, All-map, Bool-cases,
  Option-cases, inl, inr, ◌==◌,
}
use copr.Base.Int.{ℤ}
use copr.Base.Equality.{Text, text_eq}
use copr.Base.Dict.{get}
use copr.Workers.JobQueue.{empty, Entry, JobQueue, precedes, heappush, mark_removed, pop_entry}
use copr.Workers.JobQueue.Live.{live, SortedEntries, find, Distinct}

-- The heap order holds, no count was used up by a later one, and `entry_finder` is the index of
-- the live entries.
pub record IsValid {A : Type 0} (repr : A → Text) (q : JobQueue A) : Type 0 where
  pub sorted : SortedEntries q.prio_queue
  pub fresh : All (λ e. e.count < q.counter) q.prio_queue
  pub distinct : Distinct repr (live q.prio_queue)
  pub index : (id : Text) → get q.entry_finder id ≡ find repr id (live q.prio_queue)

pub precedes_trans :
    (p q r : ℤ) (a b c : ℕ)
    → precedes p a q b ≡ true
    → precedes q b r c ≡ true
    → precedes p a r c ≡ true
precedes_trans p q r a b c h k = ground arith

pub precedes_total :
    (p q : ℤ) (a b : ℕ) → a ≢ b → (precedes p a q b ≡ true) ⊎ (precedes q b p a ≡ true)
precedes_total p q a b h = ground arith

module _ {A : Type 0} where
  abbrev pub Below : ℤ → ℕ → List (Entry A) → Type 0
  Below p c es = All (λ y. precedes p c y.priority y.count ≡ true) es

  pub Below-trans :
      (p q : ℤ) (a b : ℕ) (es : List (Entry A))
      → precedes p a q b ≡ true
      → Below q b es
      → Below p a es
  Below-trans p q a b es h = All-map es (λ y k. precedes_trans p q y.priority a b y.count h k)

  Below-heappush :
      (p : ℤ) (c : ℕ) (e : Entry A) (es : List (Entry A))
      → precedes p c e.priority e.count ≡ true
      → Below p c es
      → Below p c (heappush e es)
  unfolding heappush
  Below-heappush p c e [] h k = (h, tt)
  Below-heappush p c e (x ∷ xs) h k = ground (arith, Below-heappush p c e xs h k.1)

  precedes_flip :
      (e x : Entry A)
      → x.count < e.count
      → precedes e.priority e.count x.priority x.count ≡ false
      → precedes x.priority x.count e.priority e.count ≡ true
  precedes_flip e x h k = ground arith

  pub heappush-Sorted :
      (e : Entry A) (es : List (Entry A))
      → All (λ y. y.count < e.count) es
      → SortedEntries es
      → SortedEntries (heappush e es)
  unfolding heappush
  heappush-Sorted e [] f s = (tt, tt)
  heappush-Sorted e (x ∷ xs) f s =
      elim (Bool-cases (precedes e.priority e.count x.priority x.count)) [
        | inl first ↦
            rw first ((first, Below-trans e.priority x.priority e.count x.count xs first s.0), s)
        | inr later ↦ rw later (
          Below-heappush x.priority x.count e xs (precedes_flip e x f.0 later) s.0,
          heappush-Sorted e xs f.1 s.1,
        )
      ]

  pub All-heappush {κ} :
      (P : Entry A → Type κ) (e : Entry A) (es : List (Entry A))
      → P e
      → All P es
      → All P (heappush e es)
  unfolding heappush
  All-heappush P e [] h k = (h, tt)
  All-heappush P e (x ∷ xs) h k =
      elim (Bool-cases (precedes e.priority e.count x.priority x.count)) [
        | inl first ↦ rw first (h, k)
        | inr later ↦ rw later (k.0, All-heappush P e xs h k.1)
      ]

  -- A property of an entry that does not look at the task outlives the placeholder.
  pub All-mark_removed {κ} :
      (P : ℤ → ℕ → Type κ) (c : ℕ) (es : List (Entry A))
      → All (λ e. P e.priority e.count) es
      → All (λ e. P e.priority e.count) (mark_removed c es)
  unfolding mark_removed
  All-mark_removed P c [] h = tt
  All-mark_removed P c (x ∷ xs) h = elim (Bool-cases (x.count == c)) [
    | inl e ↦ rw e (h.0, All-mark_removed P c xs h.1)
    | inr e ↦ rw e (h.0, All-mark_removed P c xs h.1)
  ]

  pub mark_removed-Sorted :
      (c : ℕ) (es : List (Entry A)) → SortedEntries es → SortedEntries (mark_removed c es)
  unfolding mark_removed
  mark_removed-Sorted c [] s = tt
  mark_removed-Sorted c (x ∷ xs) s =
      let rest = All-mark_removed (λ p d. precedes x.priority x.count p d ≡ true) c xs s.0 in
      elim (Bool-cases (x.count == c)) [
        | inl e ↦ rw e (rest, mark_removed-Sorted c xs s.1)
        | inr e ↦ rw e (rest, mark_removed-Sorted c xs s.1)
      ]

  pub All-fresh_suc :
      (n : ℕ) (es : List (Entry A)) → All (λ e. e.count < n) es → All (λ e. e.count < suc n) es
  All-fresh_suc n es h = All-map es (λ e k. omega arith) h

  -- What the entries are after the placeholders in front and one entry are popped.
  pub pop_entry-Sorted : (es : List (Entry A)) → SortedEntries es → SortedEntries (pop_entry es).1
  unfolding pop_entry
  pop_entry-Sorted [] s = tt
  pop_entry-Sorted (x ∷ xs) s = elim (Option-cases x.task) [
    | inl e ↦ rw e (pop_entry-Sorted xs s.1)
    | inr (t, e) ↦ rw e s.1
  ]

  pub All-pop_entry {κ} :
      (P : Entry A → Type κ) (es : List (Entry A)) → All P es → All P (pop_entry es).1
  unfolding pop_entry
  All-pop_entry P [] h = tt
  All-pop_entry P (x ∷ xs) h = elim (Option-cases x.task) [
    | inl e ↦ rw e (All-pop_entry P xs h.1)
    | inr (t, e) ↦ rw e h.1
  ]

-- A new queue is valid.
pub empty-IsValid : {A : Type 0} (repr : A → Text) → IsValid repr empty
unfolding empty get find
empty-IsValid repr = record { sorted = tt; fresh = tt; distinct = tt; index = λ id. refl }
