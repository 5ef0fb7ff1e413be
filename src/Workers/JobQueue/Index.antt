-- ===== src/Workers/JobQueue/Index.antt =====
-- How the heap's lists and the abstract queue's lists correspond, and what an index by ids finds.
use copr.Base.{
  ℕ, ◌≡◌, ◌≢◌, refl, sym, none, some, List, [], ◌∷◌, true, arith, All, Bool-cases, Option-cases,
  inl, inr, if◌then◌else◌,
}
use copr.Base.Equality.{Text, text_eq, beq, beq_iff}
use copr.Workers.JobQueue.{Entry, precedes, heappush, mark_removed}
use copr.Workers.JobQueue.Live.{
  Item, live, insert, drop_count, SortedEntries, drop_id, find, Distinct,
}
use copr.Workers.JobQueue.Invariant.{Below-trans}

module _ {A : Type 0} where
  -- A push of a task is an insertion among the live entries.
  insert_first :
      (i : Item A) (es : List (Entry A))
      → All (λ y. precedes i.priority i.count y.priority y.count ≡ true) es
      → insert i (live es) ≡ i ∷ live es
  unfolding insert
  insert_first i [] h = refl
  insert_first i (x ∷ xs) h = elim (Option-cases x.task) [
    | inl e ↦ rw e (insert_first i xs h.1)
    | inr (t, e) ↦ rw (e, h.0)
  ]

  pub live-heappush :
      (i : Item A) (es : List (Entry A))
      → SortedEntries es
      → live (heappush (record { priority = i.priority; count = i.count; task = some i.task }) es)
        ≡ insert i (live es)
  unfolding heappush insert
  live-heappush i [] s = refl
  live-heappush i (x ∷ xs) s = elim (Bool-cases (precedes i.priority i.count x.priority x.count)) [
    | inl first ↦
        let below = Below-trans i.priority x.priority i.count x.count xs first s.0 in
        rw first (sym (insert_first i (x ∷ xs) (first, below)))
    | inr later ↦ ground (arith, live-heappush i xs s.1)
  ]

  pub live-mark_removed :
      (c : ℕ) (es : List (Entry A)) → live (mark_removed c es) ≡ drop_count c (live es)
  unfolding mark_removed drop_count
  live-mark_removed c [] = refl
  live-mark_removed c (x ∷ xs) = ground (arith, live-mark_removed c xs)

-- Facts about the specification: a list of items where no two share an id or a count.
module _ {A : Type 0} (repr : A → Text) where
  pub All-drop_id {κ} :
      (P : Item A → Type κ) (id : Text) (l : List (Item A)) → All P l → All P (drop_id repr id l)
  unfolding drop_id
  All-drop_id P id [] h = tt
  All-drop_id P id (x ∷ xs) h = elim (Bool-cases (beq (repr x.task) id)) [
    | inl e ↦ rw e (All-drop_id P id xs h.1)
    | inr e ↦ rw e (h.0, All-drop_id P id xs h.1)
  ]

  pub find-drop_id :
      (id : Text) (l : List (Item A)) (j : Text)
      → find repr j (drop_id repr id l) ≡ (if beq id j then none else find repr j l)
  unfolding find drop_id
  find-drop_id id [] j = ground arith
  find-drop_id id (x ∷ xs) j =
      ground (
        arith,
        find-drop_id id xs j,
        beq_iff (repr x.task) id,
        beq_iff (repr x.task) j,
        beq_iff id j,
      )

  pub drop_id_absent :
      (id : Text) (l : List (Item A)) → find repr id l ≡ none → drop_id repr id l ≡ l
  unfolding find drop_id
  drop_id_absent id [] h = refl
  drop_id_absent id (x ∷ xs) h = ground (arith, drop_id_absent id xs)

  drop_count_absent : (c : ℕ) (l : List (Item A)) → All (λ y. y.count ≢ c) l → drop_count c l ≡ l
  unfolding drop_count
  drop_count_absent c [] h = refl
  drop_count_absent c (x ∷ xs) h = ground (arith, drop_count_absent c xs h.1)

  find-ne :
      (id : Text) (c k : ℕ) (l : List (Item A))
      → find repr id l ≡ some c
      → All (λ y. y.count ≢ k) l
      → k ≢ c
  unfolding find
  find-ne id c k [] f h = cc
  find-ne id c k (x ∷ xs) f h = ground (arith, find-ne id c k xs)

  -- Through the index, marking a count is dropping an id.
  pub drop_count-eq-drop_id :
      (id : Text) (c : ℕ) (l : List (Item A))
      → Distinct repr l
      → find repr id l ≡ some c
      → drop_count c l ≡ drop_id repr id l
  unfolding find drop_count drop_id
  drop_count-eq-drop_id id c [] d f = cc
  drop_count-eq-drop_id id c (x ∷ xs) d f = elim (Bool-cases (beq (repr x.task) id)) [
    | inl e ↦
        let same : repr x.task ≡ id = (beq_iff (repr x.task) id).0 e in
        let is_c : x.count ≡ c = ground arith in
        let counts : All (λ y. y.count ≢ c) xs = rw (← is_c) d.1 in
        let ids : find repr id xs ≡ none = rw (← same) d.0 in
        ground (arith, drop_count_absent c xs counts, drop_id_absent id xs ids)
    | inr e ↦
        let later : find repr id xs ≡ some c = ground arith in
        ground (arith, find-ne id c x.count xs later d.1, drop_count-eq-drop_id id c xs d.2 later)
  ]

  pub find-insert :
      (i : Item A) (l : List (Item A)) (j : Text)
      → find repr (repr i.task) l ≡ none
      → find repr j (insert i l) ≡ (if beq (repr i.task) j then some i.count else find repr j l)
  unfolding find insert
  find-insert i [] j h = refl
  find-insert i (x ∷ xs) j h = ground (
    arith,
    find-insert i xs j,
    beq_iff (repr x.task) (repr i.task),
    beq_iff (repr x.task) j,
    beq_iff (repr i.task) j,
  )

  pub All-insert {κ} :
      (P : Item A → Type κ) (i : Item A) (l : List (Item A)) → P i → All P l → All P (insert i l)
  unfolding insert
  All-insert P i [] h k = (h, tt)
  All-insert P i (x ∷ xs) h k = elim (Bool-cases (precedes i.priority i.count x.priority x.count)) [
    | inl e ↦ rw e (h, k)
    | inr e ↦ rw e (k.0, All-insert P i xs h k.1)
  ]

  pub Distinct-drop_id :
      (id : Text) (l : List (Item A)) → Distinct repr l → Distinct repr (drop_id repr id l)
  unfolding drop_id
  Distinct-drop_id id [] d = tt
  Distinct-drop_id id (x ∷ xs) d =
      let absent : find repr (repr x.task) (drop_id repr id xs) ≡ none =
        ground (arith, find-drop_id id xs (repr x.task)) in
      elim (Bool-cases (beq (repr x.task) id)) [
        | inl e ↦ rw e (Distinct-drop_id id xs d.2)
        | inr e ↦
            rw e
              (absent, All-drop_id (λ y. y.count ≢ x.count) id xs d.1, Distinct-drop_id id xs d.2)
      ]

  pub Distinct-insert :
      (i : Item A) (l : List (Item A))
      → find repr (repr i.task) l ≡ none
      → All (λ y. y.count ≢ i.count) l
      → Distinct repr l
      → Distinct repr (insert i l)
  unfolding insert find
  Distinct-insert i [] f c d = (refl, tt, tt)
  Distinct-insert i (x ∷ xs) f c d =
      elim (Bool-cases (precedes i.priority i.count x.priority x.count)) [
        | inl e ↦ rw e (f, c, d)
        | inr e ↦
            let rest : find repr (repr i.task) xs ≡ none = ground arith in
            let absent : find repr (repr x.task) (insert i xs) ≡ none = ground (
              arith,
              find-insert i xs (repr x.task) rest,
              beq_iff (repr x.task) (repr i.task),
              beq_iff (repr i.task) (repr x.task),
            ) in
            let other : i.count ≢ x.count = λ p. c.0 (sym p) in
            rw e (
              absent,
              All-insert (λ y. y.count ≢ x.count) i xs other d.1,
              Distinct-insert i xs rest c.1 d.2,
            )
      ]
