-- ===== src/Workers/Manager/Ids.antt =====
-- Worker ids and task ids: `get_worker_id` and `get_task_id_from_worker_id`.
use copr.Base.{
  ℕ, ◌≡◌, ◌≢◌, refl, ap, none, some, [], ◌∷◌, ◌++◌, true, false, length, length-append, arith,
  Bool-cases, inl, inr, if◌then◌else◌,
}
use copr.Base.Equality.{Text, text_eq, nat_eq, beq_refl, beq_ne}
use copr.Base.Dict.{contains}
use copr.Workers.Manager.{
  rsplit, rsplit_rest, colon, get_worker_id, get_task_id_from_worker_id, starts_with,
}

append-cancel : (p a b : Text) → p ++ a ≡ p ++ b → a ≡ b
append-cancel [] a b h = h
append-cancel (c ∷ p) a b h = append-cancel p a b (cc)

-- Different tasks have different workers.
pub get_worker_id-injective : (p a b : Text) → get_worker_id p a ≡ get_worker_id p b → a ≡ b
unfolding get_worker_id
get_worker_id-injective p a b h = let e = append-cancel p (colon ∷ a) (colon ∷ b) h in cc

pub starts_with-get_worker_id :
    (p id : Text) → starts_with (p ++ colon ∷ []) (get_worker_id p id) ≡ true
unfolding get_worker_id
starts_with-get_worker_id [] id = refl
starts_with-get_worker_id (c ∷ p) id = ground (arith, starts_with-get_worker_id p id)

pub rsplit_absent : (c : ℕ) (t : Text) → contains t c ≡ false → rsplit c t ≡ none
unfolding rsplit contains
rsplit_absent c [] h = refl
rsplit_absent c (x ∷ xs) h = ground (arith, rsplit_absent c xs)

pub rsplit_last :
    (c : ℕ) (p id : Text) → contains id c ≡ false → rsplit c (p ++ c ∷ id) ≡ some (p, id)
unfolding rsplit
rsplit_last c [] id h = ground (arith, rsplit_absent c id h)
rsplit_last c (x ∷ p) id h = rw (rsplit_last c p id h)

-- With a separator in the rest, what stands before the last one is longer than `p`.
rsplit_present :
    (c : ℕ) (id : Text)
    → contains id c ≡ true
    → (a : Text) × (b : Text) × (rsplit c id ≡ some (a, b))
unfolding rsplit contains
rsplit_present c [] h = cc
rsplit_present c (x ∷ xs) h = elim (Bool-cases (contains xs c)) [
  | inl later ↦ let (a, b, e) = rsplit_present c xs later in (x ∷ a, b, rw (e, rsplit_rest))
  | inr only ↦ ([], xs, ground (arith, rsplit_absent c xs only))
]

rsplit_longer :
    (c : ℕ) (p id a b : Text)
    → rsplit c id ≡ some (a, b)
    → rsplit c (p ++ c ∷ id) ≡ some (p ++ c ∷ a, b)
unfolding rsplit
rsplit_longer c [] id a b h = rw h
rsplit_longer c (x ∷ p) id a b h = rw (rsplit_longer c p id a b h)

longer_ne : (p a : Text) (c : ℕ) → p ++ c ∷ a ≢ p
longer_ne p a c h =
    let lengths : length (p ++ c ∷ a) ≡ length p = ap (length {A = ℕ}) h in
    absurd (omega (arith, length-append p (c ∷ a)))

-- The task id comes back from the worker id, unless it holds a colon: then the last colon is
-- taken for the separator, and the assertion on the prefix fails.
pub get_task_id-get_worker_id :
    (p id : Text)
    → get_task_id_from_worker_id p (get_worker_id p id)
      ≡ (if contains id colon then none else some id)
unfolding get_task_id_from_worker_id get_worker_id
get_task_id-get_worker_id p id = elim (Bool-cases (contains id colon)) [
  | inl present ↦
      let (a, b, e) = rsplit_present colon id present in
      rw (present, rsplit_longer colon p id a b e, beq_ne (p ++ colon ∷ a) p (longer_ne p a colon))
  | inr absent ↦ rw (absent, rsplit_last colon p id absent, beq_refl p)
]
