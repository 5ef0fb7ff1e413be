-- ===== src/Frontend/WorkList/Once.antt =====
-- A WorkList gives each task once, in the order in which the tasks were first scheduled.
use mathlib.Core.Path.{subst}
use copr.Base.{
  ◌≡◌, refl, sym, ap, ◌∙◌, Option, some, List, [], ◌∷◌, ◌++◌, false, arith, All, All-append,
  if◌then◌else◌, Bool-cases, inl, inr,
}
use copr.Base.Equality.{Eq, beq}
use copr.Base.Dict.{contains, add}
use copr.Base.Maybe.{◌>>=◌, >>=-eq-some, some_path}
use copr.Frontend.WorkList.{WorkList, pop, pop_last, schedule, schedule_all, new}

-- What a caller does with the list.
pub data Op {ℓ} (A : Type ℓ) : Type ℓ where
  schedules : A → Op A
  pops : Op A

module _ {ℓ} {A : Type ℓ} where
  unfoldable pub backwards : List A → List A
  backwards [] = []
  backwards (x ∷ xs) = backwards xs ++ x ∷ []

  append_assoc : (xs ys zs : List A) → (xs ++ ys) ++ zs ≡ xs ++ (ys ++ zs)
  append_assoc [] ys zs = refl
  append_assoc (x ∷ xs) ys zs = ap (λ l. x ∷ l) (append_assoc xs ys zs)

  backwards-pop_last :
      (xs : List A) (a : A) (rest : List A)
      → pop_last xs ≡ some (a, rest)
      → backwards xs ≡ a ∷ backwards rest
  unfolding pop_last backwards
  backwards-pop_last [] a rest h = cc
  backwards-pop_last (x ∷ []) a rest h = cc
  backwards-pop_last (x ∷ y ∷ ys) a rest h =
      let (found, ran, same) =
        >>=-eq-some (pop_last (y ∷ ys)) (λ (a, rest). some (a, x ∷ rest)) h in
      let ih = backwards-pop_last (y ∷ ys) found.0 found.1 ran in
      subst (λ p. backwards (x ∷ y ∷ ys) ≡ p.0 ∷ backwards p.1) (some_path same)
        (ap (λ l. l ++ x ∷ []) ih)

module _ {ℓ} {A : Type ℓ} ⦃e : Eq A⦄ where
  -- The work list and the tasks that were taken from it, oldest first; `none` is an IndexError.
  unfoldable pub perform : List (Op A) → WorkList A → List A → Option (WorkList A × List A)
  perform [] w taken = some (w, taken)
  perform (schedules a ∷ ops) w taken = perform ops (schedule w a).1 taken
  perform (pops ∷ ops) w taken = pop w >>= (λ (a, w'). perform ops w' (taken ++ a ∷ []))

  abbrev pub Once : List A → Type ℓ
  Once [] = Unit
  Once (x ∷ xs) = All (λ y. beq x y ≡ false) xs × Once xs

  contains-Once : (xs : List A) (a : A) → Once xs → contains xs a ≡ false → Once (xs ++ a ∷ [])
  unfolding contains
  contains-Once [] a once new = (tt, tt)
  contains-Once (x ∷ xs) a once new = (
    All-append (λ y. beq x y ≡ false) xs (a ∷ []) once.0 (ground (arith, new), tt),
    contains-Once xs a once.1 (ground (arith, new)),
  )

  -- The tasks taken, then those that wait, oldest first, are the tasks seen, each once.
  pub record IsInOrder (w : WorkList A) (taken : List A) : Type ℓ where
    pub in_order : taken ++ backwards w.tasks ≡ w.seen
    pub once : Once w.seen

  schedule-IsInOrder :
      (w : WorkList A) (taken : List A) (a : A)
      → IsInOrder w taken
      → IsInOrder (schedule w a).1 taken
  unfolding schedule add backwards
  schedule-IsInOrder w taken a h = elim (Bool-cases (contains w.seen a)) [
    | inl seen ↦ rw seen h
    | inr unseen ↦
        let order : taken ++ (backwards w.tasks ++ a ∷ []) ≡ w.seen ++ a ∷ [] =
          sym (append_assoc taken (backwards w.tasks) (a ∷ []))
          ∙ ap (λ l. l ++ a ∷ []) h.in_order in
        rw unseen (record { in_order = order; once = contains-Once w.seen a h.once unseen })
  ]

  pop-IsInOrder :
      (w w' : WorkList A) (taken : List A) (a : A)
      → pop w ≡ some (a, w')
      → IsInOrder w taken
      → IsInOrder w' (taken ++ a ∷ [])
  unfolding pop
  pop-IsInOrder w w' taken a popped h =
      let ((b, rest), last, same) =
        >>=-eq-some (pop_last w.tasks) (λ (a, rest). some (a, record w { tasks = rest })) popped in
      let order : (taken ++ b ∷ []) ++ backwards rest ≡ w.seen =
        append_assoc taken (b ∷ []) (backwards rest)
        ∙ ap (λ l. taken ++ l) (sym (backwards-pop_last w.tasks b rest last))
        ∙ h.in_order in
      subst (λ p. IsInOrder p.1 (taken ++ p.0 ∷ [])) (some_path same)
        (record { in_order = order; once = h.once })

  pop-seen : (w w' : WorkList A) (a : A) → pop w ≡ some (a, w') → w'.seen ≡ w.seen
  unfolding pop
  pop-seen w w' a popped =
      let ((b, rest), last, same) =
        >>=-eq-some (pop_last w.tasks) (λ (a, rest). some (a, record w { tasks = rest })) popped in
      sym (ap (λ (p : A × WorkList A). p.1.seen) (some_path same))

  perform-IsInOrder :
      (ops : List (Op A)) (w w' : WorkList A) (taken taken' : List A)
      → IsInOrder w taken
      → perform ops w taken ≡ some (w', taken')
      → IsInOrder w' taken'
  unfolding perform pop
  perform-IsInOrder [] w w' taken taken' h ran = subst (λ p. IsInOrder p.0 p.1) (some_path ran) h
  perform-IsInOrder (schedules a ∷ ops) w w' taken taken' h ran =
      perform-IsInOrder ops (schedule w a).1 w' taken taken' (schedule-IsInOrder w taken a h) ran
  perform-IsInOrder (pops ∷ ops) w w' taken taken' h ran =
      let (x, popped, rest) =
        >>=-eq-some (pop w) (λ (a, w'). perform ops w' (taken ++ a ∷ [])) ran in
      perform-IsInOrder ops x.1 w' (taken ++ x.0 ∷ []) taken'
        (pop-IsInOrder w x.1 taken x.0 popped h) rest

  schedule_all-IsInOrder :
      (initial_tasks : List A) (w : WorkList A)
      → IsInOrder w []
      → IsInOrder (schedule_all w initial_tasks) []
  unfolding schedule_all
  schedule_all-IsInOrder [] w h = h
  schedule_all-IsInOrder (task ∷ rest) w h =
      schedule_all-IsInOrder rest (schedule w task).1 (schedule-IsInOrder w [] task h)

  -- The tasks that a caller schedules, in order.
  unfoldable pub scheduled_by : List (Op A) → List A
  scheduled_by [] = []
  scheduled_by (schedules a ∷ ops) = a ∷ scheduled_by ops
  scheduled_by (pops ∷ ops) = scheduled_by ops

  -- The tasks known, and behind them those of the list that are new, each where it first stands.
  unfoldable pub first_of_each : List A → List A → List A
  first_of_each known [] = known
  first_of_each known (a ∷ later) =
      if contains known a then first_of_each known later else first_of_each (known ++ a ∷ []) later

  schedule-seen :
      (w : WorkList A) (a : A) (rest : List A)
      → first_of_each (schedule w a).1.seen rest ≡ first_of_each w.seen (a ∷ rest)
  unfolding schedule first_of_each add
  schedule-seen w a rest = elim (Bool-cases (contains w.seen a)) [
    | inl seen ↦ simp seen refl
    | inr unseen ↦ simp unseen refl
  ]

  schedule_all-seen :
      (initial_tasks : List A) (w : WorkList A) (rest : List A)
      → first_of_each (schedule_all w initial_tasks).seen rest
        ≡ first_of_each w.seen (initial_tasks ++ rest)
  unfolding schedule_all
  schedule_all-seen [] w rest = refl
  schedule_all-seen (task ∷ tasks) w rest =
      schedule_all-seen tasks (schedule w task).1 rest ∙ schedule-seen w task (tasks ++ rest)

  perform-seen :
      (ops : List (Op A)) (w w' : WorkList A) (taken taken' : List A)
      → perform ops w taken ≡ some (w', taken')
      → first_of_each w.seen (scheduled_by ops) ≡ w'.seen
  unfolding perform pop scheduled_by first_of_each
  perform-seen [] w w' taken taken' ran = ap (λ (p : WorkList A × List A). p.0.seen) (some_path ran)
  perform-seen (schedules a ∷ ops) w w' taken taken' ran =
      sym (schedule-seen w a (scheduled_by ops))
      ∙ perform-seen ops (schedule w a).1 w' taken taken' ran
  perform-seen (pops ∷ ops) w w' taken taken' ran =
      let (x, popped, rest) =
        >>=-eq-some (pop w) (λ (a, w'). perform ops w' (taken ++ a ∷ [])) ran in
      sym (ap (λ l. first_of_each l (scheduled_by ops)) (pop-seen w x.1 x.0 popped))
      ∙ perform-seen ops x.1 w' (taken ++ x.0 ∷ []) taken' rest

  -- Whatever tasks a work list starts with, and however `schedule` and `pop` are then called on it,
  -- as long as no `pop` finds it empty: the tasks that were taken, followed by those that wait, are
  -- those it started with and those that were scheduled, each once and where it first came, and no two
  -- of them are equal.
  pub perform-new-IsInOrder :
      (initial_tasks : List A) (ops : List (Op A)) (w : WorkList A) (taken : List A)
      → perform ops (new initial_tasks) [] ≡ some (w, taken)
      → (taken ++ backwards w.tasks ≡ first_of_each [] (initial_tasks ++ scheduled_by ops))
        × Once (taken ++ backwards w.tasks)
  unfolding new backwards
  perform-new-IsInOrder initial_tasks ops w taken ran =
      let start : WorkList A = record { tasks = []; seen = [] } in
      let kept =
        perform-IsInOrder ops (new initial_tasks) w [] taken
          (schedule_all-IsInOrder initial_tasks start (record { in_order = refl; once = tt }))
          ran in
      (
        kept.in_order
            ∙ sym (perform-seen ops (new initial_tasks) w [] taken ran)
            ∙ schedule_all-seen initial_tasks start (scheduled_by ops),
        rw kept.in_order kept.once,
      )
