-- ===== src/Builds/PriorityCounter/Laws.antt =====
-- The counters of _PriorityCounter count each class of tasks for itself.
use copr.Base.{
  ℕ, ◌+◌, ◌≡◌, refl, ap, ◌∙◌, Option, none, some, List, [], ◌∷◌, Bool, true, false, ◌&&◌, arith,
  All, Bool-cases, inl, inr,
}
use mathlib.Core.Path.{subst}
use copr.Base.Int.{pos}
use copr.Base.Equality.{Text, text_eq, bool_eq, maybe_eq, beq, beq_iff}
use copr.Base.Dict.{get, get-put}
use copr.Base.Maybe.{>>=-eq-some, some_path}
use copr.Workers.Manager.{or_default}
use copr.Builds.Task.{BuildTask, BuildQueueTask, new, background, requested_arch}
use copr.Builds.PriorityCounter.{
  Sandboxes, Archs, Owners, Counter, arch_name, bump_sandbox, bump_arch, bump_owner, bump,
  get_priority, number_tasks, get_frontend_tasks,
}

-- What the counter holds for a class, 0 if it was never counted.
abbrev in_sandbox : Sandboxes → Option Text → ℕ
in_sandbox d s = or_default (get d s) 0

abbrev in_arch : Archs → Text → Option Text → ℕ
in_arch d a s = in_sandbox (or_default (get d a) []) s

abbrev in_owner : Owners → Text → Text → Option Text → ℕ
in_owner d o a s = in_arch (or_default (get d o) []) a s

abbrev in_counter : Counter → Bool → Text → Text → Option Text → ℕ
in_counter d b o a s = in_owner (or_default (get d b) []) o a s

-- 1 if the test holds.
abbrev pub one_if : Bool → ℕ
one_if true = 1
one_if false = 0

in_sandbox-bump :
    (d : Sandboxes) (s t : Option Text)
    → in_sandbox (bump_sandbox s d).1 t ≡ in_sandbox d t + one_if (beq s t)
unfolding bump_sandbox
in_sandbox-bump d s t = elim (Bool-cases (beq s t)) [
  | inl e ↦ let same : s ≡ t = (beq_iff s t).0 e in rw (get-put, e) (rw same refl)
  | inr e ↦ rw (get-put, e) (omega arith)
]

in_arch-bump :
    (d : Archs) (a a' : Text) (s t : Option Text)
    → in_arch (bump_arch a s d).1 a' t ≡ in_arch d a' t + one_if (beq a a' && beq s t)
unfolding bump_arch
in_arch-bump d a a' s t = elim (Bool-cases (beq a a')) [
  | inl e ↦
      let same : a ≡ a' = (beq_iff a a').0 e in
      rw (get-put, e) (rw (← same) (in_sandbox-bump (or_default (get d a) []) s t))
  | inr e ↦ rw (get-put, e) (omega arith)
]

in_owner-bump :
    (d : Owners) (o o' a a' : Text) (s t : Option Text)
    → in_owner (bump_owner o a s d).1 o' a' t
      ≡ in_owner d o' a' t + one_if (beq o o' && (beq a a' && beq s t))
unfolding bump_owner
in_owner-bump d o o' a a' s t = elim (Bool-cases (beq o o')) [
  | inl e ↦
      let same : o ≡ o' = (beq_iff o o').0 e in
      rw (get-put, e) (rw (← same) (in_arch-bump (or_default (get d o) []) a a' s t))
  | inr e ↦ rw (get-put, e) (omega arith)
]

in_counter-bump :
    (d : Counter) (b b' : Bool) (o o' a a' : Text) (s t : Option Text)
    → in_counter (bump b o a s d).1 b' o' a' t
      ≡ in_counter d b' o' a' t + one_if (beq b b' && (beq o o' && (beq a a' && beq s t)))
unfolding bump
in_counter-bump d b b' o o' a a' s t = elim (Bool-cases (beq b b')) [
  | inl e ↦
      let same : b ≡ b' = (beq_iff b b').0 e in
      rw (get-put, e) (rw (← same) (in_owner-bump (or_default (get d b) []) o o' a a' s t))
  | inr e ↦ rw (get-put, e) (omega arith)
]

bump-value :
    (d : Counter) (b : Bool) (o a : Text) (s : Option Text)
    → (bump b o a s d).0 ≡ in_counter d b o a s + 1
unfolding bump
bump-value d b o a s = refl

-- The architecture a raw task is counted under.
abbrev pub counted_arch : BuildTask → Text
counted_arch raw = arch_name (or_default (requested_arch (new raw)) none)

-- Two raw tasks compete: the same class of background, owner, architecture and sandbox.
abbrev pub same_class : BuildTask → BuildTask → Bool
same_class x y =
    beq (background (new x)) (background (new y))
    && (beq x.owner y.owner && (beq (counted_arch x) (counted_arch y) && beq x.sandbox y.sandbox))

abbrev pub competitors : BuildTask → List BuildTask → ℕ
competitors raw [] = 0
competitors raw (x ∷ xs) = one_if (same_class x raw) + competitors raw xs

-- The tasks are those of the raw list, in its order, and each has for its backend priority one
-- more than the number of competitors in front of it.
abbrev pub Numbered : List BuildTask → List BuildTask → List BuildQueueTask → Type 0
Numbered earlier [] [] = Unit
Numbered earlier [] (t ∷ ts) = ⊥
Numbered earlier (raw ∷ rest) [] = ⊥
Numbered earlier (raw ∷ rest) (t ∷ ts) =
    (t ≡ record (new raw) { backend_priority = pos (competitors raw earlier + 1) })
    × Numbered (raw ∷ earlier) rest ts

abbrev Counts : Counter → List BuildTask → Type 0
Counts d earlier =
    (raw : BuildTask)
    → in_counter d (background (new raw)) raw.owner (counted_arch raw) raw.sandbox
      ≡ competitors raw earlier

module _ (d : Counter) (earlier : List BuildTask) (c : Counts d earlier) (raw : BuildTask)
    (arch : Option Text) (known : counted_arch raw ≡ arch_name arch) where
  get_priority-value : (get_priority (new raw) arch d).0 ≡ competitors raw earlier + 1
  unfolding get_priority new
  get_priority-value =
      bump-value d (background (new raw)) raw.owner (arch_name arch) raw.sandbox
      ∙ rw (← known) (omega (arith, c raw))

  get_priority-Counts : Counts (get_priority (new raw) arch d).1 (raw ∷ earlier)
  unfolding get_priority new
  get_priority-Counts x =
      in_counter-bump d (background (new raw)) (background (new x)) raw.owner x.owner
        (arch_name arch) (counted_arch x) raw.sandbox x.sandbox
      ∙ rw (← known) (omega (arith, c x))

number_tasks-Numbered :
    (d : Counter) (earlier raws : List BuildTask) (ts : List BuildQueueTask)
    → Counts d earlier
    → number_tasks d raws ≡ some ts
    → Numbered earlier raws ts
unfolding number_tasks
number_tasks-Numbered d earlier [] [] c h = tt
number_tasks-Numbered d earlier [] (t ∷ ts) c h = cc
number_tasks-Numbered d earlier (raw ∷ rest) ts c h =
    let (arch, e, h1) = >>=-eq-some (requested_arch (new raw)) _ h in
    let next : Counter = (get_priority (new raw) arch d).1 in
    let (tasks, e2, h2) = >>=-eq-some (number_tasks next rest) _ h1 in
    let known : counted_arch raw ≡ arch_name arch = ap (λ o. arch_name (or_default o none)) e in
    let value = get_priority-value d earlier c raw arch known in
    let done =
      number_tasks-Numbered next (raw ∷ earlier) rest tasks
        (get_priority-Counts d earlier c raw arch known) e2 in
    subst (Numbered earlier (raw ∷ rest)) (some_path h2) (rw value refl, done)

-- A chroot, where there is one, has its three parts.
abbrev pub HasArch : BuildTask → Type 0
HasArch raw = (arch : Option Text) × (requested_arch (new raw) ≡ some arch)

number_tasks_total :
    (d : Counter) (raws : List BuildTask)
    → All HasArch raws
    → (ts : List BuildQueueTask) × (number_tasks d raws ≡ some ts)
unfolding number_tasks
number_tasks_total d [] h = ([], refl)
number_tasks_total d (raw ∷ rest) ((arch, known), h) =
    let (ts, ran) = number_tasks_total (get_priority (new raw) arch d).1 rest h in
    (
      record (new raw) { backend_priority = pos (get_priority (new raw) arch d).0 } ∷ ts,
      simp (known, ran),
    )

-- When each task's chroot, if it has one, has the three parts of a chroot's name: the dispatcher
-- hands on the frontend's tasks, in the frontend's order, and the backend priority of each is one
-- more than the number of tasks in front of it with the same background flag, owner, architecture
-- and sandbox.
pub get_frontend_tasks-Numbered :
    (raws : List BuildTask)
    → All HasArch raws
    → (ts : List BuildQueueTask) × (get_frontend_tasks raws ≡ some ts) × Numbered [] raws ts
unfolding get_frontend_tasks get
get_frontend_tasks-Numbered raws h =
    let (ts, ran) = number_tasks_total [] raws h in
    (ts, ran, number_tasks-Numbered [] [] raws ts (λ raw. refl) ran)
