-- ===== src/Builds/Task/Sections.antt =====
-- The four classes of build tasks, in the order in which the queue takes them.
use copr.Base.{ℕ, ◌+◌, ◌*◌, ◌<◌, ◌≡◌, Bool, true, false, arith, Bool-cases, inl, inr, if◌then◌else◌}
use copr.Base.Int.{ℤ, pos, pos_part, neg_part, ◌+ℤ◌, ◌≤ℤ◌, ◌<ℤ◌, int_laws}
use copr.Workers.Manager.{or_default}
use copr.Builds.Task.{BuildQueueTask, background, priority, priority_section_size}

-- Source builds, RPM builds, background source builds, background RPM builds.
abbrev pub section_of : Bool → Bool → ℕ
section_of true source = if source then 2 else 3
section_of false source = if source then 0 else 1

abbrev pub section : BuildQueueTask → ℕ
section t = section_of (background t) t.source_build

-- The frontend's own number of the task and the backend's share.
abbrev pub offset : BuildQueueTask → ℤ
offset t = or_default t.task.task_priority (pos 0) +ℤ t.backend_priority

-- The numbers within a section stay below the size of a section.
pub record IsWithinSection (t : BuildQueueTask) : Type 0 where
  pub lower : pos 0 ≤ℤ offset t
  pub upper : offset t <ℤ pos priority_section_size

-- A priority is the start of the task's section plus its offset.
priority_section :
    (t : BuildQueueTask)
    → pos_part (priority t) + neg_part (offset t)
      ≡ neg_part (priority t) + pos_part (offset t) + priority_section_size * section t
unfolding priority
priority_section t = elim (Bool-cases (background t)) [
  | inl b ↦ elim (Bool-cases t.source_build) [
    | inl s ↦ rw (b, s) (omega int_laws)
    | inr s ↦ rw (b, s) (omega int_laws)
  ]
  | inr b ↦ elim (Bool-cases t.source_build) [
    | inl s ↦ rw (b, s) (omega int_laws)
    | inr s ↦ rw (b, s) (omega int_laws)
  ]
]

-- Every task of an earlier section is taken before every task of a later one, as long as the
-- numbers within the sections stay below the size of a section.
pub section_lt-priority_lt :
    (s t : BuildQueueTask)
    → IsWithinSection s
    → IsWithinSection t
    → section s < section t
    → priority s <ℤ priority t
section_lt-priority_lt s t hs ht h =
    omega (arith, priority_section s, priority_section t, hs.lower, hs.upper, ht.lower, ht.upper)
