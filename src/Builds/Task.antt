-- ===== src/Builds/Task.antt =====
-- backend/copr_backend/rpm_builds.py, class BuildQueueTask, and BackendQueueTask.priority of
-- backend/copr_backend/worker_manager.py. The dict of a task, as the frontend sends it, is a record
-- with an Option for each key that the code reads by `get`; `project_owner` is always there.
pub mod Sections
use copr.Base.{
  ℕ, ◌+◌, ◌*◌, Option, none, some, List, [], ◌∷◌, Bool, true, false, not, leb, ◌==◌, ◌&&◌, ◌||◌,
  if◌then◌else◌,
}
use copr.Base.Int.{ℤ, pos, ◌+ℤ◌}
use copr.Base.Equality.{Text, codes}
use copr.Workers.Manager.{or_default, rsplit}

pub record BuildTask : Type 0 where
  pub task_id : Text
  pub task_priority : Option ℤ
  pub task_background : Option Bool
  pub chroot : Option Text
  pub owner : Text
  pub task_tags : Option (List Text)
  pub sandbox : Option Text
  pub allow_user_ssh : Option Bool

pub record BuildQueueTask : Type 0 where
  pub task : BuildTask
  pub backend_priority : ℤ
  pub source_build : Bool

abbrev is_digit : ℕ → Bool
is_digit c = leb b'0' c && leb c b'9'

abbrev is_space : ℕ → Bool
is_space c = c == b' ' || (leb 9 c && leb c 13)

-- White space to the end.
abbrev all_space : Text → Bool
all_space [] = true
all_space (c ∷ t) = is_space c && all_space t

-- `int_digits seen t`: digits with single underscores between them, then white space. `seen` is
-- true after a digit.
abbrev int_digits : Bool → Text → Bool
int_digits seen [] = seen
int_digits seen (c ∷ t) =
    let digit = int_digits true t in
    let underscore = int_digits false t in
    if is_digit c
    then digit
    else if c == b'_'
    then seen && underscore
    else seen && is_space c && all_space t

abbrev int_sign : Text → Bool
int_sign [] = false
int_sign (c ∷ t) = if c == b'+' || c == b'-' then int_digits false t else int_digits false (c ∷ t)

-- Whether `int(text)` returns, for an ASCII text: else it raises ValueError.
unfoldable pub is_int : Text → Bool
is_int [] = false
is_int (c ∷ t) = let rest = is_int t in if is_space c then rest else int_sign (c ∷ t)

-- BuildQueueTask(task)
unfoldable pub new : BuildTask → BuildQueueTask
unfolding is_int
new task = record { task = task; backend_priority = pos 0; source_build = is_int task.task_id }

abbrev pub priority_section_size : ℕ
priority_section_size = 1000000

unfoldable pub background : BuildQueueTask → Bool
background t = or_default t.task.task_background false

unfoldable pub frontend_priority : BuildQueueTask → ℤ
unfolding background
frontend_priority t =
    let priority = or_default t.task.task_priority (pos 0) in
    let with_background =
      if background t then priority +ℤ pos (2 * priority_section_size) else priority in
    if not t.source_build then with_background +ℤ pos priority_section_size else with_background

-- sum([self.frontend_priority, self.backend_priority])
unfoldable pub priority : BuildQueueTask → ℤ
unfolding frontend_priority
priority t = pos 0 +ℤ frontend_priority t +ℤ t.backend_priority

unfoldable pub tags : BuildQueueTask → List Text
tags t = or_default t.task.task_tags []

abbrev dash : ℕ
dash = b'-'

-- chroot.rsplit("-", 2)[2], where none is the IndexError.
abbrev third_part : Option (Text × Text) → Option Text
third_part none = none
third_part (some (rest, arch)) = elim (rsplit dash rest) [ none ↦ none | some p ↦ some arch ]

unfoldable pub get_chroot_arch : Text → Option Text
unfolding rsplit
get_chroot_arch chroot = third_part (rsplit dash chroot)

abbrev pub ends_with_86 : Text → Bool
ends_with_86 [] = false
ends_with_86 (c ∷ t) = let rest = ends_with_86 t in is_86 c t || rest
  where
    is_86 : ℕ → Text → Bool
    is_86 c [] = false
    is_86 c (d ∷ []) = c == b'8' && d == b'6'
    is_86 c (d ∷ x ∷ t) = false

abbrev native_arch : Option Text → Option (Option Text)
native_arch none = none
native_arch (some arch) = some (some (if ends_with_86 arch then codes "x86_64" else arch))

abbrev arch_of_chroot : Option Text → Option (Option Text)
arch_of_chroot none = some none
arch_of_chroot (some []) = some none
arch_of_chroot (some (c ∷ t)) = native_arch (get_chroot_arch (c ∷ t))

-- The outer none is the IndexError of a chroot that lacks its parts, the inner one is None.
unfoldable pub requested_arch : BuildQueueTask → Option (Option Text)
unfolding get_chroot_arch
requested_arch t = arch_of_chroot t.task.chroot
