-- ===== src/Builds/PriorityCounter.antt =====
-- backend/copr_backend/daemons/build_dispatcher.py, class _PriorityCounter, and the part of
-- BuildDispatcher.get_frontend_tasks that follows the request.
pub mod Laws
use copr.Base.{ℕ, ◌+◌, Option, none, some, List, [], ◌∷◌, Bool}
use copr.Base.Int.{pos}
use copr.Base.Equality.{Eq, Text, text_eq, bool_eq, maybe_eq, codes}
use copr.Base.Dict.{Dict, get, put}
use copr.Base.Maybe.{◌>>=◌}
use copr.Workers.Manager.{or_default}
use copr.Builds.Task.{BuildTask, BuildQueueTask, new, background, requested_arch}

-- _counter["background"]["user"]["arch"]["sandbox"]
abbrev pub Sandboxes : Type 0
Sandboxes = Dict (Option Text) ℕ

abbrev pub Archs : Type 0
Archs = Dict Text Sandboxes

abbrev pub Owners : Type 0
Owners = Dict Text Archs

abbrev pub Counter : Type 0
Counter = Dict Bool Owners

-- `requested_arch or "srpm"`
abbrev pub arch_name : Option Text → Text
arch_name none = codes "srpm"
arch_name (some []) = codes "srpm"
arch_name (some (c ∷ t)) = c ∷ t

-- Each step takes the inner dict out, `{}` or 0 if the key is new, and puts the new one back.
unfoldable pub bump_sandbox : Option Text → Sandboxes → ℕ × Sandboxes
bump_sandbox sandbox arch =
    let value = or_default (get arch sandbox) 0 + 1 in (value, put arch sandbox value)

unfoldable pub bump_arch : Text → Option Text → Archs → ℕ × Archs
unfolding bump_sandbox
bump_arch arch sandbox owner =
    let (value, sandboxes) = bump_sandbox sandbox (or_default (get owner arch) []) in
    (value, put owner arch sandboxes)

unfoldable pub bump_owner : Text → Text → Option Text → Owners → ℕ × Owners
unfolding bump_arch
bump_owner owner arch sandbox background =
    let (value, archs) = bump_arch arch sandbox (or_default (get background owner) []) in
    (value, put background owner archs)

unfoldable pub bump : Bool → Text → Text → Option Text → Counter → ℕ × Counter
unfolding bump_owner
bump background owner arch sandbox counter =
    let (value, owners) = bump_owner owner arch sandbox (or_default (get counter background) []) in
    (value, put counter background owners)

-- get_priority(task), at the architecture that `task.requested_arch` gave.
unfoldable pub get_priority : BuildQueueTask → Option Text → Counter → ℕ × Counter
unfolding bump background
get_priority task arch counter =
    bump (background task) task.task.owner (arch_name arch) task.task.sandbox counter

-- The loop over the raw tasks, where none is the IndexError of a malformed chroot.
unfoldable pub number_tasks : Counter → List BuildTask → Option (List BuildQueueTask)
unfolding get_priority requested_arch new
number_tasks counter [] = some []
number_tasks counter (raw ∷ rest) = do
  arch ← requested_arch (new raw)
  let (value, counter') = get_priority (new raw) arch counter
  tasks ← number_tasks counter' rest
  some (record (new raw) { backend_priority = pos value } ∷ tasks)

unfoldable pub get_frontend_tasks : List BuildTask → Option (List BuildQueueTask)
unfolding number_tasks
get_frontend_tasks raw_tasks = number_tasks [] raw_tasks
