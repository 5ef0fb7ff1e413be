-- ===== src/Builds/Limits.antt =====
-- backend/copr_backend/rpm_builds.py: the limits on build workers, and the list of them that
-- BuildDispatcher.__init__ (backend/copr_backend/daemons/build_dispatcher.py) sets up.
-- A task whose chroot has no architecture raises before it comes to a limit
-- (Builds/PriorityCounter), so the limits read the architecture as None there.
pub mod Passed
use copr.Base.{ℕ, Option, none, some, List, [], ◌∷◌, ◌++◌, Bool, true, false, not, if◌then◌else◌}
use copr.Base.Equality.{Text, text_eq, maybe_eq, beq}
use copr.Base.Dict.{Dict, contains}
use copr.Workers.Limits.{WorkerLimit, new_predicate_limit, new_hash_limit}
use copr.Workers.Manager.{or_default}
use copr.Builds.Task.{BuildQueueTask, requested_arch, tags}

unfoldable pub arch_of : BuildQueueTask → Option Text
unfolding requested_arch
arch_of x = or_default (requested_arch x) none

abbrev pub BuildLimit : Type 0
BuildLimit = WorkerLimit BuildQueueTask

abbrev pub has_arch : Text → BuildQueueTask → Bool
has_arch architecture x = beq (arch_of x) (some architecture)

abbrev pub architecture_worker_limit : Text → ℕ → BuildLimit
architecture_worker_limit architecture limit = new_predicate_limit (has_arch architecture) limit

abbrev pub blocked_owners_limit : List Text → BuildLimit
blocked_owners_limit blocked_owners =
    new_predicate_limit (λ x. contains blocked_owners x.task.owner) 0

-- f"{job.requested_arch}_{job.owner}"
abbrev pub arch_owner_group : Text → BuildQueueTask → Option Text
arch_owner_group architecture job =
    if not (beq (arch_of job) (some architecture))
    then none
    else some (architecture ++ b'_' ∷ job.task.owner)

abbrev pub architecture_user_worker_limit : Text → ℕ → BuildLimit
architecture_user_worker_limit architecture limit =
    new_hash_limit (arch_owner_group architecture) limit

abbrev pub user_ssh_group : BuildQueueTask → Option Text
user_ssh_group x =
    if x.source_build
    then none
    else if not (or_default x.task.allow_user_ssh false)
    then none
    else some x.task.owner

abbrev pub user_ssh_limit : ℕ → BuildLimit
user_ssh_limit limit = new_hash_limit user_ssh_group limit

abbrev pub has_tag : Text → BuildQueueTask → Bool
has_tag tag x = contains (tags x) tag

abbrev pub build_tag_limit : Text → ℕ → BuildLimit
build_tag_limit tag limit = new_predicate_limit (has_tag tag) limit

-- opts.builds_limits
pub record BuildsLimits : Type 0 where
  pub arch : Dict Text ℕ
  pub tag : Dict Text ℕ
  pub arch_per_owner : Dict Text ℕ
  pub sandbox : ℕ
  pub owner : ℕ
  pub blocked_owners : List Text
  pub userssh : ℕ

-- `for tag, limit in ….items(): self.limits.append(lclass(tag, limit))`
abbrev pub limits_for : (Text → ℕ → BuildLimit) → Dict Text ℕ → List BuildLimit
limits_for lclass [] = []
limits_for lclass ((name, limit) ∷ rest) = lclass name limit ∷ limits_for lclass rest

unfoldable pub build_limits : BuildsLimits → List BuildLimit
build_limits opts =
    limits_for architecture_worker_limit opts.arch
    ++ (limits_for build_tag_limit opts.tag
        ++ (limits_for architecture_user_worker_limit opts.arch_per_owner
            ++ (new_hash_limit (λ x. x.task.sandbox) opts.sandbox
                ∷ new_hash_limit (λ x. some x.task.owner) opts.owner
                ∷ blocked_owners_limit opts.blocked_owners
                ∷ user_ssh_limit opts.userssh
                ∷ [])))
