-- ===== src/Builds/Limits/Passed.antt =====
-- What is known of a task that the build dispatcher's limits let in.
use copr.Base.{
  ℕ, ◌<◌, ◌≡◌, refl, sym, ◌∙◌, Option, some, List, [], ◌∷◌, ◌++◌, Bool, true, false, arith, ltb→lt,
}
use copr.Base.Equality.{Text, text_eq, maybe_eq}
use copr.Base.Dict.{Dict, contains}
use copr.Workers.Limits.{
  WorkerLimit, check, check_all, calculate_limits_for_task, new_predicate_limit, new_hash_limit,
}
use copr.Workers.Limits.Counts.{
  workers_added, in_group, matching, DistinctIds, check-workers_added_hash,
  check-workers_added_predicate,
}
use copr.Builds.Task.{BuildQueueTask}
use copr.Builds.Limits.{
  BuildsLimits, has_arch, has_tag, arch_owner_group, user_ssh_group, architecture_worker_limit,
  build_tag_limit, architecture_user_worker_limit, limits_for, build_limits,
}

module _ {T : Type 0} where
  -- Every limit after these workers were added.
  abbrev pub all_added : List (Text × T) → List (WorkerLimit T) → List (WorkerLimit T)
  all_added ws [] = []
  all_added ws (l ∷ ls) = workers_added ws l ∷ all_added ws ls

  -- It is what `_calculate_limits_for_task` makes of them, worker by worker.
  all_added-calculate :
      (w : Text) (t : T) (ws : List (Text × T)) (ls : List (WorkerLimit T))
      → all_added ws (calculate_limits_for_task w t ls) ≡ all_added ((w, t) ∷ ws) ls
  unfolding calculate_limits_for_task
  all_added-calculate w t ws [] = refl
  all_added-calculate w t ws (l ∷ ls) = rw (all_added-calculate w t ws ls)

  all_added-append :
      (ws : List (Text × T)) (xs ys : List (WorkerLimit T))
      → all_added ws (xs ++ ys) ≡ all_added ws xs ++ all_added ws ys
  all_added-append ws [] ys = refl
  all_added-append ws (x ∷ xs) ys = rw (all_added-append ws xs ys)

  check_all-append :
      (t : T) (xs ys : List (WorkerLimit T))
      → check_all t (xs ++ ys) ≡ true
      → (check_all t xs ≡ true) × (check_all t ys ≡ true)
  unfolding check_all
  check_all-append t [] ys h = (refl, h)
  check_all-append t (x ∷ xs) ys h = ground (arith, check_all-append t xs ys)

  check_all-cons :
      (t : T) (x : WorkerLimit T) (xs : List (WorkerLimit T))
      → check_all t (x ∷ xs) ≡ true
      → (check t x ≡ true) × (check_all t xs ≡ true)
  unfolding check_all
  check_all-cons t x xs h = ground arith

  passed_hash :
      (hasher : T → Option Text) (limit : ℕ) (ws : List (Text × T)) (t : T)
      → check t (workers_added ws (new_hash_limit hasher limit)) ≡ true
      → in_group hasher (hasher t) ws < limit
  passed_hash hasher limit ws t h =
      ltb→lt (in_group hasher (hasher t) ws) limit
        (sym (check-workers_added_hash hasher limit ws t) ∙ h)

  passed_predicate :
      (predicate : T → Bool) (limit : ℕ) (ws : List (Text × T)) (t : T)
      → DistinctIds ws
      → check t (workers_added ws (new_predicate_limit predicate limit)) ≡ true
      → predicate t ≡ true
      → matching predicate ws < limit
  passed_predicate predicate limit ws t d h p =
      let e = check-workers_added_predicate predicate limit ws t d in
      ltb→lt (matching predicate ws) limit (ground arith)

  -- A predicate limit of zero lets no task in that the predicate holds of.
  none_blocked :
      (predicate : T → Bool) (ws : List (Text × T)) (t : T)
      → DistinctIds ws
      → check t (workers_added ws (new_predicate_limit predicate 0)) ≡ true
      → predicate t ≡ false
  none_blocked predicate ws t d h =
      let e = check-workers_added_predicate predicate 0 ws t d in ground arith

  passed_append :
      (t : T) (ws : List (Text × T)) (xs ys : List (WorkerLimit T))
      → check_all t (all_added ws (xs ++ ys)) ≡ true
      → (check_all t (all_added ws xs) ≡ true) × (check_all t (all_added ws ys) ≡ true)
  passed_append t ws xs ys h =
      check_all-append t (all_added ws xs) (all_added ws ys) (rw (all_added-append ws xs ys) at h)

module _ (ws : List (Text × BuildQueueTask)) (d : DistinctIds ws) (t : BuildQueueTask) where
  -- For each (name, limit): a task of that name's class finds fewer than `limit` such workers.
  abbrev RoomFor : (Text → BuildQueueTask → Bool) → Dict Text ℕ → Type 0
  RoomFor class [] = Unit
  RoomFor class ((name, limit) ∷ rest) =
      (class name t ≡ true → matching (class name) ws < limit) × RoomFor class rest

  abbrev RoomInGroup : (Text → BuildQueueTask → Option Text) → Dict Text ℕ → Type 0
  RoomInGroup class [] = Unit
  RoomInGroup class ((name, limit) ∷ rest) =
      (in_group (class name) (class name t) ws < limit) × RoomInGroup class rest

  limits_for-RoomFor :
      (class : Text → BuildQueueTask → Bool) (opts : Dict Text ℕ)
      → check_all t
          (all_added ws (limits_for (λ name limit. new_predicate_limit (class name) limit) opts))
        ≡ true
      → RoomFor class opts
  limits_for-RoomFor class [] h = tt
  limits_for-RoomFor class ((name, limit) ∷ rest) h =
      let (first, others) = check_all-cons t _ _ h in
      (passed_predicate (class name) limit ws t d first, limits_for-RoomFor class rest others)

  limits_for-RoomInGroup :
      (class : Text → BuildQueueTask → Option Text) (opts : Dict Text ℕ)
      → check_all t
          (all_added ws (limits_for (λ name limit. new_hash_limit (class name) limit) opts))
        ≡ true
      → RoomInGroup class opts
  limits_for-RoomInGroup class [] h = tt
  limits_for-RoomInGroup class ((name, limit) ∷ rest) h =
      let (first, others) = check_all-cons t _ _ h in
      (passed_hash (class name) limit ws t first, limits_for-RoomInGroup class rest others)

  -- Beside the workers `ws` there is room for one more of the task's kind in every respect.
  pub record IsAllowed (opts : BuildsLimits) : Type 0 where
    pub arch : RoomFor has_arch opts.arch
    pub tag : RoomFor has_tag opts.tag
    pub arch_per_owner : RoomInGroup arch_owner_group opts.arch_per_owner
    pub sandbox : in_group (λ x. x.task.sandbox) t.task.sandbox ws < opts.sandbox
    pub owner : in_group (λ x. some x.task.owner) (some t.task.owner) ws < opts.owner
    pub not_blocked : contains opts.blocked_owners t.task.owner ≡ false
    pub userssh : in_group user_ssh_group (user_ssh_group t) ws < opts.userssh

  -- A task that passes the dispatcher's limits, when they count the workers `ws` with different ids,
  -- has room in every respect: for its architecture, each of its tags, its owner's share of the
  -- architecture, its sandbox and owner, and user SSH; and its owner is not blocked.
  pub build_limits-IsAllowed :
      (opts : BuildsLimits) → check_all t (all_added ws (build_limits opts)) ≡ true → IsAllowed opts
  unfolding build_limits
  build_limits-IsAllowed opts h =
      let archs = limits_for architecture_worker_limit opts.arch in
      let tags = limits_for build_tag_limit opts.tag in
      let shares = limits_for architecture_user_worker_limit opts.arch_per_owner in
      let (h1, r1) = passed_append t ws archs _ h in
      let (h2, r2) = passed_append t ws tags _ r1 in
      let (h3, r3) = passed_append t ws shares _ r2 in
      let (h4, r4) = check_all-cons t _ _ r3 in
      let (h5, r5) = check_all-cons t _ _ r4 in
      let (h6, r6) = check_all-cons t _ _ r5 in
      let (h7, r7) = check_all-cons t _ _ r6 in
      record {
        arch = limits_for-RoomFor has_arch opts.arch h1;
        tag = limits_for-RoomFor has_tag opts.tag h2;
        arch_per_owner = limits_for-RoomInGroup arch_owner_group opts.arch_per_owner h3;
        sandbox = passed_hash (λ x. x.task.sandbox) opts.sandbox ws t h4;
        owner = passed_hash (λ x. some x.task.owner) opts.owner ws t h5;
        not_blocked = none_blocked (λ x. contains opts.blocked_owners x.task.owner) ws t d h6;
        userssh = passed_hash user_ssh_group opts.userssh ws t h7;
      }
