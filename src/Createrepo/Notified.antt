-- ===== src/Createrepo/Notified.antt =====
-- How the processes of backend/copr_backend/createrepo.py tell each other, through redis, that a
-- request is done.
use copr.Base.{
  inl, inr, ◌∙◌, ◌≡◌, refl, Option, none, some, Bool, true, false, arith, List, [], ◌∷◌, ◌||◌,
  if◌then◌else◌, Bool-cases,
}
use copr.Base.Equality.{Text, text_eq, beq_iff, beq_refl}
use copr.Base.Dict.{get, put, get-put, get-remove, contains}
use copr.Workers.Manager.{or_default}
use copr.Createrepo.{
  CreaterepoTask, Request, Redis, BatchedCreaterepo, success, no_request, key, hset_status,
  make_request, has_success, check_processed, notify_all, commit,
}

abbrev pub is_done : Option Request → Option Request
is_done r = some (record (or_default r no_request) { status = some success })

get-notify_all :
    (ks : List Text) (redis : Redis) (k : Text)
    → get (notify_all ks redis) k ≡ (if contains ks k then is_done (get redis k) else get redis k)
unfolding notify_all contains
get-notify_all [] redis k = refl
get-notify_all (j ∷ ks) redis k = ground (
  arith,
  get-notify_all ks (hset_status redis j success) k,
  get-put redis j (record (or_default (get redis j) no_request) { status = some success }) k,
  beq_iff j k,
)

-- `commit` gives the status "success" to the keys to notify, and changes nothing else.
pub get-commit :
    (self : BatchedCreaterepo) (redis : Redis) (k : Text)
    → self.noop ≡ false
    → get (commit self redis) k
      ≡ (if contains self.notify_keys k then is_done (get redis k) else get redis k)
unfolding commit
get-commit self redis k op = simp (op, get-notify_all self.notify_keys redis k)

-- What a process finds of its request when the other has committed.
found_request :
    (self other : BatchedCreaterepo) (redis : Redis)
    → self.noop ≡ false
    → other.noop ≡ false
    → get redis (key other) ≡ none
    → get (commit self (make_request other redis).1) (key other)
      ≡ some (record {
        task = some other.redis_task;
        status = if contains self.notify_keys (key other) then some success else none;
      })
unfolding make_request
found_request self other redis op op' fresh =
    let put_task = record no_request { task = some other.redis_task } in
    let asked = put redis (key other) put_task in
    let is_asked : (make_request other redis).1 ≡ asked = simp (op', fresh) in
    let there : get asked (key other) ≡ some put_task =
      get-put redis (key other) put_task (key other) ∙ rw (beq_refl (key other)) refl in
    rw is_asked (
      get-commit self asked (key other) op
      ∙ elim (Bool-cases (contains self.notify_keys (key other))) [
        | inl told ↦ simp (there, told)
        | inr untold ↦ simp (there, untold)
      ])

has_success-found :
    (redis : Redis) (k : Text) (task : Option CreaterepoTask) (told : Bool)
    → get redis k ≡ some (record { task = task; status = if told then some success else none })
    → has_success redis k ≡ told
unfolding has_success
has_success-found redis k task true found = rw found (beq_refl success)
has_success-found redis k task false found = rw found refl

check_processed_lem :
    (other : BatchedCreaterepo) (redis : Redis) (delete_if_not : Bool)
    → other.noop ≡ false
    → let (processed, left) = check_processed other delete_if_not redis in
      (processed ≡ has_success redis (key other))
      × (get left (key other)
          ≡ (if processed || delete_if_not then none else get redis (key other)))
unfolding check_processed
check_processed_lem other redis delete_if_not op =
    elim (Bool-cases (has_success redis (key other) || delete_if_not)) [
      | inl go ↦ simp (op, go, get-remove redis (key other) (key other), beq_refl) (refl, refl)
      | inr stay ↦ simp (op, stay) (refl, refl)
    ]

-- A process that has made its request is told that it is done exactly when the other process that
-- commits meanwhile has gathered its key; then, or where the caller says so, its key is removed.
pub check_processed-commit :
    (self other : BatchedCreaterepo) (redis : Redis) (delete_if_not : Bool)
    → self.noop ≡ false
    → other.noop ≡ false
    → get redis (key other) ≡ none
    → let (processed, left) =
        check_processed other delete_if_not (commit self (make_request other redis).1) in
      (processed ≡ contains self.notify_keys (key other))
      × (get left (key other) ≡ (
          if processed || delete_if_not
          then none
          else get (commit self (make_request other redis).1) (key other)))
check_processed-commit self other redis delete_if_not op op' fresh =
    let r = commit self (make_request other redis).1 in
    let told =
      has_success-found r (key other) (some other.redis_task)
        (contains self.notify_keys (key other)) (found_request self other redis op op' fresh) in
    let (told', left) = check_processed_lem other r delete_if_not op' in (told' ∙ told, left)
