-- ===== src/Lock.antt =====
-- common/copr_common/lock.py: the lock that processes take on a path, a queue of process ids in
-- redis. The state is the one of the keys of one path. Redis stands under the program and is a
-- record of operations with what it documents of them; a pid is a number, and its text is too.
-- A process that has died stays so: its pid is not given again while it stands in the queue.
pub mod Queue
pub mod Invariant
pub mod Fair
pub mod Solo
use copr.Base.{
  ℕ, ◌+◌, ◌≡◌, ◌≢◌, Option, none, some, List, [], ◌∷◌, ◌++◌, Bool, true, false, ◌==◌, if◌then◌else◌,
}

abbrev pub head : List ℕ → Option ℕ
head [] = none
head (x ∷ xs) = some x

-- Without the first occurrence.
unfoldable pub remove_first : List ℕ → ℕ → List ℕ
remove_first [] p = []
remove_first (x ∷ xs) p = let rest = remove_first xs p in if x == p then xs else x ∷ rest

-- Lists in redis: `lrem` is the one with the count 1, `blpop` takes an entry or times out.
pub record Redis : Type 1 where
  pub Queue : Type 0
  pub empty : Queue
  pub entries : Queue → List ℕ
  pub rpush : Queue → ℕ → Queue
  pub lindex : Queue → Option ℕ  -- of index 0
  pub lrem : Queue → ℕ → Queue
  pub blpop : Queue → Queue
  pub entries-empty : entries empty ≡ []
  pub entries-rpush : (q : Queue) (p : ℕ) → entries (rpush q p) ≡ entries q ++ p ∷ []
  pub lindex-head : (q : Queue) → lindex q ≡ head (entries q)
  pub entries-lrem : (q : Queue) (p : ℕ) → entries (lrem q p) ≡ remove_first (entries q) p

-- What `os.kill(pid, 0)` comes to.
pub data Kill : Type 0 where
  done : Kill
  esrch : Kill
  eperm : Kill

abbrev pub is_alive : Kill → Bool
is_alive done = true
is_alive esrch = false
is_alive eperm = true

-- Where a process stands in `lock`.
pub data Pc : Type 0 where
  outside : Pc
  looking : Pc  -- the head of the loop
  requeue : Pc  -- the queue was empty
  found : (head_pid : ℕ) → Pc  -- the head is another one
  removing : (head_pid : ℕ) → Pc  -- the head is dead
  waiting : Pc  -- before `blpop`
  locked : Pc  -- at the `yield`
  leaving : Pc  -- at the `finally`
  notifying : Pc  -- its entry is removed
  cleaning : Pc  -- before `delete`

-- Its entry is in the queue.
abbrev pub is_queued : Pc → Bool
is_queued outside = false
is_queued notifying = false
is_queued cleaning = false
is_queued _ = true

-- In the loop: an exception or a signal may end it.
abbrev pub in_loop : Pc → Bool
in_loop looking = true
in_loop requeue = true
in_loop (found _) = true
in_loop (removing _) = true
in_loop waiting = true
in_loop _ = false

abbrev pub set {ℓ} : {A : Type ℓ} → (ℕ → A) → ℕ → A → ℕ → A
set f p a i = if p == i then a else f i

module _ (R : Redis) where
  pub record Shared : Type 0 where
    pub queue : R.Queue
    pub notify : ℕ → R.Queue
    pub kill : ℕ → Kill

  -- One step of the process `me`: one call to redis or to the kernel.
  pub data Move (me : ℕ) (m : Shared) : Pc → Shared → Pc → Type 0 where
    enqueue : Move me m outside (record m { queue = R.rpush m.queue me }) looking
    look_none : R.lindex m.queue ≡ none → Move me m looking m requeue
    enqueue_again : Move me m requeue (record m { queue = R.rpush m.queue me }) looking
    look_me : R.lindex m.queue ≡ some me → Move me m looking m locked
    look_other : {h : ℕ} → R.lindex m.queue ≡ some h → h ≢ me → Move me m looking m (found h)
    find_dead : {h : ℕ} → is_alive (m.kill h) ≡ false → Move me m (found h) m (removing h)
    find_alive : {h : ℕ} → is_alive (m.kill h) ≡ true → Move me m (found h) m waiting
    remove_dead : {h : ℕ} → Move me m (removing h) (record m { queue = R.lrem m.queue h }) looking
    wait : Move me m waiting (record m { notify = set m.notify me (R.blpop (m.notify me)) }) looking
    give_up : {c : Pc} → in_loop c ≡ true → Move me m c m leaving
    finish : Move me m locked m leaving
    remove_own : Move me m leaving (record m { queue = R.lrem m.queue me }) notifying
    notify_none : R.lindex m.queue ≡ none → Move me m notifying m cleaning
    notify_next :
        {n : ℕ}
        → R.lindex m.queue ≡ some n
        → Move me m notifying
            (record m { notify = set m.notify n (R.rpush (m.notify n) 1) })
            cleaning
    clean : Move me m cleaning (record m { notify = set m.notify me R.empty }) outside

  pub record System : Type 0 where
    pub shared : Shared
    pub pc : ℕ → Pc

  abbrev pub alive : System → ℕ → Bool
  alive s p = is_alive (s.shared.kill p)

  -- A live process moves, a process dies, or the time of a notify key runs out.
  pub data Step (s : System) : System → Type 0 where
    act :
        (p : ℕ) {m : Shared} {c : Pc}
        → alive s p ≡ true
        → Move p s.shared (s.pc p) m c
        → Step s (record { shared = m; pc = set s.pc p c })
    die :
        (p : ℕ)
        → Step s (record s { shared = record s.shared { kill = set s.shared.kill p Kill.esrch } })
    expire :
        (p : ℕ)
        → Step s (record s { shared = record s.shared { notify = set s.shared.notify p R.empty } })

  -- No process is in `lock`, and the queue is empty; any set of processes is alive.
  pub data Reach : System → Type 0 where
    start : {s : System} → R.entries s.shared.queue ≡ [] → ((p : ℕ) → s.pc p ≡ outside) → Reach s
    later : {s t : System} → Reach s → Step s t → Reach t
