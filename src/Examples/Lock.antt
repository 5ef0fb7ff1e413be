-- ===== src/Examples/Lock.antt =====
-- common/copr_common/lock.py at concrete states: redis as lists, three processes, one of which dies.
use copr.Base.{ℕ, ◌≡◌, refl, List, [], ◌∷◌, ◌++◌, true, arith}
use copr.Base.Equality.{nat_eq}
use copr.Base.Dict.{contains}
use copr.Lock.{
  head, remove_first, Redis, Kill, done, outside, looking, found, locked, set, Shared, System, Step,
  Reach, enqueue, look_me, look_other, act, die, start, later,
}
use copr.Lock.Queue.{ahead}
use copr.Lock.Fair.{here, also, Holds, one_owner, first_come}
use copr.Lock.Solo.{Alone, dead_do_not_block}

drop_one : List ℕ → List ℕ
drop_one [] = []
drop_one (x ∷ xs) = xs

abbrev redis : Redis
redis = record {
  Queue = List ℕ;
  empty = [];
  entries = λ q. q;
  rpush = λ q p. q ++ p ∷ [];
  lindex = head;
  lrem = remove_first;
  blpop = drop_one;
  entries-empty = refl;
  entries-rpush = λ q p. refl;
  lindex-head = λ q. refl;
  entries-lrem = λ q p. refl;
}

abbrev with_queue : List ℕ → Shared redis
with_queue q = record { queue = q; notify = λ _. []; kill = λ _. done }

abbrev idle : System redis
idle = record { shared = with_queue []; pc = λ _. outside }

abbrev arrived : System redis
arrived = record {
  shared = with_queue (1 ∷ 2 ∷ []);
  pc = set (set (λ _. outside) 1 looking) 2 looking;
}

abbrev owned : System redis
owned = record { shared = with_queue (1 ∷ 2 ∷ []); pc = set arrived.pc 1 locked }

abbrev seen : System redis
seen = record { shared = with_queue (1 ∷ 2 ∷ []); pc = set owned.pc 2 (found 1) }

abbrev killed : System redis
killed = record {
  shared = record seen.shared { kill = set seen.shared.kill 1 Kill.esrch };
  pc = seen.pc;
}

arrived-Reach : Reach redis arrived
arrived-Reach =
    later (later (start {s = idle} refl (λ p. refl)) (act 1 refl enqueue)) (act 2 refl enqueue)

owned-Reach : Reach redis owned
owned-Reach = later arrived-Reach (act 1 refl (look_me refl))

sees : Step redis owned seen
sees = act 2 refl (look_other refl (omega arith))

killed-Reach : Reach redis killed
killed-Reach = later (later owned-Reach sees) (die 1)

one_owner_example : ◌≡◌ {A = ℕ} 1 1
one_owner_example = one_owner redis owned-Reach 1 1 (refl, refl) (refl, refl)

first_come_example : contains (ahead (1 ∷ 2 ∷ []) 2) 1 ≡ true
first_come_example =
    first_come redis 2 owned-Reach refl refl (also here sees refl refl) 1 (refl, refl)

dead_do_not_block_example : (t : System redis) × (Alone redis 2 killed t × Holds redis t 2)
unfolding contains ahead
dead_do_not_block_example =
    dead_do_not_block redis 2 killed killed-Reach refl refl (λ h. ground arith)
