-- ===== src/Examples/Createrepo.antt =====
-- backend/copr_backend/createrepo.py at concrete inputs.
use copr.Base.{◌≡◌, ◌≢◌, refl, Option, none, some, List, [], ◌∷◌, true, false}
use copr.Base.Equality.{Text, codes, text_eq, text_beq, bool_beq}
use copr.Base.Dict.{contains}
use copr.Createrepo.{
  CreaterepoTask, Request, BatchedCreaterepo, Gathered, key, key_prefix, options, with_keys, visit,
  visit_request, visit_status, visit_task, fails,
}
use copr.Base.Dict.{update, add}
use copr.Createrepo.{Options, gather_keys, on_visit, merge}
use copr.Createrepo.Complete.{IsTaken, options_complete}
use copr.Createrepo.Served.{IsGathered, options-IsGathered}

abbrev task : CreaterepoTask
task = record {
  appstream = true;
  devel = false;
  add = codes "build-1" ∷ [];
  delete = [];
  full = false;
  rpms_to_remove = [];
}

abbrev process : Text → List Text → BatchedCreaterepo
process pid notify_keys = record {
  noop = false;
  dirname = codes "/repo";
  pid = pid;
  redis_task = task;
  notify_keys = notify_keys;
}

abbrev other_key : Text
other_key = codes "createrepo_batched::/repo::2"

abbrev hgetall : Text → Option Request
hgetall k = some (record { task = some task; status = none })

readable : visit (process (codes "1") []) hgetall other_key ≢ fails
unfolding visit visit_request visit_status visit_task key key_prefix text_beq bool_beq
readable h = cc

options-IsGathered_example :
    (g : Gathered) × (options (process (codes "1") []) (other_key ∷ []) hgetall
      ≡ some (with_keys (process (codes "1") []) g))
    × IsGathered (process (codes "1") []) hgetall g
options-IsGathered_example =
    options-IsGathered (process (codes "1") []) (other_key ∷ []) hgetall refl refl (readable, tt)

abbrev merged : Options
merged = record { full = false; add = codes "build-1" ∷ []; delete = []; rpms_to_remove = [] }

options_complete_example : IsTaken other_key (other_key ∷ [])
unfolding options gather_keys on_visit merge visit visit_request visit_status visit_task key
    key_prefix text_beq bool_beq contains update add
options_complete_example =
    options_complete (process (codes "1") []) (process (codes "1") (other_key ∷ []))
      (other_key ∷ []) hgetall merged other_key task refl (refl, refl, refl) refl refl
