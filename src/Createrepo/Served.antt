-- ===== src/Createrepo/Served.antt =====
-- What `options` of backend/copr_backend/createrepo.py gathers from the keys that it lists.
use mathlib.Core.Path.{subst}
use copr.Base.{
  ◌≢◌, if_ind, ◌-◌, ◌≤◌, ◌<◌, ◌≡◌, refl, Option, none, some, List, [], ◌∷◌, ◌++◌, true, false,
  arith, length, length-append, leb, All, All-map, All-append, if_cases,
}
use copr.Base.Equality.{Text, text_eq, bool_eq, beq}
use copr.Base.Maybe.{some_path}
use copr.Createrepo.{
  CreaterepoTask, Request, BatchedCreaterepo, Options, Gathered, Visit, fails, passes, merges,
  max_in_batch, key, is_compatible, merge, gather, on_visit, visit, visit_task, visit_status,
  visit_request, gather_keys, no_options, options, with_keys,
}
use copr.Createrepo.Merged.{Covers, merge-Extends, merge-Covers, Covers-Extends}

-- What `hgetall` found under `k` is a request that is still to be done, for repodata of our kind.
abbrev pub IsPending : BatchedCreaterepo → (Text → Option Request) → Text → CreaterepoTask → Type 0
IsPending self hgetall k task =
    (beq k (key self) ≡ false)
    × (hgetall k ≡ some (record { task = some task; status = none }))
    × (is_compatible self task ≡ true)

abbrev pub IsServed : BatchedCreaterepo → (Text → Option Request) → Options → Text → Type 0
IsServed self hgetall o k = (task : CreaterepoTask) × IsPending self hgetall k task × Covers o task

abbrev pub VisitIsPending : BatchedCreaterepo → (Text → Option Request) → Text → Visit → Type 0
VisitIsPending self hgetall k fails = Unit
VisitIsPending self hgetall k passes = Unit
VisitIsPending self hgetall k (merges task) = IsPending self hgetall k task

visit_status-IsPending :
    (self : BatchedCreaterepo) (hgetall : Text → Option Request) (k : Text)
    → beq k (key self) ≡ false
    → (status : Option Text) (task : Option CreaterepoTask)
    → hgetall k ≡ some (record { task = task; status = status })
    → VisitIsPending self hgetall k
        (visit_status self hgetall status (record { task = task; status = status }))
unfolding visit_status visit_task
visit_status-IsPending self hgetall k new (some s) task found = tt
visit_status-IsPending self hgetall k new none none found = tt
visit_status-IsPending self hgetall k new none (some task) found =
    if_cases (VisitIsPending self hgetall k) (is_compatible self task) (λ c. (new, found, c))
      (λ c. tt)

visit_request-IsPending :
    (self : BatchedCreaterepo) (hgetall : Text → Option Request) (k : Text)
    → beq k (key self) ≡ false
    → (r : Option Request) → hgetall k ≡ r
    → VisitIsPending self hgetall k (visit_request self hgetall r)
unfolding visit_request
visit_request-IsPending self hgetall k new none found = tt
visit_request-IsPending self hgetall k new (some r) found =
    visit_status-IsPending self hgetall k new r.status r.task found

visit-IsPending :
    (self : BatchedCreaterepo) (hgetall : Text → Option Request) (k : Text)
    → VisitIsPending self hgetall k (visit self hgetall k)
unfolding visit
visit-IsPending self hgetall k =
    if_cases (VisitIsPending self hgetall k) (beq k (key self)) (λ ours. tt)
      (λ new. visit_request-IsPending self hgetall k new (hgetall k) refl)

-- What the loop keeps: every key to notify is served, and there is room in the batch.
pub record IsGathered (self : BatchedCreaterepo) (hgetall : Text → Option Request) (g : Gathered)
    : Type 0 where
  pub served : All (IsServed self hgetall g.options) g.notify_keys
  pub bounded : length g.notify_keys ≤ max_in_batch - 1

gather-IsServed :
    (self : BatchedCreaterepo) (hgetall : Text → Option Request) (k : Text) (task : CreaterepoTask)
    (g : Gathered)
    → IsPending self hgetall k task
    → All (IsServed self hgetall g.options) g.notify_keys
    → All (IsServed self hgetall (merge task g.options)) (g.notify_keys ++ k ∷ [])
gather-IsServed self hgetall k task g h all =
    All-append (IsServed self hgetall (merge task g.options)) g.notify_keys (k ∷ [])
      (All-map g.notify_keys
        (λ j (t, p, c). (
          t,
          p,
          Covers-Extends (merge task g.options) g.options t (merge-Extends task g.options) c,
        ))
        all)
      ((task, h, merge-Covers task g.options), tt)

on_visit-IsGathered :
    (self : BatchedCreaterepo) (hgetall : Text → Option Request) (k : Text) (v : Visit)
    (g h : Gathered) (rest : Gathered → Option Gathered)
    → ((g' h' : Gathered)
        → All (IsServed self hgetall g'.options) g'.notify_keys
        → length g'.notify_keys < max_in_batch - 1
        → rest g' ≡ some h'
        → IsGathered self hgetall h')
    → VisitIsPending self hgetall k v
    → All (IsServed self hgetall g.options) g.notify_keys
    → length g.notify_keys < max_in_batch - 1
    → on_visit k v g rest ≡ some h
    → IsGathered self hgetall h
unfolding on_visit
on_visit-IsGathered self hgetall k fails g h rest ih pending all room ran = cc
on_visit-IsGathered self hgetall k passes g h rest ih pending all room ran = ih g h all room ran
on_visit-IsGathered self hgetall k (merges task) g h rest ih pending all room ran =
    let keys = g.notify_keys ++ k ∷ [] in
    let all' = gather-IsServed self hgetall k task g pending all in
    if_cases (λ r. r ≡ some h → IsGathered self hgetall h) (leb (max_in_batch - 1) (length keys))
      (λ full end. subst (IsGathered self hgetall) (some_path end) (record {
        served = all';
        bounded = omega (arith, room, length-append g.notify_keys (k ∷ []));
      }))
      (λ some_room end. ih (gather k task g) h all' (ground (arith, some_room)) end) ran

gather_keys-IsGathered :
    (self : BatchedCreaterepo) (hgetall : Text → Option Request) (ks : List Text) (g h : Gathered)
    → All (IsServed self hgetall g.options) g.notify_keys
    → length g.notify_keys < max_in_batch - 1
    → gather_keys self hgetall ks g ≡ some h
    → IsGathered self hgetall h
unfolding gather_keys
gather_keys-IsGathered self hgetall [] g h all room ran =
    subst (IsGathered self hgetall) (some_path ran)
      (record { served = all; bounded = omega (arith, room) })
gather_keys-IsGathered self hgetall (k ∷ ks) g h all room ran =
    on_visit-IsGathered self hgetall k (visit self hgetall k) g h (gather_keys self hgetall ks)
      (λ g' h'. gather_keys-IsGathered self hgetall ks g' h') (visit-IsPending self hgetall k) all
      room ran

-- What is listed under a key can be read: it is not our own, and a request without status has a task.
abbrev pub IsReadable : BatchedCreaterepo → (Text → Option Request) → Text → Type 0
IsReadable self hgetall k = visit self hgetall k ≢ fails

on_visit_total :
    (k : Text) (v : Visit) (g : Gathered) (rest : Gathered → Option Gathered)
    → v ≢ fails
    → ((g' : Gathered) → (h : Gathered) × (rest g' ≡ some h))
    → (h : Gathered) × (on_visit k v g rest ≡ some h)
unfolding on_visit
on_visit_total k fails g rest ok ih = absurd (ok refl)
on_visit_total k passes g rest ok ih = ih g
on_visit_total k (merges task) g rest ok ih =
    if_ind (λ r. (h : Gathered) × (r ≡ some h))
      (leb (max_in_batch - 1) (length (gather k task g).notify_keys)) (gather k task g, refl)
      (ih (gather k task g))

gather_keys_total :
    (self : BatchedCreaterepo) (hgetall : Text → Option Request) (ks : List Text) (g : Gathered)
    → All (IsReadable self hgetall) ks
    → (h : Gathered) × (gather_keys self hgetall ks g ≡ some h)
unfolding gather_keys
gather_keys_total self hgetall [] g ok = (g, refl)
gather_keys_total self hgetall (k ∷ ks) g ok =
    on_visit_total k (visit self hgetall k) g (gather_keys self hgetall ks) ok.0
      (λ g'. gather_keys_total self hgetall ks g' ok.1)

-- What `options` gives a caller that has access to redis and asks once, with no key to notify yet,
-- when everything listed can be read: it returns; each key that the caller will notify was found in
-- redis as a request of another process without status and with our values of "devel" and
-- "appstream"; the merged options do what each of these requests asks for; and there are at most 99
-- of them.
pub options-IsGathered :
    (self : BatchedCreaterepo) (listed : List Text) (hgetall : Text → Option Request)
    → self.noop ≡ false
    → self.notify_keys ≡ []
    → All (IsReadable self hgetall) listed
    → (g : Gathered) × (options self listed hgetall ≡ some (with_keys self g))
      × IsGathered self hgetall g
unfolding options
options-IsGathered self listed hgetall op fresh ok =
    let start : Gathered = record { options = no_options; notify_keys = self.notify_keys } in
    let (g, ran) = gather_keys_total self hgetall listed start ok in
    (
      g,
      simp (op, ran),
      gather_keys-IsGathered self hgetall listed start g (rw fresh tt) (rw fresh (omega arith)) ran,
    )
