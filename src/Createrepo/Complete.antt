-- ===== src/Createrepo/Complete.antt =====
-- `options` of backend/copr_backend/createrepo.py passes over no request that it could serve, unless the
-- batch is full.
use mathlib.Core.Option
use mathlib.Core.Path.{subst}
use copr.Base.{
  ◌-◌, ◌≤◌, ◌≡◌, ◌⊎◌, sym, ap, ◌∙◌, Option, some, List, [], ◌∷◌, ◌++◌, true, false, arith, length,
  leb, leb→le, Bool-cases, if_cases, inl, inr, if◌then◌else◌,
}
use copr.Base.Equality.{Text, text_eq, beq, beq_iff, beq_refl}
use copr.Base.Dict.{contains, contains-append}
use copr.Base.Maybe.{some_path, map-eq-some}
use copr.Createrepo.{
  CreaterepoTask, Request, BatchedCreaterepo, Options, Gathered, Visit, fails, passes, merges,
  max_in_batch, gather, on_visit, visit, visit_request, visit_status, visit_task, gather_keys,
  options, with_keys, no_options,
}
use copr.Createrepo.Served.{IsPending}

-- The key is to be notified, or the batch is full.
abbrev pub IsTaken : Text → List Text → Type 0
IsTaken k notify_keys = (contains notify_keys k ≡ true) ⊎ (max_in_batch - 1 ≤ length notify_keys)

-- What the loop does from any state, for the rest of the keys.
abbrev Takes : Text → (Gathered → Option Gathered) → Type 0
Takes k rest = (g h : Gathered) → rest g ≡ some h → IsTaken k h.notify_keys

abbrev Keeps : Text → (Gathered → Option Gathered) → Type 0
Keeps k rest =
    (g h : Gathered)
    → contains g.notify_keys k ≡ true
    → rest g ≡ some h
    → contains h.notify_keys k ≡ true

on_visit-Keeps :
    (j k : Text) (v : Visit) (rest : Gathered → Option Gathered)
    → Keeps k rest
    → Keeps k (λ g. on_visit j v g rest)
unfolding on_visit
on_visit-Keeps j k fails rest keeps g h there ran = cc
on_visit-Keeps j k passes rest keeps g h there ran = keeps g h there ran
on_visit-Keeps j k (merges task) rest keeps g h there ran =
    let there' : contains (g.notify_keys ++ j ∷ []) k ≡ true =
      ground (arith, contains-append g.notify_keys (j ∷ []) k, there) in
    if_cases (λ r. r ≡ some h → contains h.notify_keys k ≡ true)
      (leb (max_in_batch - 1) (length (gather j task g).notify_keys))
      (λ full end. subst (λ (x : Gathered). contains x.notify_keys k ≡ true) (some_path end) there')
      (λ room end. keeps (gather j task g) h there' end) ran

gather_keys-Keeps :
    (self : BatchedCreaterepo) (hgetall : Text → Option Request) (k : Text) (ks : List Text)
    → Keeps k (gather_keys self hgetall ks)
unfolding gather_keys
gather_keys-Keeps self hgetall k [] g h there ran =
    subst (λ (x : Gathered). contains x.notify_keys k ≡ true) (some_path ran) there
gather_keys-Keeps self hgetall k (j ∷ ks) g h there ran =
    on_visit-Keeps j k (visit self hgetall j) (gather_keys self hgetall ks)
      (gather_keys-Keeps self hgetall k ks) g h there ran

-- A key that comes later is taken after any visit.
on_visit-Takes :
    (j k : Text) (v : Visit) (rest : Gathered → Option Gathered)
    → Takes k rest
    → Takes k (λ g. on_visit j v g rest)
unfolding on_visit
on_visit-Takes j k fails rest takes g h ran = cc
on_visit-Takes j k passes rest takes g h ran = takes g h ran
on_visit-Takes j k (merges task) rest takes g h ran =
    let keys = (gather j task g).notify_keys in
    if_cases (λ r. r ≡ some h → IsTaken k h.notify_keys) (leb (max_in_batch - 1) (length keys))
      (λ full end.
        subst (λ (x : Gathered). IsTaken k x.notify_keys) (some_path end)
          (inr (leb→le (max_in_batch - 1) (length keys) full)))
      (λ room end. takes (gather j task g) h end) ran

-- The key itself is taken at its visit.
on_visit_merges-Takes :
    (k : Text) (task : CreaterepoTask) (rest : Gathered → Option Gathered)
    → Keeps k rest
    → Takes k (λ g. on_visit k (merges task) g rest)
unfolding on_visit contains
on_visit_merges-Takes k task rest keeps g h ran =
    let there : contains (g.notify_keys ++ k ∷ []) k ≡ true =
      ground (arith, contains-append g.notify_keys (k ∷ []) k, beq_refl k) in
    if_cases (λ r. r ≡ some h → IsTaken k h.notify_keys)
      (leb (max_in_batch - 1) (length (gather k task g).notify_keys))
      (λ full end. subst (λ (x : Gathered). IsTaken k x.notify_keys) (some_path end) (inl there))
      (λ room end. inl (keeps (gather k task g) h there end)) ran

gather_keys-Takes :
    (self : BatchedCreaterepo) (hgetall : Text → Option Request) (k : Text) (task : CreaterepoTask)
    → visit self hgetall k ≡ merges task
    → (ks : List Text) → contains ks k ≡ true
    → Takes k (gather_keys self hgetall ks)
unfolding gather_keys contains
gather_keys-Takes self hgetall k task pending [] there = cc
gather_keys-Takes self hgetall k task pending (j ∷ ks) there = elim (Bool-cases (beq j k)) [
  | inl here ↦
      let same : k ≡ j = sym ((beq_iff j k).0 here) in
      subst (λ x. Takes k (λ g. on_visit x (visit self hgetall x) g (gather_keys self hgetall ks)))
        same
        (subst (λ v. Takes k (λ g. on_visit k v g (gather_keys self hgetall ks))) (sym pending)
          (on_visit_merges-Takes k task (gather_keys self hgetall ks)
            (gather_keys-Keeps self hgetall k ks)))
  | inr later ↦
      on_visit-Takes j k (visit self hgetall j) (gather_keys self hgetall ks)
        (gather_keys-Takes self hgetall k task pending ks (ground (arith, there, later)))
]

visit_pending :
    (self : BatchedCreaterepo) (hgetall : Text → Option Request) (k : Text) (task : CreaterepoTask)
    → IsPending self hgetall k task
    → visit self hgetall k ≡ merges task
unfolding visit visit_request visit_status visit_task
visit_pending self hgetall k task (new, found, same) = simp (new, found, same)

-- When `options` returns to a caller that has access to redis, each listed request of another process
-- that is without status and has our values of "devel" and "appstream" will be notified, unless the
-- batch has reached its limit of 99 other processes.
pub options_complete :
    (self told : BatchedCreaterepo) (listed : List Text) (hgetall : Text → Option Request)
    (o : Options) (k : Text) (task : CreaterepoTask)
    → self.noop ≡ false
    → IsPending self hgetall k task
    → contains listed k ≡ true
    → options self listed hgetall ≡ some (o, told)
    → IsTaken k told.notify_keys
unfolding options
options_complete self told listed hgetall o k task op pending there ran =
    let start : Gathered = record { options = no_options; notify_keys = self.notify_keys } in
    let ran' =
      sym (
        ap
          (λ b.
            if b
            then some (no_options, self)
            else Option.map (with_keys self) (gather_keys self hgetall listed start))
          op)
      ∙ ran in
    let (g, found, same) =
      map-eq-some (with_keys self) (gather_keys self hgetall listed start) ran' in
    subst (λ (x : Options × BatchedCreaterepo). IsTaken k x.1.notify_keys) same
      (gather_keys-Takes self hgetall k task (visit_pending self hgetall k task pending) listed
        there start g found)
