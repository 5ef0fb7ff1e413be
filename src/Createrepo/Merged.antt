-- ===== src/Createrepo/Merged.antt =====
-- The merged options do the work of every process that will be told that its request is done.
use copr.Base.{◌≡◌, ◌⊎◌, List, true, false, arith, Bool-cases, inl, inr}
use copr.Base.Equality.{Text, text_eq, bool_eq}
use copr.Base.Dict.{update, contains-update, Subset}
use copr.Createrepo.{CreaterepoTask, Options, merge}

-- The options do what the task asks for: its deletions, and a full run or its additions.
pub record Covers (o : Options) (task : CreaterepoTask) : Type 0 where
  pub deletes : Subset task.delete o.delete
  pub removes : Subset task.rpms_to_remove o.rpms_to_remove
  pub full : task.full ≡ true → o.full ≡ true
  pub adds : (o.full ≡ true) ⊎ Subset task.add o.add

-- `o` does all that `p` does.
pub record Extends (o p : Options) : Type 0 where
  pub more_deletes : Subset p.delete o.delete
  pub more_removes : Subset p.rpms_to_remove o.rpms_to_remove
  pub still_full : p.full ≡ true → o.full ≡ true
  pub more_adds : (o.full ≡ true) ⊎ ((p.full ≡ false) × Subset p.add o.add)

Subset-update_left : (s xs : List Text) → Subset s (update s xs)
Subset-update_left s xs a h = ground (arith, contains-update s xs a)

Subset-update_right : (s xs : List Text) → Subset xs (update s xs)
Subset-update_right s xs a h = ground (arith, contains-update s xs a)

merge_adds :
    (task : CreaterepoTask) (o : Options)
    → ((merge task o).full ≡ true)
      ⊎ ((o.full ≡ false) × Subset o.add (merge task o).add × Subset task.add (merge task o).add)
unfolding merge
merge_adds task o = elim (Bool-cases o.full) [
  | inl f ↦ inl (ground arith)
  | inr f ↦ elim (Bool-cases task.full) [
    | inl t ↦ inl (ground arith)
    | inr t ↦ inr (
      f,
      λ a h. ground (arith, contains-update o.add task.add a),
      λ a h. ground (arith, contains-update o.add task.add a),
    )
  ]
]

pub merge-Extends : (task : CreaterepoTask) (o : Options) → Extends (merge task o) o
unfolding merge
merge-Extends task o = record {
  more_deletes = Subset-update_left o.delete task.delete;
  more_removes = Subset-update_left o.rpms_to_remove task.rpms_to_remove;
  still_full = λ h. ground arith;
  more_adds = elim (merge_adds task o) [ inl f ↦ inl f | inr h ↦ inr (h.0, h.1) ];
}

pub merge-Covers : (task : CreaterepoTask) (o : Options) → Covers (merge task o) task
unfolding merge
merge-Covers task o = record {
  deletes = Subset-update_right o.delete task.delete;
  removes = Subset-update_right o.rpms_to_remove task.rpms_to_remove;
  full = λ h. ground arith;
  adds = elim (merge_adds task o) [ inl f ↦ inl f | inr h ↦ inr h.2 ];
}

pub Covers-Extends :
    (o p : Options) (task : CreaterepoTask) → Extends o p → Covers p task → Covers o task
Covers-Extends o p task e c = record {
  deletes = λ a h. e.more_deletes a (c.deletes a h);
  removes = λ a h. e.more_removes a (c.removes a h);
  full = λ h. e.still_full (c.full h);
  adds = elim e.more_adds [
    | inl f ↦ inl f
    | inr m ↦ elim c.adds [ inl f ↦ cc | inr a ↦ inr (λ x h. m.1 x (a x h)) ]
  ];
}
