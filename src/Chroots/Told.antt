-- ===== src/Chroots/Told.antt =====
-- Whom `notify_outdated_chroots_function` of
-- frontend/coprs_frontend/commands/notify_outdated_chroots.py tells of a chroot.
use copr.Base.{
  ℕ, ◌<◌, ◌≡◌, refl, ap, ◌∙◌, Option, none, some, List, [], ◌∷◌, ◌++◌, Bool, true, false, ◌&&◌,
  arith, ◌==◌, ==_iff, Bool-cases, inl, inr, if◌then◌else◌,
}
use copr.Base.Dict.{Dict}
use copr.Chroots.{CoprChroot}
use copr.Chroots.Edit.{is_row, row}
use copr.Chroots.Rows.{row-put_chroot_other, row-is_row, is_row_other}
use copr.Chroots.Commands.{
  Key, is_due_row, filter_chroots, notified, mark_notified, Mail, notify, notify_each,
}
use copr.Chroots.Noticed.{has_key, mark-makes}

-- The user to whom the first mail about the chroot went.
unfoldable pub recipient : List Mail → ℕ → ℕ → Option ℕ
recipient [] c m = none
recipient (mail ∷ mails) c m =
    if has_key mail.chroots c m then some mail.user_id else recipient mails c m

-- The first of the users listed with the chroot to whom a mail can be sent.
unfoldable pub first_reachable : (ℕ → Bool) → Dict ℕ (List Key) → ℕ → ℕ → Option ℕ
first_reachable sends [] c m = none
first_reachable sends ((u, ks) ∷ users) c m =
    if sends u && has_key ks c m then some u else first_reachable sends users c m

or_else : Option ℕ → Option ℕ → Option ℕ
or_else none o = o
or_else (some u) o = some u

turn_lem :
    (s h d : Bool) (u : ℕ) (o : Option ℕ)
    → or_else
        (if s && (h && d) then some u else none)
        (if (if s && (h && d) then false else d) then o else none)
      ≡ (if d then (if s && h then some u else o) else none)
unfolding or_else
turn_lem true true true u o = refl
turn_lem true true false u o = refl
turn_lem true false true u o = refl
turn_lem true false false u o = refl
turn_lem false true true u o = refl
turn_lem false true false u o = refl
turn_lem false false true u o = refl
turn_lem false false false u o = refl

recipient-append :
    (xs ys : List Mail) (c m : ℕ)
    → recipient (xs ++ ys) c m ≡ or_else (recipient xs c m) (recipient ys c m)
unfolding recipient or_else
recipient-append [] ys c m = refl
recipient-append (x ∷ xs) ys c m = elim (Bool-cases (has_key x.chroots c m)) [
  | inl here ↦ simp here refl
  | inr there ↦ simp there (recipient-append xs ys c m)
]

module _ (period now : ℕ) where
  has_key-filter_chroots :
      (rows : List CoprChroot) (ks : List Key) (c m : ℕ)
      → has_key (filter_chroots period now rows ks) c m
        ≡ (has_key ks c m && is_due_row period now (row rows c m))
  unfolding filter_chroots has_key
  has_key-filter_chroots rows [] c m = refl
  has_key-filter_chroots rows (k ∷ ks) c m =
      ground
        (arith, has_key-filter_chroots rows ks c m, ==_iff k.copr_id c, ==_iff k.mock_chroot_id m)

  recipient-notify :
      (sends : ℕ → Bool) (u : ℕ) (ks : List Key) (rows : List CoprChroot) (c m : ℕ)
      → recipient (notify sends now u ks rows).0 c m
        ≡ (if sends u && has_key ks c m then some u else none)
  unfolding recipient has_key
  recipient-notify sends u [] rows c m = elim (Bool-cases (sends u)) [
    | inl able ↦ simp able refl
    | inr not_able ↦ simp not_able refl
  ]
  recipient-notify sends u (k ∷ ks) rows c m = elim (Bool-cases (sends u)) [
    | inl able ↦ simp able refl
    | inr not_able ↦ simp not_able refl
  ]

  -- A row whose key is not among those notified stays.
  notified_other :
      (k : Key) (rows : List CoprChroot) (c m : ℕ)
      → (k.copr_id == c && k.mock_chroot_id == m) ≡ false
      → (o : Option CoprChroot) → row rows k.copr_id k.mock_chroot_id ≡ o
      → row (notified now o rows) c m ≡ row rows c m
  unfolding is_row
  notified_other k rows c m other none found = refl
  notified_other k rows c m other (some x) found =
      row-put_chroot_other rows (record x { delete_notify = some now }) c m
        (is_row_other k.copr_id k.mock_chroot_id c m (record x { delete_notify = some now })
          (row-is_row rows x k.copr_id k.mock_chroot_id found) other)

  row-mark_notified :
      (ks : List Key) (rows : List CoprChroot) (c m : ℕ)
      → has_key ks c m ≡ false
      → row (mark_notified now ks rows) c m ≡ row rows c m
  unfolding mark_notified has_key
  row-mark_notified [] rows c m none_there = refl
  row-mark_notified (k ∷ ks) rows c m none_there =
      let o = row rows k.copr_id k.mock_chroot_id in
      row-mark_notified ks (notified now o rows) c m (ground (arith, none_there))
      ∙ notified_other k rows c m (ground (arith, none_there)) o refl

  module _ (positive : 0 < period) (sends : ℕ → Bool) where
    -- Whether the row is due after a user's turn.
    due-notify :
        (u : ℕ) (ks : List Key) (rows : List CoprChroot) (c m : ℕ)
        → is_due_row period now (row (notify sends now u ks rows).1 c m)
          ≡ (if sends u && has_key ks c m then false else is_due_row period now (row rows c m))
    unfolding has_key
    due-notify u [] rows c m = elim (Bool-cases (sends u)) [
      | inl able ↦ simp able refl
      | inr not_able ↦ simp not_able refl
    ]
    due-notify u (k ∷ ks) rows c m = elim (Bool-cases (sends u)) [
      | inl able ↦ elim (Bool-cases (has_key (k ∷ ks) c m)) [
        | inl there ↦ simp (able, there) (mark-makes period now positive (k ∷ ks) rows c m there)
        | inr absent ↦
            simp (able, absent)
              (ap (is_due_row period now) (row-mark_notified (k ∷ ks) rows c m absent))
      ]
      | inr not_able ↦ simp not_able refl
    ]

    pub recipient-notify_each :
        (users : Dict ℕ (List Key)) (rows : List CoprChroot) (c m : ℕ)
        → recipient (notify_each sends period now users rows).0 c m
          ≡ (if is_due_row period now (row rows c m) then first_reachable sends users c m else none)
    unfolding notify_each recipient first_reachable or_else
    recipient-notify_each [] rows c m = elim (Bool-cases (is_due_row period now (row rows c m))) [
      | inl due ↦ simp due refl
      | inr late ↦ simp late refl
    ]
    recipient-notify_each ((u, ks) ∷ users) rows c m =
        let due = filter_chroots period now rows ks in
        let first = notify sends now u due rows in
        recipient-append first.0 (notify_each sends period now users first.1).0 c m
        ∙ rw
            (
              recipient-notify sends u due rows c m,
              recipient-notify_each users first.1 c m,
              due-notify u due rows c m,
              has_key-filter_chroots rows ks c m,
            )
            (turn_lem (sends u) (has_key ks c m) (is_due_row period now (row rows c m)) u
              (first_reachable sends users c m))
