-- ===== src/Chroots/Noticed.antt =====
-- Who gets a mail about which chroot, in one run of `notify_outdated_chroots_function` of
-- frontend/coprs_frontend/commands/notify_outdated_chroots.py.
use copr.Base.{
  ℕ, ◌<◌, ◌≡◌, refl, ◌∙◌, Option, none, some, List, [], ◌∷◌, ◌++◌, Bool, true, false, ◌&&◌, ◌||◌,
  arith, ◌==◌, ==_iff, if_ind, Bool-cases, inl, inr,
}
use mathlib.Core.Path.{subst}
use copr.Base.Dict.{Dict}
use copr.Frontend.User.{Permission}
use copr.Chroots.{CoprChroot}
use copr.Chroots.Edit.{is_row, row}
use copr.Chroots.Rows.{row-put_chroot, row-is_row}
use copr.Chroots.Commands.{
  Key, is_due, is_due_row, filter_chroots, notified, mark_notified, Mail, notify, notify_each,
  get_user_chroots_map, notify_outdated_chroots_function,
}

unfoldable pub has_key : List Key → ℕ → ℕ → Bool
has_key [] c m = false
has_key (k ∷ ks) c m = k.copr_id == c && k.mock_chroot_id == m || has_key ks c m

unfoldable pub mailed : List Mail → ℕ → ℕ → Bool
unfolding has_key
mailed [] c m = false
mailed (mail ∷ mails) c m = has_key mail.chroots c m || mailed mails c m

-- No two mails are about the same chroot.
abbrev pub IsOncePerChroot : List Mail → Type 0
IsOncePerChroot [] = Unit
IsOncePerChroot (mail ∷ mails) =
    ((c m : ℕ) → has_key mail.chroots c m ≡ true → mailed mails c m ≡ false) × IsOncePerChroot mails

pub mailed-append :
    (xs ys : List Mail) (c m : ℕ) → mailed (xs ++ ys) c m ≡ (mailed xs c m || mailed ys c m)
unfolding mailed
mailed-append [] ys c m = refl
mailed-append (x ∷ xs) ys c m = ground (arith, mailed-append xs ys c m)

module _ (period now : ℕ) where
  -- The row was notified so lately that it is passed over.
  abbrev pub IsRecent : List CoprChroot → ℕ → ℕ → Type 0
  IsRecent rows c m = is_due_row period now (row rows c m) ≡ false

  recent-filter :
      (rows : List CoprChroot) (ks : List Key) (c m : ℕ)
      → IsRecent rows c m
      → has_key (filter_chroots period now rows ks) c m ≡ false
  unfolding filter_chroots has_key
  recent-filter rows [] c m recent = refl
  recent-filter rows (k ∷ ks) c m recent = ground (
    arith,
    recent-filter rows ks c m recent,
    recent,
    ==_iff k.copr_id c,
    ==_iff k.mock_chroot_id m,
  )

  pub filter-due :
      (rows : List CoprChroot) (ks : List Key) (c m : ℕ)
      → has_key (filter_chroots period now rows ks) c m ≡ true
      → is_due_row period now (row rows c m) ≡ true
  unfolding filter_chroots has_key
  filter-due rows [] c m h = ground (arith, h)
  filter-due rows (k ∷ ks) c m h =
      ground (arith, filter-due rows ks c m, h, ==_iff k.copr_id c, ==_iff k.mock_chroot_id m)

  module _ (positive : 0 < period) where
    just_notified : is_due period now (some now) ≡ false
    just_notified = ground (arith, positive)

    notified-keeps :
        (o : Option CoprChroot) (rows : List CoprChroot) (c m : ℕ)
        → IsRecent rows c m
        → IsRecent (notified now o rows) c m
    notified-keeps none rows c m recent = recent
    notified-keeps (some x) rows c m recent = ground (
      arith,
      row-put_chroot rows (record x { delete_notify = some now }) c m,
      just_notified,
      recent,
    )

    pub mark-keeps :
        (ks : List Key) (rows : List CoprChroot) (c m : ℕ)
        → IsRecent rows c m
        → IsRecent (mark_notified now ks rows) c m
    unfolding mark_notified
    mark-keeps [] rows c m recent = recent
    mark-keeps (k ∷ ks) rows c m recent =
        let o = row rows k.copr_id k.mock_chroot_id in
        mark-keeps ks (notified now o rows) c m (notified-keeps o rows c m recent)

    notified-makes :
        (o : Option CoprChroot) (rows : List CoprChroot) (c m : ℕ)
        → row rows c m ≡ o
        → IsRecent (notified now o rows) c m
    unfolding is_row
    notified-makes none rows c m here = ground (arith, here)
    notified-makes (some x) rows c m here = ground (
      arith,
      row-put_chroot rows (record x { delete_notify = some now }) c m,
      just_notified,
      row-is_row rows x c m here,
      here,
    )

    this_key :
        (k : Key) (c m : ℕ) (rows : List CoprChroot)
        → (k.copr_id == c && k.mock_chroot_id == m) ≡ true
        → IsRecent (notified now (row rows k.copr_id k.mock_chroot_id) rows) c m
    this_key k c m rows same =
        let o = row rows k.copr_id k.mock_chroot_id in
        subst (λ i. IsRecent (notified now o rows) i m)
          ((==_iff k.copr_id c).0 (ground (arith, same)))
          (subst (λ i. IsRecent (notified now o rows) k.copr_id i)
            ((==_iff k.mock_chroot_id m).0 (ground (arith, same)))
            (notified-makes o rows k.copr_id k.mock_chroot_id refl))

    pub mark-makes :
        (ks : List Key) (rows : List CoprChroot) (c m : ℕ)
        → has_key ks c m ≡ true
        → IsRecent (mark_notified now ks rows) c m
    unfolding mark_notified has_key
    mark-makes [] rows c m there = ground (arith, there)
    mark-makes (k ∷ ks) rows c m there =
        let o = row rows k.copr_id k.mock_chroot_id in
        elim (Bool-cases (has_key ks c m)) [
          | inl later ↦ mark-makes ks (notified now o rows) c m later
          | inr here ↦
              mark-keeps ks (notified now o rows) c m
                (this_key k c m rows (ground (arith, there, here)))
        ]

    module _ (sends : ℕ → Bool) (u : ℕ) where
      notify-keeps :
          (ks : List Key) (rows : List CoprChroot) (c m : ℕ)
          → IsRecent rows c m
          → IsRecent (notify sends now u ks rows).1 c m
      notify-keeps [] rows c m recent = recent
      notify-keeps (k ∷ ks) rows c m recent =
          if_ind (λ (r : List Mail × List CoprChroot). IsRecent r.1 c m) (sends u)
            (mark-keeps (k ∷ ks) rows c m recent) recent

      -- Who gets a mail gets it about chroots of the list, which are recent from then on.
      abbrev Sends : List Key → List Mail × List CoprChroot → Type 0
      Sends ks r = (c m : ℕ) → mailed r.0 c m ≡ true → (has_key ks c m ≡ true) × IsRecent r.1 c m

      notify-Sends :
          (ks : List Key) (rows : List CoprChroot) → Sends ks (notify sends now u ks rows)
      unfolding mailed
      notify-Sends [] rows = λ c m there. ground (arith, there)
      notify-Sends (k ∷ ks) rows =
          if_ind (Sends (k ∷ ks)) (sends u)
            (λ c m there.
              let has : has_key (k ∷ ks) c m ≡ true = ground (arith, there) in
              (has, mark-makes (k ∷ ks) rows c m has))
            (λ c m there. ground (arith, there))

      notify-once :
          (ks : List Key) (rows : List CoprChroot) (later : List Mail)
          → ((c m : ℕ)
              → mailed (notify sends now u ks rows).0 c m ≡ true
              → mailed later c m ≡ false)
          → IsOncePerChroot later
          → IsOncePerChroot ((notify sends now u ks rows).0 ++ later)
      unfolding mailed
      notify-once [] rows later = λ apart once. once
      notify-once (k ∷ ks) rows later =
          if_ind
            (λ (r : List Mail × List CoprChroot).
              ((c m : ℕ) → mailed r.0 c m ≡ true → mailed later c m ≡ false)
              → IsOncePerChroot later
              → IsOncePerChroot (r.0 ++ later))
            (sends u) (λ apart once. ((λ c m h. apart c m (ground (arith, h))), once))
            (λ apart once. once)

    -- What is recent gets no mail.
    recent-mailed :
        (sends : ℕ → Bool) (users : Dict ℕ (List Key)) (rows : List CoprChroot) (c m : ℕ)
        → IsRecent rows c m
        → mailed (notify_each sends period now users rows).0 c m ≡ false
    unfolding notify_each mailed
    recent-mailed sends [] rows c m recent = refl
    recent-mailed sends ((u, ks) ∷ users) rows c m recent =
        let due = filter_chroots period now rows ks in
        let first = notify sends now u due rows in
        mailed-append first.0 (notify_each sends period now users first.1).0 c m
        ∙ ground (
          arith,
          notify-Sends sends u due rows c m,
          recent-filter rows ks c m recent,
          recent-mailed sends users first.1 c m (notify-keeps sends u due rows c m recent),
        )

    once_per_chroot :
        (sends : ℕ → Bool) (users : Dict ℕ (List Key)) (rows : List CoprChroot)
        → IsOncePerChroot (notify_each sends period now users rows).0
    unfolding notify_each
    once_per_chroot sends [] rows = tt
    once_per_chroot sends ((u, ks) ∷ users) rows =
        let due = filter_chroots period now rows ks in
        let first = notify sends now u due rows in
        notify-once sends u due rows (notify_each sends period now users first.1).0
          (λ c m h. recent-mailed sends users first.1 c m (notify-Sends sends u due rows c m h).1)
          (once_per_chroot sends users first.1)

-- In one run no two mails are about the same chroot; with a period of at least a day.
pub notify_outdated_chroots_function-IsOncePerChroot :
    (table : List Permission) (wanted sends : ℕ → Bool) (period now : ℕ) (rows : List CoprChroot)
    → 0 < period
    → IsOncePerChroot (notify_outdated_chroots_function table wanted sends period now rows).0
unfolding notify_outdated_chroots_function
notify_outdated_chroots_function-IsOncePerChroot table wanted sends period now rows positive =
    once_per_chroot period now positive sends (get_user_chroots_map table wanted now rows []) rows
