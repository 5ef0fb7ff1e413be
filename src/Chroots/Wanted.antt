-- ===== src/Chroots/Wanted.antt =====
-- What `update_from_names` of frontend/coprs_frontend/coprs/logic/coprs_logic.py is to come to, put
-- without its own functions: which mock chroots are named, what becomes of a row that is dropped, and
-- which build chroots are over.
use copr.Base.{
  ℕ, ◌+◌, ◌*◌, ◌≡◌, refl, ap, Option, none, some, List, [], ◌∷◌, Bool, true, false, not, ◌&&◌, ◌||◌,
  ◌==◌, arith, All, if◌then◌else◌, ==_iff, Bool-cases, inl, inr,
}
use mathlib.Core.Option
use copr.Base.Equality.{Text, nat_eq, text_eq}
use copr.Base.Dict.{contains}
use copr.Frontend.Status.{
  Status, status_eq, value, failed, succeeded, canceled, running, pending, skipped, starting,
  importing, forked, waiting, unknown,
}
use copr.Chroots.{MockChroot, CoprChroot, name, day}
use copr.Chroots.Edit.{BuildRow}
use copr.Chroots.Names.{
  mock_chroots_from_names, has_mock, is_unfinished, is_of, unfinished_buildchroot,
}
use copr.Chroots.Loops.{if_active}

-- One of the mock chroots with the id has one of the names.
unfoldable pub is_named : List MockChroot → List Text → ℕ → Bool
is_named [] names id = false
is_named (m ∷ ms) names id = (m.id == id && contains names (name m)) || is_named ms names id

pub has_mock-mock_chroots_from_names :
    (ms : List MockChroot) (names : List Text) (id : ℕ)
    → has_mock (mock_chroots_from_names ms names) id ≡ is_named ms names id
unfolding has_mock mock_chroots_from_names is_named
has_mock-mock_chroots_from_names [] names id = refl
has_mock-mock_chroots_from_names (m ∷ ms) names id =
    ground (arith, has_mock-mock_chroots_from_names ms names id)

-- A row of the project that is not named: with an active mock chroot it is disabled, and its data has
-- seven more days if it was enabled.
abbrev pub dropped : Bool → ℕ → CoprChroot → CoprChroot
dropped active now cc = record cc {
  delete_after = if active && not cc.deleted then some (now + 7 * day) else cc.delete_after;
  deleted = cc.deleted || active;
}

with_deleted : CoprChroot → Bool → CoprChroot
with_deleted x b = record x { deleted = b }

or_false : (b : Bool) → b ≡ (b || false)
or_false true = refl
or_false false = refl

if_active-dropped :
    (active : Bool) (now : ℕ) (x : CoprChroot) → if_active active now x ≡ dropped active now x
unfolding with_deleted
if_active-dropped true now x = elim (Bool-cases x.deleted) [
  | inl gone ↦ simp gone (ap (with_deleted x) gone)
  | inr there ↦ simp there refl
]
if_active-dropped false now x = ap (with_deleted x) (or_false x.deleted)

pub map-dropped :
    (active : Bool) (now : ℕ) (o : Option CoprChroot)
    → Option.map (if_active active now) o ≡ Option.map (dropped active now) o
map-dropped active now none = refl
map-dropped active now (some cc) = ap some (if_active-dropped active now cc)

-- Nothing more is to come of a build chroot; one without a status is not known to run.
unfoldable pub is_over : Option Status → Bool
is_over none = true
is_over (some failed) = true
is_over (some succeeded) = true
is_over (some canceled) = true
is_over (some skipped) = true
is_over (some forked) = true
is_over (some running) = false
is_over (some pending) = false
is_over (some starting) = false
is_over (some importing) = false
is_over (some waiting) = false
is_over (some unknown) = false

is_over-is_unfinished : (o : Option Status) → is_over o ≡ not (is_unfinished o)
unfolding is_over contains value
is_over-is_unfinished none = refl
is_over-is_unfinished (some failed) = refl
is_over-is_unfinished (some succeeded) = refl
is_over-is_unfinished (some canceled) = refl
is_over-is_unfinished (some skipped) = refl
is_over-is_unfinished (some forked) = refl
is_over-is_unfinished (some running) = refl
is_over-is_unfinished (some pending) = refl
is_over-is_unfinished (some starting) = refl
is_over-is_unfinished (some importing) = refl
is_over-is_unfinished (some waiting) = refl
is_over-is_unfinished (some unknown) = refl

-- All the build chroots of a chroot are over.
abbrev pub IsQuiet : CoprChroot → List BuildRow → Type 0
IsQuiet cc bs = All (λ (b : BuildRow). b.copr_chroot_id ≡ some cc.id → is_over b.status ≡ true) bs

is_of_own : (id : ℕ) (o : Option ℕ) → o ≡ some id → is_of id o ≡ true
is_of_own id o h = rw h ((==_iff id id).1 refl)

pub unfinished_buildchroot-IsQuiet :
    (cc : CoprChroot) (bs : List BuildRow) → unfinished_buildchroot cc bs ≡ [] → IsQuiet cc bs
unfolding unfinished_buildchroot
unfinished_buildchroot-IsQuiet cc [] h = tt
unfinished_buildchroot-IsQuiet cc (b ∷ bs) h = (
  (λ own. ground (arith, h, is_of_own cc.id b.copr_chroot_id own, is_over-is_unfinished b.status)),
  unfinished_buildchroot-IsQuiet cc bs (ground (arith, h)),
)
