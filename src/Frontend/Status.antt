-- ===== src/Frontend/Status.antt =====
-- The build states: `StatusEnum` of common/copr_common/enums.py, whose members the database keeps as
-- numbers, with the sets of states that frontend/coprs_frontend/coprs names.
use copr.Base.{
  ℕ, ◌≡◌, ◌↔◌, if_cases, refl, sym, ap, ◌∙◌, Option, none, some, List, [], ◌∷◌, true, ◌==◌, ==_iff,
  if◌then◌else◌,
}
use copr.Base.Equality.{Eq}
use copr.Base.Maybe.{some_path}

pub data Status : Type 0 where
  failed succeeded canceled running pending skipped starting importing forked waiting unknown :
      Status

-- `StatusEnum("…")`
unfoldable pub value : Status → ℕ
value failed = 0
value succeeded = 1
value canceled = 2
value running = 3
value pending = 4
value skipped = 5
value starting = 6
value importing = 7
value forked = 8
value waiting = 9
value unknown = 1000

abbrev pub vals : List Status
vals =
    failed ∷ succeeded ∷ canceled ∷ running ∷ pending ∷ skipped ∷ starting ∷ importing ∷ forked
    ∷ waiting ∷ unknown ∷ []

-- `for k, v in cls.vals.items()`
unfoldable pub find_value : List Status → ℕ → Option Status
unfolding value
find_value [] attr = none
find_value (k ∷ ks) attr = if value k == attr then some k else find_value ks attr

-- `StatusEnum(<int>)`, where `none` is the KeyError.
unfoldable pub of_value : ℕ → Option Status
unfolding find_value
of_value attr = find_value vals attr

pub of_value-value : (s : Status) → of_value (value s) ≡ some s
unfolding of_value find_value value
of_value-value failed = refl
of_value-value succeeded = refl
of_value-value canceled = refl
of_value-value running = refl
of_value-value pending = refl
of_value-value skipped = refl
of_value-value starting = refl
of_value-value importing = refl
of_value-value forked = refl
of_value-value waiting = refl
of_value-value unknown = refl

value_injective : (s t : Status) → value s ≡ value t → s ≡ t
value_injective s t h = some_path (sym (of_value-value s) ∙ ap of_value h ∙ of_value-value t)

find_value-value : (ks : List Status) (n : ℕ) (s : Status) → find_value ks n ≡ some s → value s ≡ n
unfolding find_value
find_value-value [] n s h = cc
find_value-value (k ∷ ks) n s h =
    if_cases (λ r. r ≡ some s → value s ≡ n) (value k == n)
      (λ here found. sym (ap value (some_path found)) ∙ (==_iff (value k) n).0 here)
      (λ there found. find_value-value ks n s found) h

-- A number is what the name `s` is mapped to exactly when `StatusEnum` maps that number back to `s`.
pub of_value_iff : (n : ℕ) (s : Status) → (of_value n ≡ some s) ↔ (value s ≡ n)
unfolding of_value
of_value_iff n s = (find_value-value vals n s, λ h. rw (sym h) (of_value-value s))

pub status_beq_iff : (s t : Status) → ((value s == value t) ≡ true) ↔ (s ≡ t)
status_beq_iff s t = (
  λ h. value_injective s t ((==_iff (value s) (value t)).0 h),
  λ h. (==_iff (value s) (value t)).1 (ap value h),
)

instance abbrev pub status_eq : Eq Status
status_eq = record { beq = λ s t. value s == value t; beq_iff = status_beq_iff }

-- helpers.py, FINISHED_STATES.
abbrev pub finished_states : List Status
finished_states = succeeded ∷ forked ∷ canceled ∷ skipped ∷ failed ∷ []

-- logic/builds_logic.py, BuildsLogic.terminal_states.
abbrev pub terminal_states : List Status
terminal_states = failed ∷ succeeded ∷ canceled ∷ []
