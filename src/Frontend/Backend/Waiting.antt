-- ===== src/Frontend/Backend/Waiting.antt =====
-- Which actions `pending_actions` of
-- frontend/coprs_frontend/coprs/views/backend_ns/backend_general.py gives to the backend.
use copr.Base.{
  ◌≡◌, refl, ◌∙◌, Option, none, some, List, [], ◌∷◌, ◌++◌, Bool, true, false, not, arith, ◌&&◌,
  ◌||◌, if◌then◌else◌, All, Bool-cases, inl, inr,
}
use copr.Base.Equality.{Text, text_eq, beq}
use copr.Base.Dict.{contains, add, contains-add}
use copr.Frontend.Backend.{
  Action, ActionData, data_of, is_busy, pending_actions_from, pending_actions,
}

abbrev pub is_named : Option Text → Text → Bool
is_named none name = false
is_named (some n) name = beq n name

-- Some action of the list deletes the project with the name.
unfoldable pub deleted_by : List Action → Text → Bool
deleted_by [] name = false
deleted_by (a ∷ later) name =
    (a.deletes_project && is_named a.project name) || deleted_by later name

abbrev pub is_overtaken : List Action → Option Text → Bool
is_overtaken earlier none = false
is_overtaken earlier (some name) = deleted_by earlier name

-- All actions but those of a project which an earlier action deletes; deletions of projects are all
-- there.
unfoldable pub expected : List Action → List Action → List ActionData
unfolding deleted_by
expected earlier [] = []
expected earlier (a ∷ later) =
    let rest = expected (earlier ++ a ∷ []) later in
    if a.deletes_project || not (is_overtaken earlier a.project) then data_of a ∷ rest else rest

deleted_by-append :
    (xs : List Action) (a : Action) (name : Text)
    → deleted_by (xs ++ a ∷ []) name
      ≡ (deleted_by xs name || (a.deletes_project && is_named a.project name))
unfolding deleted_by
deleted_by-append [] a name = ground arith
deleted_by-append (x ∷ xs) a name = ground (arith, deleted_by-append xs a name)

-- The busy namespaces are those of the deletions that came before.
abbrev Knows : List Text → List Action → Type 0
Knows busy earlier = (name : Text) → contains busy name ≡ deleted_by earlier name

busy_lem :
    (busy : List Text) (earlier : List Action) (o : Option Text)
    → Knows busy earlier
    → is_busy busy o ≡ is_overtaken earlier o
busy_lem busy earlier none knows = refl
busy_lem busy earlier (some name) knows = knows name

deletion-Knows :
    (busy : List Text) (earlier : List Action) (a : Action) (name : Text)
    → a.deletes_project ≡ true
    → a.project ≡ some name
    → Knows busy earlier
    → Knows (add busy name) (earlier ++ a ∷ [])
deletion-Knows busy earlier a name del named knows n =
    contains-add busy name n ∙ ground (arith, deleted_by-append earlier a n, knows n, del, named)

other-Knows :
    (busy : List Text) (earlier : List Action) (a : Action)
    → a.deletes_project ≡ false
    → Knows busy earlier
    → Knows busy (earlier ++ a ∷ [])
other-Knows busy earlier a del knows n = ground (arith, deleted_by-append earlier a n, knows n, del)

abbrev pub HasProject : Action → Type 0
HasProject a = a.deletes_project ≡ true → (name : Text) × (a.project ≡ some name)

skip_or_keep :
    (b : Bool) (x y : List ActionData)
    → (if b then some x else some y) ≡ some (if not b then y else x)
skip_or_keep true x y = refl
skip_or_keep false x y = refl

pending_actions_from-expected :
    (busy : List Text) (earlier waiting : List Action)
    → Knows busy earlier
    → All HasProject waiting
    → pending_actions_from busy waiting ≡ some (expected earlier waiting)
unfolding pending_actions_from expected
pending_actions_from-expected busy earlier [] knows has = refl
pending_actions_from-expected busy earlier (a ∷ later) knows has =
    elim (Bool-cases a.deletes_project) [
      | inl del ↦
          let (name, named) = has.0 del in
          let ih =
            pending_actions_from-expected (add busy name) (earlier ++ a ∷ []) later
              (deletion-Knows busy earlier a name del named knows) has.1 in
          simp (del, named, ih) refl
      | inr other ↦
          let ih =
            pending_actions_from-expected busy (earlier ++ a ∷ []) later
              (other-Knows busy earlier a other knows) has.1 in
          simp (other, busy_lem busy earlier a.project knows, ih)
            (skip_or_keep (is_overtaken earlier a.project) _ _)
    ]

-- Where each deletion of a project has its project, the backend is given the waiting actions in order,
-- all deletions of projects among them, but without the other actions of a project that an action
-- before them deletes.
pub pending_actions-expected :
    (waiting : List Action)
    → All HasProject waiting
    → pending_actions waiting ≡ some (expected [] waiting)
unfolding pending_actions contains deleted_by
pending_actions-expected waiting has =
    pending_actions_from-expected [] [] waiting (λ name. refl) has
