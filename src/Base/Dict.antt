-- ===== src/Base/Dict.antt =====
-- Python's `dict` and `set`: an association list with the keys in the order of insertion.
-- `put` overwrites in place, as Python does, and `remove` drops every entry of the key.
use mathlib.Core.Path.{◌≡◌, refl}
use mathlib.Core.Bool.{Bool, true, false, ◌||◌}
use mathlib.Core.Option.{Option, none, some}
use mathlib.Core.List.{List, [], ◌∷◌, ◌++◌}
use native.Mathlib.Omega.{arith}
use Prim.Native.Nat.{suc, ◌≤◌}
use copr.Base.Lists.{length, length-append}
use copr.Base.Tests.{if◌then◌else◌}
use copr.Base.Equality.{Eq, beq, beq_iff}

abbrev pub Dict {ℓ κ} : Type ℓ → Type κ → Type (ℓ ⊔ κ)
Dict K V = List (K × V)

module _ {ℓ κ} {K : Type ℓ} {V : Type κ} ⦃e : Eq K⦄ where
  -- d.get(k)
  unfoldable pub get : Dict K V → K → Option V
  get [] k = none
  get ((j, v) ∷ d) k = if beq j k then some v else get d k

  -- d[k] = v
  unfoldable pub put : Dict K V → K → V → Dict K V
  put [] k v = (k, v) ∷ []
  put ((j, w) ∷ d) k v = if beq j k then (j, v) ∷ d else (j, w) ∷ put d k v

  -- d.pop(k, None)
  unfoldable pub remove : Dict K V → K → Dict K V
  remove [] k = []
  remove ((j, w) ∷ d) k = let rest = remove d k in if beq j k then rest else (j, w) ∷ rest

  pub get-put :
      (d : Dict K V) (k : K) (v : V) (j : K)
      → get (put d k v) j ≡ (if beq k j then some v else get d j)
  unfolding get put
  get-put [] k v j = refl
  get-put ((i, w) ∷ d) k v j =
      ground (arith, get-put d k v j, beq_iff i k, beq_iff i j, beq_iff k j)

  pub get-remove :
      (d : Dict K V) (k j : K) → get (remove d k) j ≡ (if beq k j then none else get d j)
  unfolding get remove
  get-remove [] k j = ground arith
  get-remove ((i, w) ∷ d) k j =
      ground (arith, get-remove d k j, beq_iff i k, beq_iff i j, beq_iff k j)

module _ {ℓ κ} {K : Type ℓ} {V : Type κ} where
  unfoldable pub keys : Dict K V → List K
  keys [] = []
  keys ((k, v) ∷ d) = k ∷ keys d

module _ {ℓ} {A : Type ℓ} ⦃e : Eq A⦄ where
  -- x in xs
  unfoldable pub contains : List A → A → Bool
  contains [] a = false
  contains (x ∷ xs) a = beq x a || contains xs a

  -- s.add(x)
  unfoldable pub add : List A → A → List A
  unfolding contains
  add s a = if contains s a then s else s ++ a ∷ []

  -- s.discard(x)
  unfoldable pub discard : List A → A → List A
  discard [] a = []
  discard (x ∷ xs) a = let rest = discard xs a in if beq x a then rest else x ∷ rest

  pub contains-append :
      (xs ys : List A) (a : A) → contains (xs ++ ys) a ≡ (contains xs a || contains ys a)
  unfolding contains
  contains-append [] ys a = refl
  contains-append (x ∷ xs) ys a = ground (arith, contains-append xs ys a)

  pub contains-add : (s : List A) (a b : A) → contains (add s a) b ≡ (contains s b || beq a b)
  unfolding add contains
  contains-add s a b = ground (arith, contains-append s (a ∷ []) b, beq_iff a b)

  pub contains-discard :
      (s : List A) (a b : A) → contains (discard s a) b ≡ (if beq a b then false else contains s b)
  unfolding discard contains
  contains-discard [] a b = ground arith
  contains-discard (x ∷ s) a b =
      ground (arith, contains-discard s a b, beq_iff x a, beq_iff x b, beq_iff a b)

module _ {ℓ} {A : Type ℓ} ⦃e : Eq A⦄ where
  pub length-discard : (s : List A) (a : A) → length (discard s a) ≤ length s
  unfolding discard
  length-discard [] a = omega arith
  length-discard (x ∷ s) a = ground (arith, length-discard s a)

  pub length-add : (s : List A) (a : A) → length (add s a) ≤ suc (length s)
  unfolding add
  length-add s a = ground (arith, length-append s (a ∷ []))

module _ {ℓ} {A : Type ℓ} ⦃e : Eq A⦄ where
  -- s.update(xs)
  unfoldable pub update : List A → List A → List A
  update s [] = s
  update s (x ∷ xs) = update (add s x) xs

  pub contains-update :
      (s xs : List A) (a : A) → contains (update s xs) a ≡ (contains s a || contains xs a)
  unfolding update contains
  contains-update s [] a = ground arith
  contains-update s (x ∷ xs) a = ground (arith, contains-update (add s x) xs a, contains-add s x a)

  -- xs ⊆ ys
  abbrev pub Subset : List A → List A → Type ℓ
  Subset xs ys = (a : A) → contains xs a ≡ true → contains ys a ≡ true
