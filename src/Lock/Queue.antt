-- ===== src/Lock/Queue.antt =====
-- The queue of common/copr_common/lock.py as a list of pids: how `rpush` and `lrem` change how often
-- a pid stands in it, what is at its head, and what is ahead of a pid.
use copr.Base.{
  ℕ, suc, ◌-◌, ◌≤◌, ◌≡◌, ◌≢◌, refl, none, some, List, [], ◌∷◌, ◌++◌, true, ◌==◌, length, arith,
  if◌then◌else◌, ==_iff,
}
use copr.Base.Equality.{nat_eq, beq_iff}
use copr.Base.Dict.{contains}
use copr.Lock.{head, remove_first}

unfoldable pub count : List ℕ → ℕ → ℕ
count [] p = 0
count (x ∷ xs) p = let rest = count xs p in if x == p then suc rest else rest

-- Those before the first occurrence of a pid.
unfoldable pub ahead : List ℕ → ℕ → List ℕ
ahead [] p = []
ahead (x ∷ xs) p = let rest = ahead xs p in if x == p then [] else x ∷ rest

pub count-push :
    (xs : List ℕ) (p q : ℕ)
    → count (xs ++ p ∷ []) q ≡ (if p == q then suc (count xs q) else count xs q)
unfolding count
count-push [] p q = refl
count-push (x ∷ xs) p q = ground (arith, count-push xs p q)

pub count-remove_first :
    (xs : List ℕ) (p q : ℕ)
    → count (remove_first xs p) q ≡ (if p == q then count xs q - 1 else count xs q)
unfolding count remove_first
count-remove_first [] p q = ground arith
count-remove_first (x ∷ xs) p q = ground (arith, count-remove_first xs p q)

pub head-push : (xs : List ℕ) (p q : ℕ) → head xs ≡ some q → head (xs ++ p ∷ []) ≡ some q
head-push [] p q h = ground arith
head-push (x ∷ xs) p q h = h

pub head-remove_first :
    (xs : List ℕ) (p q : ℕ) → head xs ≡ some q → p ≢ q → head (remove_first xs p) ≡ some q
unfolding remove_first
head-remove_first [] p q h ne = h
head-remove_first (x ∷ xs) p q h ne = ground (arith, ==_iff x p)

pub head-count : (xs : List ℕ) (p : ℕ) → head xs ≡ some p → 1 ≤ count xs p
unfolding count
head-count [] p h = ground arith
head-count (x ∷ xs) p h = ground (arith, ==_iff x p)

pub head-none : (xs : List ℕ) (p : ℕ) → head xs ≡ none → count xs p ≡ 0
unfolding count
head-none [] p h = refl
head-none (x ∷ xs) p h = ground arith

pub ahead-push : (xs : List ℕ) (r p : ℕ) → 1 ≤ count xs p → ahead (xs ++ r ∷ []) p ≡ ahead xs p
unfolding ahead count
ahead-push [] r p h = ground arith
ahead-push (x ∷ xs) r p h = ground (arith, ahead-push xs r p)

pub ahead-remove_first :
    (xs : List ℕ) (r p q : ℕ)
    → r ≢ p
    → contains (ahead (remove_first xs r) p) q ≡ true
    → contains (ahead xs p) q ≡ true
unfolding ahead remove_first contains
ahead-remove_first [] r p q ne h = h
ahead-remove_first (x ∷ xs) r p q ne h =
    ground (arith, ahead-remove_first xs r p q, beq_iff x q, ==_iff x p, ==_iff x r)

pub length-ahead-remove_first :
    (xs : List ℕ) (r p : ℕ) → r ≢ p → length (ahead (remove_first xs r) p) ≤ length (ahead xs p)
unfolding ahead remove_first
length-ahead-remove_first [] r p ne = omega arith
length-ahead-remove_first (x ∷ xs) r p ne =
    ground (arith, length-ahead-remove_first xs r p, ==_iff x p, ==_iff x r)

pub head-ahead :
    (xs : List ℕ) (q p : ℕ)
    → head xs ≡ some q
    → 1 ≤ count xs p
    → q ≢ p
    → contains (ahead xs p) q ≡ true
unfolding ahead count contains
head-ahead [] q p h n ne = ground arith
head-ahead (x ∷ xs) q p h n ne =
    ground (arith, head-ahead xs q p, beq_iff x q, ==_iff x p, ==_iff x q)
