-- ===== src/Rpm/Printed.antt =====
-- `splitFilename` of common/copr_common/rpm.py takes apart what the parts were put together to.
use copr.Base.{
  ℕ, suc, ◌-◌, ◌≡◌, refl, ap, ◌∙◌, Option-cases, inl, inr, Option, none, some, [], ◌∷◌, ◌++◌, Bool,
  true, false, arith, ◌==◌, ==_iff, length, length-append,
}
use mathlib.Core.List.{append_assoc}
use copr.Base.Equality.{Text, codes, text_eq, nat_eq, beq_refl}
use copr.Base.Dict.{contains}
use copr.Rpm.{
  take, drop, rfind, find_step, find, up_to, behind, dot, dash, colon, strip_rpm, epoch_of, Nevra,
  split_stripped, split_filename,
}

take-length : (a b : Text) → take (length a) (a ++ b) ≡ a
unfolding take
take-length [] b = refl
take-length (x ∷ a) b = ap (λ t. x ∷ t) (take-length a b)

drop-length : (a b : Text) → drop (length a) (a ++ b) ≡ b
unfolding drop
drop-length [] b = refl
drop-length (x ∷ a) b = drop-length a b

drop-suc : (a b : Text) (c : ℕ) → drop (suc (length a)) (a ++ c ∷ b) ≡ b
unfolding drop
drop-suc [] b c = refl
drop-suc (x ∷ a) b c = drop-suc a b c

rfind_absent : (c : ℕ) (t : Text) → contains t c ≡ false → rfind c t ≡ none
unfolding rfind contains
rfind_absent c [] h = refl
rfind_absent c (x ∷ t) h = ground (arith, h, rfind_absent c t)

rfind_last : (c : ℕ) (a b : Text) → contains b c ≡ false → rfind c (a ++ c ∷ b) ≡ some (length a)
unfolding rfind
rfind_last c [] b h = ground (arith, rfind_absent c b h, ==_iff c c)
rfind_last c (x ∷ a) b h = rw (rfind_last c a b h) refl

find_absent : (c : ℕ) (t : Text) → contains t c ≡ false → find c t ≡ none
unfolding find contains
find_absent c [] h = refl
find_absent c (x ∷ t) h = ground (arith, h, find_absent c t)

find_here : (c : ℕ) (t : Text) → find c (c ∷ t) ≡ some 0
unfolding find
find_here c t = ground (arith, ==_iff c c)

find_first : (c : ℕ) (a b : Text) → contains a c ≡ false → find c (a ++ c ∷ b) ≡ some (length a)
unfolding find contains
find_first c [] b h = find_here c b
find_first c (x ∷ a) b h = ground (arith, h, find_first c a b)

find_step_here : (o : Option ℕ) (b : Bool) → b ≡ true → find_step o b ≡ some 0
find_step_here none b h = rw h refl
find_step_here (some i) b h = rw h refl

find-append : (c i : ℕ) (a b : Text) → find c a ≡ some i → find c (a ++ b) ≡ some i
unfolding find
find-append c i [] b h = ground (arith, h)
find-append c i (x ∷ a) b h = elim (Option-cases (find c a)) [
  | inl absent ↦ ground (arith, h, absent, find_step_here (find c (a ++ b)) (x == c))
  | inr (j, found) ↦ ground (arith, h, found, find-append c j a b found)
]

strip_rpm-append : (t : Text) → strip_rpm (t ++ codes ".rpm") ≡ t
unfolding strip_rpm
strip_rpm-append t =
    let n : length (t ++ codes ".rpm") - 4 ≡ length t =
      omega (arith, length-append t (codes ".rpm")) in
    rw n (
      rw (drop-length t (codes ".rpm"))
        (rw (beq_refl (codes ".rpm")) (take-length t (codes ".rpm"))))

-- "name-ver-rel.arch", behind what stands before the version.
abbrev pub with_arch : Text → Nevra → Text
with_arch before n = ((before ++ dash ∷ n.ver) ++ dash ∷ n.rel) ++ dot ∷ n.arch

abbrev pub IsPlain : Nevra → Type 0
IsPlain n =
    (contains n.ver dash ≡ false) × (contains n.rel dash ≡ false) × (contains n.arch dot ≡ false)

abbrev read_with : Text → Text → Text → Nevra → Nevra
read_with name epoch before n = record {
  name = name;
  ver = n.ver;
  rel = n.rel;
  epoch = epoch;
  arch = n.arch;
}

-- What is found, where `e` is the position of the colon.
split_lem :
    (before : Text) (n : Nevra) (e : Option ℕ)
    → IsPlain n
    → find colon (with_arch before n) ≡ e
    → split_stripped (with_arch before n)
      ≡ read_with (behind e before) (epoch_of e (with_arch before n)) before n
unfolding split_stripped up_to behind
split_lem before n e (ver, rel, arch) at =
    let a = before ++ dash ∷ n.ver in
    let b = a ++ dash ∷ n.rel in
    let f = b ++ dot ∷ n.arch in
    let up_b : take (length b) f ≡ b = take-length b (dot ∷ n.arch) in
    let up_a : take (length a) f ≡ a =
      ap (take (length a)) (append_assoc a (dash ∷ n.rel) (dot ∷ n.arch))
      ∙ take-length a ((dash ∷ n.rel) ++ (dot ∷ n.arch)) in
    let up_before : take (length before) f ≡ before =
      ap (take (length before)) (
        append_assoc a (dash ∷ n.rel) (dot ∷ n.arch)
        ∙ append_assoc before (dash ∷ n.ver) ((dash ∷ n.rel) ++ (dot ∷ n.arch)))
      ∙ take-length before ((dash ∷ n.ver) ++ ((dash ∷ n.rel) ++ (dot ∷ n.arch))) in
    simp
      (
        at,
        rfind_last dot b n.arch arch,
        up_b,
        rfind_last dash a n.rel rel,
        up_a,
        rfind_last dash before n.ver ver,
        up_before,
        drop-suc b n.arch dot,
        drop-suc a n.rel dash,
        drop-suc before n.ver dash,
      )
      refl

-- The standard full name, with "epoch:" in front if there is an epoch.
abbrev pub print : Text → Nevra → Text
print [] n = with_arch n.name n
print (c ∷ epoch) n = with_arch ((c ∷ epoch) ++ colon ∷ n.name) n

-- The first colon of the name is the one behind the epoch.
abbrev pub IsMarked : Text → Nevra → Type 0
IsMarked [] n = contains (with_arch n.name n) colon ≡ false
IsMarked (c ∷ epoch) n = contains (c ∷ epoch) colon ≡ false

take-with_arch : (a b : Text) (n : Nevra) → take (length a) (with_arch (a ++ b) n) ≡ a
unfolding take
take-with_arch [] b n = refl
take-with_arch (x ∷ a) b n = ap (λ t. x ∷ t) (take-with_arch a b n)

split_stripped-print :
    (epoch : Text) (n : Nevra)
    → IsPlain n
    → IsMarked epoch n
    → split_stripped (print epoch n) ≡ record n { epoch = epoch }
unfolding behind epoch_of
split_stripped-print [] n plain marked =
    split_lem n.name n none plain (find_absent colon (with_arch n.name n) marked)
split_stripped-print (c ∷ epoch) n plain marked =
    let e = c ∷ epoch in
    let before = e ++ colon ∷ n.name in
    let i = length e in
    let at = find-append colon i ((before ++ dash ∷ n.ver) ++ dash ∷ n.rel) (dot ∷ n.arch) (
      find-append colon i (before ++ dash ∷ n.ver) (dash ∷ n.rel)
        (find-append colon i before (dash ∷ n.ver) (find_first colon e n.name marked))) in
    split_lem before n (some i) plain at
    ∙ simp (drop-suc e n.name colon, take-with_arch e (colon ∷ n.name) n) refl

-- The name of a package file is taken apart into the parts that it was put together from, with or
-- without an epoch, where the version and the release have no dash, the architecture no dot, and no
-- colon stands in the epoch, or without one anywhere.
pub split_filename-print :
    (n : Nevra)
    → IsPlain n
    → IsMarked n.epoch n
    → split_filename (print n.epoch n ++ codes ".rpm") ≡ n
unfolding split_filename
split_filename-print n plain marked =
    ap split_stripped (strip_rpm-append (print n.epoch n))
    ∙ split_stripped-print n.epoch n plain marked
