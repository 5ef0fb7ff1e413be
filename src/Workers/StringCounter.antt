-- ===== src/Workers/StringCounter.antt =====
-- common/copr_common/worker_manager.py, class StringCounter: a dict from string to count.
use copr.Base.{ℕ, ◌+◌, ◌≡◌, refl, [], Option, none, some, arith, if◌then◌else◌}
use copr.Base.Equality.{Text, text_eq, beq, beq_iff}
use copr.Base.Dict.{Dict, get, put, get-put}

-- dict.get(key, default)
abbrev pub get_or : Option ℕ → ℕ → ℕ
get_or none d = d
get_or (some n) d = n

abbrev increment : Dict Text ℕ → Text → Option ℕ → Dict Text ℕ
increment counter string (some n) = put counter string (n + 1)
increment counter string none = put counter string 1

-- None is not counted.
unfoldable pub add : Dict Text ℕ → Option Text → Dict Text ℕ
add counter none = counter
add counter (some string) = increment counter string (get counter string)

-- `self._counter.get(None, 0)` finds nothing, since None is never added.
unfoldable pub count : Dict Text ℕ → Option Text → ℕ
count counter none = 0
count counter (some string) = get_or (get counter string) 0

abbrev pub same_string : Option Text → Text → ℕ
same_string none t = 0
same_string (some s) t = if beq s t then 1 else 0

pub count-add :
    (counter : Dict Text ℕ) (string : Option Text) (t : Text)
    → count (add counter string) (some t) ≡ count counter (some t) + same_string string t
unfolding add count
count-add counter none t = omega arith
count-add counter (some s) t =
    ground (
      arith,
      get-put counter s (get_or (get counter s) 0 + 1) t,
      get-put counter s 1 t,
      beq_iff s t,
    )

pub count-empty : (g : Option Text) → count [] g ≡ 0
unfolding count get
count-empty none = refl
count-empty (some g) = refl
