-- ===== src/Common/Text.antt =====
-- The methods of Python's `str` that the program calls, over a text as the list of its code points.
pub mod Laws
use Prim.Native.Char.{code}
use Prim.Native.String.{String}
use Prim.Native.Nat.{ℕ, zero, suc, ◌+◌, ◌-◌}
use mathlib.Core.Bool.{Bool, true, false, ◌&&◌, ◌||◌}
use mathlib.Core.List.{List, [], ◌∷◌, ◌++◌}
use mathlib.Core.Option
use mathlib.Core.Option.{Option, none, some}
use grizzly.Common.Tests.{leb, ◌=ℕ◌, if◌then◌else◌}
use grizzly.Common.Lists.{length, take, drop}

abbrev pub Text : Type 0
Text = List ℕ

abbrev pub codes : String → Text
codes String.[] = []
codes (String.◌∷◌ c s) = code c ∷ codes s

-- c.isspace()
unfoldable pub is_space : ℕ → Bool
is_space c =
    (leb 9 c && leb c 13)
    || (leb 28 c && leb c 32)
    || c =ℕ 0x85
    || c =ℕ 0xa0
    || c =ℕ 0x1680
    || (leb 0x2000 c && leb c 0x200a)
    || c =ℕ 0x2028
    || c =ℕ 0x2029
    || c =ℕ 0x202f
    || c =ℕ 0x205f
    || c =ℕ 0x3000

unfoldable pub lstrip : Text → Text
lstrip [] = []
lstrip (c ∷ s) = let rest = lstrip s in if is_space c then rest else c ∷ s

unfoldable pub rstrip : Text → Text
rstrip [] = []
rstrip (c ∷ s) = elim (rstrip s) [ [] ↦ if is_space c then [] else c ∷ [] | d ∷ t ↦ c ∷ d ∷ t ]

-- s.strip()
unfoldable pub strip : Text → Text
unfolding lstrip rstrip is_space
strip s = rstrip (lstrip s)

-- s.startswith(p)
unfoldable pub starts_with : Text → Text → Bool
starts_with [] s = true
starts_with (c ∷ p) [] = false
starts_with (c ∷ p) (d ∷ s) = c =ℕ d && starts_with p s

-- s.index(p); `none` stands for ValueError
unfoldable pub index? : Text → Text → Option ℕ
unfolding starts_with
index? p [] = if starts_with p [] then some 0 else none
index? p (c ∷ s) =
    let later = Option.map suc (index? p s) in if starts_with p (c ∷ s) then some 0 else later

-- s.rindex(p); `none` stands for ValueError
unfoldable pub rindex? : Text → Text → Option ℕ
unfolding starts_with
rindex? p [] = if starts_with p [] then some 0 else none
rindex? p (c ∷ s) = elim (rindex? p s) [
  | some i ↦ some (suc i)
  | none ↦ if starts_with p (c ∷ s) then some 0 else none
]

-- p in s
unfoldable pub occurs : Text → Text → Bool
unfolding index?
occurs p s = elim (index? p s) [ some _ ↦ true | none ↦ false ]

-- Occurrences that do not overlap; `skip` code points belong to the last one found.
unfoldable pub count_from : Text → ℕ → Text → ℕ
unfolding starts_with
count_from p skip [] = if starts_with p [] then 1 else 0
count_from p (suc skip) (c ∷ s) = count_from p skip s
count_from p zero (c ∷ s) =
    (if starts_with p (c ∷ s) then 1 else 0)
    + count_from p (if starts_with p (c ∷ s) then length p - 1 else 0) s

-- s.count(p)
unfoldable pub count : Text → Text → ℕ
unfolding count_from
count p s = count_from p 0 s

-- s.split(c) at every occurrence of one code point
unfoldable pub split : ℕ → Text → List Text
split c [] = [] ∷ []
split c (d ∷ s) = elim (split c s) [
  | [] ↦ []
  | t ∷ ts ↦ if d =ℕ c then [] ∷ t ∷ ts else (d ∷ t) ∷ ts
]

abbrev pub cut_at : Text → Text → Option ℕ → List Text
cut_at p s none = s ∷ []
cut_at p s (some i) = take i s ∷ drop (i + length p) s ∷ []

-- s.split(p, 1) and s.rsplit(p, 1), for a separator that is not empty
unfoldable pub split_once : Text → Text → List Text
unfolding index?
split_once p s = cut_at p s (index? p s)

unfoldable pub rsplit_once : Text → Text → List Text
unfolding rindex?
rsplit_once p s = cut_at p s (rindex? p s)

-- s[-1]
unfoldable pub last? : Text → Option ℕ
last? [] = none
last? (c ∷ []) = some c
last? (c ∷ d ∷ s) = last? (d ∷ s)

-- s[:-1]
unfoldable pub but_last : Text → Text
but_last [] = []
but_last (c ∷ []) = []
but_last (c ∷ d ∷ s) = c ∷ but_last (d ∷ s)

-- ', '.join(...)
unfoldable pub join : Text → List Text → Text
join p [] = []
join p (t ∷ []) = t
join p (t ∷ u ∷ ts) = t ++ (p ++ join p (u ∷ ts))

-- str.lower() of ASCII
abbrev pub to_lower : Text → Text
to_lower [] = []
to_lower (c ∷ s) = (if leb b'A' c && leb c b'Z' then c + 32 else c) ∷ to_lower s
