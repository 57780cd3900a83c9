-- ===== src/Common/Decimal.antt =====
-- `str(n)` and `int(s)` in base ten. Of `int` this has blanks around the number, a sign and ASCII
-- digits; the digits of other scripts and `_` between digits are refused here.
use Prim.Native.Nat.{ℕ, zero, suc, ◌+◌, ◌-◌, ◌*◌, ◌/◌, ◌%◌, ◌<◌, ◌≤◌}
use mathlib.Core.Path.{◌≡◌, refl, ap}
use mathlib.Core.Logic.{◌≢◌, inl, inr}
use mathlib.Core.Bool.{Bool, true, false, ◌&&◌}
use mathlib.Core.List.{[], ◌∷◌, ◌++◌}
use mathlib.Core.Option
use mathlib.Core.Option.{Option, none, some}
use native.Mathlib.Omega.{arith}
use grizzly.Common.Tests.{leb, ltb, ◌=ℕ◌, if◌then◌else◌, Bool-cases}
use grizzly.Common.Lists.{All}
use grizzly.Common.Int.{ℤ, pos, negsuc, sub_ℕ}
use grizzly.Common.Text.{Text, is_space, strip}
use grizzly.Common.Text.Laws.{HasNoSpace, All-append, strip-eq_self}

abbrev is_digit : ℕ → Bool
is_digit c = leb 48 c && leb c 57

-- The digits of `n`, most significant first; the fuel exceeds `n`.
unfoldable pub digits_of : ℕ → ℕ → Text
digits_of zero n = []
digits_of (suc fuel) n =
    let higher = digits_of fuel (n / 10) in
    if ltb n 10 then (48 + n) ∷ [] else higher ++ (48 + n % 10) ∷ []

-- str(n)
unfoldable pub show_ℕ : ℕ → Text
show_ℕ n = digits_of (suc n) n

unfoldable pub show : ℤ → Text
show (pos n) = show_ℕ n
show (negsuc n) = b'-' ∷ show_ℕ (n + 1)

unfoldable pub read_digits : ℕ → Text → Option ℕ
read_digits acc [] = some acc
read_digits acc (c ∷ s) =
    let rest = read_digits (acc * 10 + (c - 48)) s in if is_digit c then rest else none

abbrev read_unsigned : Text → Option ℕ
read_unsigned [] = none
read_unsigned (c ∷ s) = read_digits 0 (c ∷ s)

abbrev read_signed : Text → Option ℤ
read_signed [] = none
read_signed (c ∷ s) =
    if c =ℕ b'-'
    then Option.map (λ n. sub_ℕ 0 n) (read_unsigned s)
    else if c =ℕ b'+'
    then Option.map pos (read_unsigned s)
    else Option.map pos (read_unsigned (c ∷ s))

-- int(s); `none` stands for ValueError
unfoldable pub read_int : Text → Option ℤ
read_int s = read_signed (strip s)

abbrev IsDigits : Text → Type 0
IsDigits = All (λ c. is_digit c ≡ true)

digits_of-IsDigits : (fuel n : ℕ) → n < fuel → IsDigits (digits_of fuel n)
unfolding digits_of
digits_of-IsDigits zero n h = elim h [ ]
digits_of-IsDigits (suc fuel) n h = elim (Bool-cases (ltb n 10)) [
  | inl small ↦ rw small (ground arith, tt)
  | inr large ↦ rw large (
      All-append (λ c. is_digit c ≡ true) (digits_of fuel (n / 10)) ((48 + n % 10) ∷ [])
        (digits_of-IsDigits fuel (n / 10) (ground arith)) (ground arith, tt))
]

append_cons-ne-nil : (s : Text) (c : ℕ) → s ++ c ∷ [] ≢ []
append_cons-ne-nil [] c = ground arith
append_cons-ne-nil (d ∷ s) c = ground arith

digits_of-ne-nil : (fuel n : ℕ) → n < fuel → digits_of fuel n ≢ []
unfolding digits_of
digits_of-ne-nil zero n h = elim h [ ]
digits_of-ne-nil (suc fuel) n h =
    ground (arith, append_cons-ne-nil (digits_of fuel (n / 10)) (48 + n % 10))

read_digits-append :
    (acc : ℕ) (s : Text) (d : ℕ)
    → d < 10
    → read_digits acc (s ++ (48 + d) ∷ []) ≡ Option.map (λ n. n * 10 + d) (read_digits acc s)
unfolding read_digits
read_digits-append acc [] d h = ground arith
read_digits-append acc (c ∷ s) d h = ground (arith, read_digits-append (acc * 10 + (c - 48)) s d h)

omega_some : (n : ℕ) → some (n / 10 * 10 + n % 10) ≡ some n
omega_some n = ap some (omega arith)

read_digits-digits_of : (fuel n : ℕ) → n < fuel → read_digits 0 (digits_of fuel n) ≡ some n
unfolding digits_of
read_digits-digits_of zero n h = elim h [ ]
read_digits-digits_of (suc fuel) n h = elim (Bool-cases (ltb n 10)) [
  | inl small ↦ rw small (unfold read_digits in ground arith)
  | inr large ↦
      rw
        (
          large,
          read_digits-append 0 (digits_of fuel (n / 10)) (n % 10) (omega arith),
          read_digits-digits_of fuel (n / 10) (ground arith),
        )
        (omega_some n)
]

read_unsigned-show_ℕ : (n : ℕ) → read_unsigned (show_ℕ n) ≡ some n
unfolding show_ℕ
read_unsigned-show_ℕ n =
    ground (arith, read_digits-digits_of (suc n) n, digits_of-ne-nil (suc n) n (omega arith))

digit_no_space : (c : ℕ) → is_digit c ≡ true → is_space c ≡ false
unfolding is_space
digit_no_space c h = ground arith

HasNoSpace-digits : (s : Text) → IsDigits s → HasNoSpace s
HasNoSpace-digits [] h = tt
HasNoSpace-digits (c ∷ s) h = (digit_no_space c h.0, HasNoSpace-digits s h.1)

show_ℕ-IsDigits : (n : ℕ) → IsDigits (show_ℕ n)
unfolding show_ℕ
show_ℕ-IsDigits n = digits_of-IsDigits (suc n) n (omega arith)

-- What `str` writes holds no blank.
pub show-HasNoSpace : (n : ℤ) → HasNoSpace (show n)
unfolding show is_space
show-HasNoSpace (pos n) = HasNoSpace-digits (show_ℕ n) (show_ℕ-IsDigits n)
show-HasNoSpace (negsuc n) = (refl, HasNoSpace-digits (show_ℕ (n + 1)) (show_ℕ-IsDigits (n + 1)))

read_signed-digits : (s : Text) → IsDigits s → read_signed s ≡ Option.map pos (read_unsigned s)
read_signed-digits [] h = refl
read_signed-digits (c ∷ s) h = ground arith

read_signed-show : (n : ℤ) → read_signed (show n) ≡ some n
unfolding show
read_signed-show (pos n) =
    rw (read_signed-digits (show_ℕ n) (show_ℕ-IsDigits n), read_unsigned-show_ℕ n)
read_signed-show (negsuc n) = rw (read_unsigned-show_ℕ (n + 1)) (ground arith)

-- `int` reads what `str` writes.
pub read_int-show : (n : ℤ) → read_int (show n) ≡ some n
unfolding read_int
read_int-show n = rw (strip-eq_self (show n) (show-HasNoSpace n)) (read_signed-show n)

module _ {P : ℕ → Type 0} (digit : (c : ℕ) → 48 ≤ c → c ≤ 57 → P c) where
  All-of_digits : (s : Text) → IsDigits s → All P s
  All-of_digits [] h = tt
  All-of_digits (c ∷ s) h = (digit c (ground arith) (ground arith), All-of_digits s h.1)

  -- What holds of the digits and of the sign holds of every code point that `str` writes.
  pub show-All : P b'-' → (n : ℤ) → All P (show n)
  unfolding show
  show-All minus (pos n) = All-of_digits (show_ℕ n) (show_ℕ-IsDigits n)
  show-All minus (negsuc n) = (minus, All-of_digits (show_ℕ (n + 1)) (show_ℕ-IsDigits (n + 1)))

pub show-ne-nil : (n : ℤ) → show n ≢ []
unfolding show show_ℕ
show-ne-nil (pos n) = digits_of-ne-nil (suc n) n (omega arith)
show-ne-nil (negsuc n) = ground arith
