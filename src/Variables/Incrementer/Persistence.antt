-- ===== src/Variables/Incrementer/Persistence.antt =====
-- The text that `generate_initial_value` writes starts a later run where this one ended.
use grizzly.Common.{
  ℕ, ◌≡◌, ◌≢◌, refl, true, List, [], ◌∷◌, ◌++◌, some, arith, Result, ok, list_eq, nat_eq,
  append_assoc, ◌≤◌,
}
use grizzly.Common.Dict.{lookup, insert, has_key}
use grizzly.Common.Int.{ℤ}
use grizzly.Common.Text.{Text, codes, is_space, strip, join}
use grizzly.Common.Text.Laws.{Lacks, All-append, strip-space, strip_ends, strip-append_space}
use grizzly.Common.Decimal.{show, read_int-show, show-HasNoSpace, show-All, show-ne-nil}
use grizzly.Arguments.{has_separator, split_value, parse_arguments}
use grizzly.Arguments.Separator.{has_separator-append, split_value-append}
use grizzly.Arguments.Plain.{IsPlainChar, IsPlain, is_plain, is_plain_char, is_plain-IsPlainChar}
use grizzly.Arguments.Format.{
  ArePlain, format_arguments, assign_all, parse_arguments-format_arguments,
}
use grizzly.Exceptions.{Exception}
use grizzly.Variables.{absent, ready, init_values, allocate}
use grizzly.Variables.Incrementer.{
  Incrementer, text, bool_type, int_type, check_arguments, base_type, read_value, finish, construct,
  generate_initial_value,
}
use grizzly.Variables.Incrementer.Sequence.{Holds, get_item_value}

show-IsPlain : (n : ℤ) → IsPlain (show n)
unfolding is_space
show-IsPlain n = (show-ne-nil n, show-All (λ c low high. plain_digit c low high) plain_minus n)
  where
    plain_digit : (c : ℕ) → 48 ≤ c → c ≤ 57 → IsPlainChar c
    plain_digit c low high = record {
      no_space = ground arith;
      no_comma = omega arith;
      no_equals = omega arith;
      no_double = omega arith;
      no_single = omega arith;
    }

    plain_minus : IsPlainChar b'-'
    plain_minus = record {
      no_space = refl;
      no_comma = omega arith;
      no_equals = omega arith;
      no_double = omega arith;
      no_single = omega arith;
    }

Lacks-bar_show : (n : ℤ) → Lacks b'|' (show n)
Lacks-bar_show n = show-All (λ c low high. omega arith) (omega arith) n

int_type-show : (n : ℤ) → int_type (show n) ≡ ok n
unfolding int_type
int_type-show n = rw (read_int-show n, int_type)

module _ (step : ℤ) where
  abbrev pairs : List (Text × Text)
  pairs = (codes "step", show step) ∷ (codes "persist", codes "True") ∷ []

  -- `step=s, persist=True`
  abbrev arguments_text : Text
  arguments_text = (codes "step=" ++ show step) ++ codes ", persist=True"

  ArePlain-pairs : ArePlain pairs
  unfolding is_plain is_plain_char is_space
  ArePlain-pairs = (
    ((ground arith, is_plain-IsPlainChar (codes "step") refl), show-IsPlain step),
    (
      (
        (ground arith, is_plain-IsPlainChar (codes "persist") refl),
        (ground arith, is_plain-IsPlainChar (codes "True") refl),
      ),
      tt,
    ),
  )

  parse_arguments-text : parse_arguments arguments_text (codes "=") true ≡ ok pairs
  unfolding format_arguments assign_all insert
  parse_arguments-text = parse_arguments-format_arguments true pairs (ground arith) ArePlain-pairs

  check_arguments-pairs : check_arguments pairs ≡ ok tt
  unfolding check_arguments bool_type
  check_arguments-pairs = rw (int_type-show step)

  strip-arguments_text : strip arguments_text ≡ arguments_text
  unfolding is_space
  strip-arguments_text =
      rw (← append_assoc (codes "tep=" ++ show step) (codes ", persist=Tru") (codes "e"))
        (strip_ends b's' ((codes "tep=" ++ show step) ++ codes ", persist=Tru") b'e' refl refl)

  Lacks-bar_arguments : Lacks b'|' arguments_text
  Lacks-bar_arguments =
      All-append (λ c. c ≢ b'|') (codes "step=" ++ show step) (codes ", persist=True")
        (
          omega arith,
          (omega arith, (omega arith, (omega arith, (omega arith, Lacks-bar_show step)))),
        )
        (omega arith)

  module _ (float_int : Text → Result Exception ℤ) (v : ℤ) (exact : float_int (show v) ≡ ok v) where
    abbrev saved : Text
    saved = (show v ++ codes " ") ++ (b'|' ∷ b' ' ∷ arguments_text)

    split_value-saved : split_value saved (codes "|") ≡ ok (show v ∷ arguments_text ∷ [])
    split_value-saved = cc (
      split_value-append (show v ++ codes " ") (b' ' ∷ arguments_text)
          (All-append (λ c. c ≢ b'|') (show v) (codes " ") (Lacks-bar_show v) (omega arith))
          (omega arith, Lacks-bar_arguments),
      strip-append_space (show v) (show-HasNoSpace v),
      strip-space arguments_text,
      strip-arguments_text,
    )

    has_separator-saved : has_separator (codes "|") saved ≡ true
    has_separator-saved =
        has_separator-append (show v ++ codes " ") b' ' arguments_text
          (All-append (λ c. c ≢ b'|') (show v) (codes " ") (Lacks-bar_show v) (omega arith)) refl

    base_type-saved : base_type float_int (text saved) ≡ ok saved
    unfolding base_type has_key lookup
    base_type-saved = rw (
      has_separator-saved,
      split_value-saved,
      exact,
      parse_arguments-text,
      check_arguments-pairs,
      append_assoc (show v) (codes " ") (b'|' ∷ b' ' ∷ arguments_text),
    )

    read_value-saved :
        read_value float_int (text saved) ≡ ok (v, record { step = step; persist = true })
    unfolding read_value bool_type lookup
    read_value-saved = rw (
      base_type-saved,
      has_separator-saved,
      split_value-saved,
      parse_arguments-text,
      int_type-show step,
      int_type-show v,
    )

generate_initial_value-saved :
    (float_int : Text → Result Exception ℤ) (variable : Text) (v step : ℤ) (i : Incrementer)
    (exact : float_int (show v) ≡ ok v)
    → Holds i variable v (record { step = step; persist = true })
    → (generate_initial_value variable i).0 ≡ ok (saved step float_int v exact)
unfolding generate_initial_value join
generate_initial_value-saved float_int variable v step i exact h = ground (
  arith,
  get_item_value variable v (record { step = step; persist = true }) i h,
  append_assoc (show v) (codes " ") (b'|' ∷ b' ' ∷ arguments_text step),
)

-- A persisted variable with the value `v` and the step `s`: `generate_initial_value` returns a text,
-- and a run that starts with that text for the variable has the instance with this value, this step
-- and `persist`. The hypothesis on floats: `int(float(str(v)))` is `v`.
pub construct-generate_initial_value :
    (float_int : Text → Result Exception ℤ) (variable : Text) (v step : ℤ) (i : Incrementer)
    → float_int (show v) ≡ ok v
    → Holds i variable v (record { step = step; persist = true })
    → (saved_text : Text) × ((generate_initial_value variable i).0 ≡ ok saved_text)
      × (construct float_int variable (text saved_text) absent ≡ (
        ok tt,
        ready (record {
          values = (variable, some v) ∷ [];
          steps = (variable, record { step = step; persist = true }) ∷ [];
        }),
      ))
unfolding construct finish init_values allocate
construct-generate_initial_value float_int variable v step i exact h = (
  saved step float_int v exact,
  generate_initial_value-saved float_int variable v step i exact h,
  rw (construct, read_value-saved step float_int v exact),
)
