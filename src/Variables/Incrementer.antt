-- ===== src/Variables/Incrementer.antt =====
-- grizzly/testdata/variables/integer_incrementer.py. `float_int` is Python's `int(float(text))`, which
-- is not modelled: floats are a parameter.
pub mod Sequence
pub mod Persistence
mod Examples
use grizzly.Common.{
  ◌≡◌, refl, Bool, true, false, not, List, [], ◌∷◌, ◌++◌, map, Option, none, some, arith,
  if◌then◌else◌, list_eq, nat_eq, ◌==◌, Result, ok, err, ◌>>=◌,
}
use grizzly.Common.Dict.{Dict, lookup, insert, remove, has_key, keys}
use grizzly.Common.Int.{ℤ, pos, ◌+ℤ◌}
use grizzly.Common.Text.{Text, codes, strip, join}
use grizzly.Common.Decimal.{show, read_int}
use grizzly.Arguments.{has_separator, split_value, parse_arguments}
use grizzly.Exceptions.{Exception, value_error, key_error, attribute_error}
use grizzly.Variables.{
  Slot, absent, blank, ready, Values, checked, allocate, init_values, get_value, delete_all,
  clear_values,
}

-- What the constructor takes: a text of a feature file, or an `int`.
pub data Initial : Type 0 where
  text : Text → Initial
  number : ℤ → Initial

-- One entry of `_steps`.
pub record Settings : Type 0 where
  pub step : ℤ
  pub persist : Bool

pub record Incrementer : Type 0 where
  pub values : Values ℤ
  pub steps : Dict Text Settings

-- grizzly.types.bool_type
pub bool_type : Text → Result Exception Bool
bool_type value =
    if value == codes "True"
    then ok true
    else if value == codes "False"
    then ok false
    else err value_error

unfoldable pub int_type : Text → Result Exception ℤ
int_type value = elim (read_int value) [ none ↦ err value_error | some n ↦ ok n ]

-- `initial_value, arguments = split_value(value)`
abbrev pub unpack : List Text → Result Exception (Text × Text)
unpack (first ∷ second ∷ []) = ok (first, second)
unpack _ = err value_error

-- The loop over the arguments: each is known, and its caster accepts the value.
check_arguments : Dict Text Text → Result Exception (Unit {0})
check_arguments [] = ok tt
check_arguments ((argument, value) ∷ rest) =
    let others = check_arguments rest in
    if argument == codes "step"
    then (int_type value >>= λ _. others)
    else if argument == codes "persist"
    then (bool_type value >>= λ _. others)
    else err value_error

module _ (float_int : Text → Result Exception ℤ) where
  -- atomicintegerincrementer__base_type__
  pub base_type : Initial → Result Exception Text
  base_type (number n) = ok (show n)
  base_type (text value) =
      if has_separator (codes "|") value
      then (do
        parts ← checked (split_value value (codes "|"))
        halves ← unpack parts
        n ← float_int halves.0
        arguments ← checked (parse_arguments halves.1 (codes "=") true)
        if not (has_key (codes "step") arguments)
            then err value_error
            else (check_arguments arguments >>= λ _. ok (show n ++ (codes " | " ++ halves.1))))
      else (float_int (strip value) >>= λ n. ok (show n))

  -- What `__init__` reads from the checked value: the first value and the settings.
  pub read_value : Initial → Result Exception (ℤ × Settings)
  read_value value = do
    safe_value ← base_type value
    if has_separator (codes "|") safe_value
        then (do
          parts ← checked (split_value safe_value (codes "|"))
          halves ← unpack parts
          arguments ← checked (parse_arguments halves.1 (codes "=") true)
          step ← elim (lookup (codes "step") arguments) [
            | none ↦ err key_error
            | some t ↦ int_type t
          ]
          persist ← elim (lookup (codes "persist") arguments) [
            | none ↦ ok false
            | some t ↦ bool_type t
          ]
          n ← int_type halves.0
          ok (n, record { step = step; persist = persist }))
        else (int_type safe_value >>= λ n. ok (n, record { step = pos 1; persist = false }))

  -- The rest of `__init__`; before the first success the instance has no attributes.
  finish : Slot Incrementer → Text → ℤ × Settings → Result Exception Incrementer
  finish (ready i) variable (n, settings) =
      init_values (some i.values) variable (some n) >>= λ values. ok (record {
        values = values;
        steps = if has_key variable i.steps then i.steps else insert variable settings i.steps;
      })
  finish slot variable (n, settings) = init_values none variable (some n) >>= λ values.
      ok (record { values = values; steps = (variable, settings) ∷ [] })

  -- AtomicIntegerIncrementer(variable, value): the slot afterwards, also where it raises
  pub construct : Text → Initial → Slot Incrementer → Result Exception (Unit {0}) × Slot Incrementer
  construct variable value slot = elim (read_value value >>= finish (allocate slot) variable) [
    | ok i ↦ (ok tt, ready i)
    | err e ↦ (err e, allocate slot)
  ]

-- AtomicIntegerIncrementer.__getitem__
pub get_item : Text → Incrementer → Result Exception (Option ℤ) × Incrementer
get_item variable i = elim (get_value i.values variable) [
  | err e ↦ (err e, i)
  | ok none ↦ (ok none, i)
  | ok (some value) ↦ elim (lookup variable i.steps) [
    | none ↦ (err key_error, i)
    | some settings ↦ (
      ok (some value),
      record i { values = insert variable (some (value +ℤ settings.step)) i.values },
    )
  ]
]

abbrev show_value : Option ℤ → Text
show_value none = codes "None"
show_value (some n) = show n

abbrev show_bool : Bool → Text
show_bool true = codes "True"
show_bool false = codes "False"

abbrev show_settings : Settings → Text
show_settings settings =
    join (codes ", ") (
      (codes "step=" ++ show settings.step) ∷ (codes "persist=" ++ show_bool settings.persist) ∷ [])

-- AtomicIntegerIncrementer.generate_initial_value
pub generate_initial_value : Text → Incrementer → Result Exception Text × Incrementer
generate_initial_value variable i = elim (lookup variable i.steps) [
  | none ↦ (err value_error, i)
  | some settings ↦
      if not settings.persist
      then (err value_error, i)
      else let (result, i') = get_item variable i in
        (result >>= (λ value. ok (show_value value ++ (codes " | " ++ show_settings settings))), i')
]

-- AtomicIntegerIncrementer.clear
pub clear : Slot Incrementer → Result Exception (Slot Incrementer)
clear absent = err value_error
clear blank = err attribute_error
clear (ready i) =
    ok
      (ready (record { values = clear_values i.values; steps = delete_all (keys i.steps) i.steps }))

-- AtomicIntegerIncrementer.__delitem__
pub delete_item : Text → Incrementer → Incrementer
delete_item variable i = record {
  values = remove variable i.values;
  steps = remove variable i.steps;
}
