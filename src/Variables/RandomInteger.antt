-- ===== src/Variables/RandomInteger.antt =====
-- grizzly/testdata/variables/random_integer.py. `pick` stands for the choice of `secrets.choice`: an
-- index below the length of the range.
pub mod Range
mod Examples
use grizzly.Common.{
  ℕ, ◌+◌, ◌-◌, ◌<◌, Bool, true, false, not, List, [], ◌∷◌, Option, none, some, if◌then◌else◌, ltb,
  list_eq, nat_eq, Result, ok, err, ◌>>=◌,
}
use grizzly.Common.Dict.{Dict, lookup, insert, remove, has_key, keys}
use grizzly.Common.Int.{ℤ, pos, ◌+ℤ◌, pos_part, neg_part}
use grizzly.Common.Text.{Text, codes, occurs, split_once}
use grizzly.Exceptions.{Exception, value_error, index_error, key_error, type_error, attribute_error}
use grizzly.Variables.{
  Slot, absent, blank, ready, Values, allocate, init_values, get_value, delete_all, clear_values,
}
use grizzly.Variables.Incrementer.{int_type, unpack}

pub record RandomInteger : Type 0 where
  pub values : Values ℤ
  pub maximum : Dict Text ℤ

-- `len(range(a, b))`
pub range_length : ℤ → ℤ → ℕ
range_length a b = (pos_part b + neg_part a) - (pos_part a + neg_part b)

-- The two numbers of `a..b`.
pub read_bounds : Text → Result Exception (ℤ × ℤ)
read_bounds value = do
  halves ← unpack (split_once (codes "..") value)
  minimum ← int_type halves.0
  maximum ← int_type halves.1
  ok (minimum, maximum)

-- `minimum > maximum`
abbrev pub is_above : ℤ → ℤ → Bool
is_above a b = ltb (pos_part b + neg_part a) (pos_part a + neg_part b)

-- atomicrandominteger__base_type__
pub base_type : Text → Result Exception Text
base_type value =
    if not (occurs (codes "..") value)
    then err value_error
    else (read_bounds value >>= λ bounds.
        if is_above bounds.0 bounds.1 then err value_error else ok value)

-- The rest of `__init__`; before the first success the instance has no attributes.
finish : Slot RandomInteger → Text → ℤ × ℤ → Result Exception RandomInteger
finish (ready i) variable (minimum, maximum) =
    init_values (some i.values) variable (some minimum) >>= λ values. ok (record {
      values = values;
      maximum = if has_key variable i.maximum then i.maximum else insert variable maximum i.maximum;
    })
finish slot variable (minimum, maximum) = init_values none variable (some minimum) >>= λ values.
    ok (record { values = values; maximum = (variable, maximum) ∷ [] })

-- AtomicRandomInteger(variable, value): the slot afterwards, also where it raises
pub construct : Text → Text → Slot RandomInteger → Result Exception (Unit {0}) × Slot RandomInteger
construct variable value slot =
    elim (base_type value >>= read_bounds >>= finish (allocate slot) variable) [
      | ok i ↦ (ok tt, ready i)
      | err e ↦ (err e, allocate slot)
    ]

-- `choice(range(minimum, maximum))`; an empty range is an IndexError
choose : (ℕ → ℕ) → ℤ → ℤ → Result Exception ℤ
choose pick minimum maximum =
    if ltb 0 (range_length minimum maximum)
    then ok (minimum +ℤ pos (pick (range_length minimum maximum)))
    else err index_error

-- AtomicRandomInteger.__getitem__, where a value is never None
pub get_item : (ℕ → ℕ) → Text → RandomInteger → Result Exception ℤ
get_item pick variable i = do
  found ← get_value i.values variable
  minimum ← elim found [ none ↦ err type_error | some n ↦ ok n ]
  maximum ← elim (lookup variable i.maximum) [ none ↦ err key_error | some n ↦ ok n ]
  choose pick minimum maximum

-- AtomicRandomInteger.clear
pub clear : Slot RandomInteger → Result Exception (Slot RandomInteger)
clear absent = err value_error
clear blank = err attribute_error
clear (ready i) = ok (
    ready
      (record { values = clear_values i.values; maximum = delete_all (keys i.maximum) i.maximum }))

-- AtomicRandomInteger.__delitem__
pub delete_item : Text → RandomInteger → RandomInteger
delete_item variable i = record {
  values = remove variable i.values;
  maximum = remove variable i.maximum;
}
