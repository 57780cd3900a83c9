-- ===== src/Variables.antt =====
-- grizzly/testdata/variables/__init__.py: the singleton behind each class of variables. Operations run
-- under the class's semaphore, so each is one step.
pub mod Incrementer
pub mod Queue
pub mod CsvReader
pub mod RandomInteger
use grizzly.Common.{
  ◌≡◌, refl, Bool, true, false, List, [], ◌∷◌, Option, none, some, arith, if◌then◌else◌, list_eq,
  nat_eq, Result, ok, err,
}
use grizzly.Common.Dict.{Dict, lookup, insert, remove, has_key, keys}
use grizzly.Common.Text.{Text}
use grizzly.Arguments.{ArgumentError}
use grizzly.Exceptions.{Exception, value_error, index_error, attribute_error}

-- `__instance` of a class: none, one that `__new__` made and `__init__` did not finish, or a live one.
pub data Slot {ℓ} (I : Type ℓ) : Type ℓ where
  absent blank : Slot I
  ready : I → Slot I

abbrev pub Values : Type 0 → Type 0
Values T = Dict Text (Option T)

-- What a caller sees of the exceptions of `split_value` and `parse_arguments`.
abbrev pub of_argument : ArgumentError → Exception
of_argument ArgumentError.index_error = index_error
of_argument _ = value_error

abbrev pub checked : {A : Type 0} → Result ArgumentError A → Result Exception A
checked (ok a) = ok a
checked (err e) = err (of_argument e)

module _ {I : Type 0} where
  -- AtomicVariable.__new__
  pub allocate : Slot I → Slot I
  allocate absent = blank
  allocate slot = slot

  -- AtomicVariable.get
  pub get : Slot I → Result Exception (Slot I)
  get absent = err value_error
  get slot = ok slot

  -- AtomicVariable.destroy
  pub destroy : Slot I → Result Exception (Slot I)
  destroy absent = err value_error
  destroy slot = ok absent

module _ {T : Type 0} where
  -- AtomicVariable.__init__; the first argument is `_values`, where the instance is initialized
  pub init_values : Option (Values T) → Text → Option T → Result Exception (Values T)
  init_values none variable value = ok ((variable, value) ∷ [])
  init_values (some values) variable value =
      if has_key variable values then err attribute_error else ok (insert variable value values)

  -- AtomicVariable._get_value
  pub get_value : Values T → Text → Result Exception (Option T)
  get_value values variable = elim (lookup variable values) [
    | none ↦ err attribute_error
    | some value ↦ ok value
  ]

-- The loop of `clear`: every key of the snapshot is deleted.
pub delete_all : {V : Type 0} → List Text → Dict Text V → Dict Text V
delete_all [] d = d
delete_all (k ∷ ks) d = delete_all ks (remove k d)

-- AtomicVariable.clear
pub clear_values : {T : Type 0} → Values T → Values T
clear_values values = delete_all (keys values) values

-- AtomicVariable.obtain, over the constructor of the class and the `_values` of its instance. What is
-- returned is the class's slot afterwards.
pub obtain :
    {I : Type 0} {T : Type 0}
    → (I → Values T)
    → (Slot I → Result Exception (Slot I))
    → Slot I
    → Text
    → Result Exception (Slot I)
obtain values_of construct absent variable = construct absent
obtain values_of construct blank variable = err attribute_error
obtain values_of construct (ready i) variable =
    if has_key variable (values_of i) then ok (ready i) else construct (ready i)
