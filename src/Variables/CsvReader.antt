-- ===== src/Variables/CsvReader.antt =====
-- grizzly/testdata/variables/csv_reader.py. A variable `name` yields whole rows of the file, and
-- `name.column` one column of the next row. `pathlib` and the file system are the record `Files`.
pub mod Reading
mod Examples
use grizzly.Common.{
  ℕ, Bool, true, false, not, List, [], ◌∷◌, ◌++◌, Option, none, some, if◌then◌else◌, list_eq,
  nat_eq, ◌==◌, ◌=ℕ◌, ◌||◌, Result, ok, err, ◌>>=◌,
}
use grizzly.Common.Dict.{Dict, lookup, insert, remove, has_key, keys}
use grizzly.Common.Text.{Text, codes, strip, count, occurs, rsplit_once}
use grizzly.Arguments.{has_separator, split_value, parse_arguments}
use grizzly.Exceptions.{Exception, value_error, key_error, attribute_error}
use grizzly.Variables.{
  Slot, absent, blank, ready, Values, checked, allocate, init_values, delete_all, clear_values,
}
use grizzly.Variables.Incrementer.{bool_type, unpack}
use grizzly.Variables.Queue.{Settings, take_next}

abbrev pub Row : Type 0
Row = Dict Text Text

-- What the file system says of a path below `requests`: its suffix is `.csv`, it is a file, and the
-- rows that `csv.DictReader` reads from it.
pub record Files : Type 0 where
  pub has_csv_suffix : Text → Bool
  pub is_file : Text → Bool
  pub rows : Text → List Row

pub record CsvReader : Type 0 where
  pub values : Values Row
  pub rows : Dict Text (List Row)
  pub settings : Dict Text Settings

-- The loop over the arguments of `atomiccsvreader__base_type__`.
check_arguments : Dict Text Text → Result Exception (Unit {0})
check_arguments [] = ok tt
check_arguments ((argument, value) ∷ rest) =
    let others = check_arguments rest in
    if argument == codes "repeat" || argument == codes "random"
    then (bool_type value >>= λ _. others)
    else err value_error

-- The file and the arguments of a value, where it has arguments.
abbrev arguments_of : Text → Result Exception (Text × Dict Text Text)
arguments_of value = do
  parts ← checked (split_value value (codes "|"))
  halves ← unpack parts
  arguments ← checked (parse_arguments halves.1 (codes "=") true)
  ok (halves.0, arguments)

abbrev setting : Text → Dict Text Text → Result Exception Bool
setting argument arguments = elim (lookup argument arguments) [
  | none ↦ ok false
  | some value ↦ bool_type value
]

module _ (files : Files) where
  check_file : Text → Text → Result Exception Text
  check_file csv_file value =
      if not (files.has_csv_suffix csv_file)
      then err value_error
      else if not (files.is_file csv_file)
      then err value_error
      else ok value

  -- atomiccsvreader__base_type__
  pub base_type : Text → Result Exception Text
  base_type value =
      if has_separator (codes "|") value
      then (do
        parts ← checked (split_value value (codes "|"))
        halves ← unpack parts
        arguments ← checked (parse_arguments halves.1 (codes "=") true)
        check_arguments arguments >>= λ _.
            check_file halves.0 (halves.0 ++ (codes " | " ++ halves.1)))
      else check_file value value

  -- What `__init__` reads from the checked value: the file and the settings.
  read_value : Text → Result Exception (Text × Settings)
  read_value value = do
    safe_value ← base_type value
    if has_separator (codes "|") safe_value
        then (do
          parsed ← arguments_of safe_value
          repeat ← setting (codes "repeat") parsed.1
          random ← setting (codes "random") parsed.1
          ok (parsed.0, record { repeat = repeat; random = random }))
        else ok (strip safe_value, record { repeat = false; random = false })

  -- The rest of `__init__`; before the first success the instance has no attributes.
  finish : Slot CsvReader → Text → Text × Settings → Result Exception CsvReader
  finish (ready i) variable (csv_file, settings) =
      init_values (some i.values) variable (some []) >>= λ values. ok (record {
        values = values;
        rows =
            if has_key variable i.rows
            then i.rows
            else insert variable (files.rows csv_file) i.rows;
        settings =
            if has_key variable i.settings then i.settings else insert variable settings i.settings;
      })
  finish slot variable (csv_file, settings) = init_values none variable (some []) >>= λ values.
      ok (record {
        values = values;
        rows = (variable, files.rows csv_file) ∷ [];
        settings = (variable, settings) ∷ [];
      })

  -- AtomicCsvReader(variable, value): the slot afterwards, also where it raises
  pub construct : Text → Text → Slot CsvReader → Result Exception (Unit {0}) × Slot CsvReader
  construct variable value slot =
      if not (count (codes ".") variable =ℕ 0)
      then (err value_error, allocate slot)
      else elim (read_value value >>= finish (allocate slot) variable) [
        | ok i ↦ (ok tt, ready i)
        | err e ↦ (err e, allocate slot)
      ]

-- `variable.rsplit('.', 1)`, where there is a dot: the variable and the column.
abbrev pub name_and_column : Text → Text × Option Text
name_and_column variable =
    if occurs (codes ".") variable
    then elim (rsplit_once (codes ".") variable) [
      | [] ↦ (variable, none)
      | name ∷ columns ↦ elim columns [ [] ↦ (name, none) | column ∷ _ ↦ (name, some column) ]
    ]
    else (variable, none)

-- From `if column is not None` on: the row that was taken, and the queue without it.
select_column :
    Text → Option Text → Row → List Row → CsvReader → Result Exception (Option Row) × CsvReader
select_column name none row queue i = (ok (some row), record i { rows = insert name queue i.rows })
select_column name (some column) row queue i = elim (lookup column row) [
  | none ↦ (err value_error, record i { rows = insert name (row ∷ queue) i.rows })
  | some value ↦ (ok (some ((column, value) ∷ [])), record i { rows = insert name queue i.rows })
]

-- The `try` on one variable's queue, and what follows it.
next_row : (ℕ → ℕ) → Text → Option Text → CsvReader → Result Exception (Option Row) × CsvReader
next_row pick name column i = elim (lookup name i.settings) [
  | none ↦ (err key_error, i)
  | some settings ↦ elim (lookup name i.rows) [
    | none ↦ (err key_error, i)
    | some queue ↦ elim (take_next pick settings queue) [
      | none ↦ (ok none, i)
      | some (row, rest) ↦ select_column name column row rest i
    ]
  ]
]

-- AtomicCsvReader.__getitem__
pub get_item : (ℕ → ℕ) → Text → CsvReader → Result Exception (Option Row) × CsvReader
get_item pick variable i =
    let (name, column) = name_and_column variable in next_row pick name column i

-- AtomicCsvReader.clear
pub clear : Slot CsvReader → Result Exception (Slot CsvReader)
clear absent = err value_error
clear blank = err attribute_error
clear (ready i) = ok (
    ready (record {
      values = clear_values i.values;
      rows = delete_all (keys i.rows) i.rows;
      settings = delete_all (keys i.rows) i.settings;
    }))

-- AtomicCsvReader.__delitem__
pub delete_item : Text → CsvReader → CsvReader
delete_item variable i =
    let (name, column) = name_and_column variable in
    record {
      values = remove name i.values;
      rows = remove name i.rows;
      settings = remove name i.settings;
    }
