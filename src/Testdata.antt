-- ===== src/Testdata.antt =====
-- grizzly/testdata: the values that the producer hands out, and the names of variables
-- (`GrizzlyVariables.get_variable_spec` of grizzly/testdata/__init__.py).
pub mod Keystore
pub mod Producer
use grizzly.Common.{
  Bool, true, false, not, ◌||◌, List, [], ◌∷◌, ◌++◌, Option, none, some, if◌then◌else◌, ◌=ℕ◌,
}
use grizzly.Common.Dict.{Dict}
use grizzly.Common.Int.{ℤ}
use grizzly.Common.Text.{Text, codes, count, occurs, split, starts_with, join}

-- What a testdata variable or a key of the keystore can hold: the JSON values that the program makes.
pub data Value : Type 0 where
  null : Value
  boolean : Bool → Value
  integer : ℤ → Value
  text : Text → Value
  row : Dict Text Text → Value

pub record Spec : Type 0 where
  pub module_name : Option Text
  pub variable_type : Option Text
  pub variable_name : Option Text
  pub sub_variable_name : Option Text

-- The variables of the loop over the parts of a name.
record Parts : Type 0 where
  namespace : List Text
  variable_type : Option Text
  variable_name : Option Text
  sub_variable_names : List Text

add_part : Parts → Text → Parts
add_part p part =
    if starts_with (codes "Atomic") part
    then record p { variable_type = some part }
    else elim p.variable_type [
      | none ↦ record p { namespace = p.namespace ++ part ∷ [] }
      | some _ ↦ elim p.variable_name [
        | none ↦ record p { variable_name = some part }
        | some _ ↦ record p { sub_variable_names = p.sub_variable_names ++ part ∷ [] }
      ]
    ]

add_parts : Parts → List Text → Parts
add_parts p [] = p
add_parts p (part ∷ parts) = add_parts (add_part p part) parts

abbrev join_some : List Text → Option Text
join_some [] = none
join_some (part ∷ parts) = some (join (codes ".") (part ∷ parts))

abbrev default_module : Text
default_module = codes "grizzly.testdata.variables"

spec_of : Parts → Spec
spec_of p = record {
  module_name = elim (join_some p.namespace) [ none ↦ some default_module | some m ↦ some m ];
  variable_type = p.variable_type;
  variable_name = p.variable_name;
  sub_variable_name = join_some p.sub_variable_names;
}

pub get_variable_spec : Text → Spec
get_variable_spec name =
    if count (codes ".") name =ℕ 0 || not (occurs (codes "Atomic") name)
    then record {
      module_name = none;
      variable_type = none;
      variable_name = some name;
      sub_variable_name = none;
    }
    else spec_of (
        add_parts
          (record {
            namespace = [];
            variable_type = none;
            variable_name = none;
            sub_variable_names = [];
          })
          (split b'.' name))
