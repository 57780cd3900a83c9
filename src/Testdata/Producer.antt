-- ===== src/Testdata/Producer.antt =====
-- `TestdataProducer` and the replies that `TestdataConsumer` makes use of, in
-- grizzly/testdata/communication.py. The atomic variables behind the testdata are a state `W` that
-- `fetch` reads and advances; sockets, and the loop that waits for a message, are not modelled.
pub mod Iterations
pub mod Persist
mod Examples
use grizzly.Common.{
  ℕ, ◌+◌, ◌<◌, Bool, true, false, not, ◌&&◌, ◌||◌, List, [], ◌∷◌, ◌++◌, Option, none, some,
  if◌then◌else◌, ltb, list_eq, nat_eq, ◌==◌, ◌=ℕ◌, length, Result, ok, err,
}
use grizzly.Common.Dict.{Dict, lookup, insert, has_key}
use grizzly.Common.Text.{Text, codes, occurs, rsplit_once}
use grizzly.Exceptions.{Exception, key_error, type_error, not_implemented_error, stop_user}
use grizzly.Testdata.{Value, null, text, row, Spec, get_variable_spec}
use grizzly.Testdata.Keystore

-- What stands for a key of the testdata: a plain value, which may be the mark `__on_consumer__`, or an
-- atomic variable by its class. The key of an atomic variable has a dot.
pub data Variable : Type 0 where
  plain : Value → Variable
  atomic : Text → Variable

-- The data of a reply: the variables, and the values that have an alias.
pub record Data : Type 0 where
  pub variables : Dict Text Value
  pub aliases : Dict Text Value

pub data Reply : Type 0 where
  stop : Option Data → Reply
  consume : Data → Reply

-- What the producer reads and does not change: the iterations of each scenario, by its class name, its
-- testdata, and the aliases.
pub record Setup : Type 0 where
  pub scenarios : Dict Text ℕ
  pub testdata : Dict Text (Dict Text Variable)
  pub alias : Dict Text Text

pub record Producer (W : Type 0) : Type 0 where
  pub scenarios_iteration : Dict Text ℕ
  pub keystore : Keystore.Store
  pub variables : W
  pub has_persisted : Bool
  pub persist_file : Option (Dict Text Text)

abbrev is_mark : Variable → Bool
is_mark (plain (text t)) = t == codes "__on_consumer__"
is_mark _ = false

abbrev text_of : Option Text → Text
text_of none = codes "None"
text_of (some t) = t

abbrev last_part : Text → Text
last_part key = elim (rsplit_once (codes ".") key) [
  | [] ↦ key
  | first ∷ rest ↦ elim rest [ [] ↦ first | last ∷ _ ↦ last ]
]

-- `{variable_type}.{variable_name}`, with the module in front unless it is the default one
abbrev testdata_type : Spec → Text
testdata_type spec =
    let own = text_of spec.variable_type ++ (codes "." ++ text_of spec.variable_name) in
    if text_of spec.module_name == codes "grizzly.testdata.variables"
    then own
    else text_of spec.module_name ++ (codes "." ++ own)

-- `value[attribute]`
abbrev attribute_of : Text → Value → Result Exception Value
attribute_of attribute (row columns) = elim (lookup attribute columns) [
  | none ↦ err key_error
  | some t ↦ ok (text t)
]
attribute_of attribute _ = err type_error

-- What the loop over the testdata of one scenario carries.
pub record Loop (W : Type 0) : Type 0 where
  pub result : Data
  pub loaded : Dict Text Value
  pub variables : W

-- A round ends with a value, goes on to the next key, or raises.
data Found : Type 0 where
  value_found : Value → Found
  skipped : Found
  raised : Exception → Found

abbrev found_of : Result Exception Value → Found
found_of (ok v) = value_found v
found_of (err not_implemented_error) = skipped
found_of (err e) = raised e

abbrev raise_of : Result Exception Value → Found
raise_of (ok v) = value_found v
raise_of (err e) = raised e

abbrev plain_found : Variable → Found
plain_found (plain v) = value_found v
plain_found (atomic class) = raised type_error

-- How the loop ends: it collected the data, it met a value that is missing (`break`), or it raised.
data Collected (W : Type 0) : Type 0 where
  collected : Data → W → Collected W
  halted : W → Collected W
  failed : Exception → W → Collected W

abbrev is_null : Value → Bool
is_null null = true
is_null _ = false

abbrev testdata_of : Setup → Text → Dict Text Variable
testdata_of setup scenario = elim (lookup scenario setup.testdata) [ none ↦ [] | some d ↦ d ]

abbrev stop_on_type_error : Exception → Result Exception Reply
stop_on_type_error type_error = ok (stop none)
stop_on_type_error e = err e

-- What follows the loop; `except TypeError` is a case of `stop_on_type_error`.
conclude : {W : Type 0} → Text → ℕ → Producer W → Collected W → Result Exception Reply × Producer W
conclude scenario count p (collected values w) = (
  ok (consume values),
  record p {
    scenarios_iteration = insert scenario (count + 1) p.scenarios_iteration;
    variables = w;
  },
)
conclude scenario count p (halted w) =
    (ok (stop (some (record { variables = []; aliases = [] }))), record p { variables = w })
conclude scenario count p (failed e w) = (stop_on_type_error e, record p { variables = w })

-- The first request for a scenario with iterations starts its count.
first_count : {W : Type 0} → Text → ℕ → Producer W → Producer W
first_count scenario iterations p = record p {
  scenarios_iteration =
      if not (has_key scenario p.scenarios_iteration) && ltb 0 iterations
      then insert scenario 0 p.scenarios_iteration
      else p.scenarios_iteration;
}

module _ {W : Type 0} (fetch : Text → Text → W → Result Exception Value × W) where
  -- `variable[variable_name]`
  subscript : Variable → Text → W → Result Exception Value × W
  subscript (atomic class) name w = fetch class name w
  subscript _ name w = (err type_error, w)

  -- A dotted key whose last part is a column: the row is fetched once for all its columns.
  fetch_column : Variable → Spec → Text → Loop W → Found × Loop W
  fetch_column variable spec attribute l = elim (lookup (testdata_type spec) l.loaded) [
    | some value ↦ (raise_of (attribute_of attribute value), l)
    | none ↦
        let (result, w) = subscript variable (text_of spec.variable_name) l.variables in
        let l' = record l { variables = w } in
        elim result [
          | err e ↦ (found_of (err e), l')
          | ok value ↦ (
            raise_of (attribute_of attribute value),
            record l' { loaded = insert (testdata_type spec) value l.loaded },
          )
        ]
  ]

  fetch_whole : Variable → Spec → Loop W → Found × Loop W
  fetch_whole variable spec l =
      let (result, w) = subscript variable (text_of spec.variable_name) l.variables in
      (found_of result, record l { variables = w })

  -- The value of one key.
  find_value : Text → Variable → Loop W → Found × Loop W
  find_value key variable l =
      let spec = get_variable_spec key in
      if occurs (codes ".") key && not (is_mark variable)
      then (if not (text_of spec.variable_name == last_part key)
          then fetch_column variable spec (last_part key) l
          else fetch_whole variable spec l)
      else (plain_found variable, l)

  module _ (setup : Setup) where
    add_value : Text → Value → Loop W → Loop W
    add_value key value l = record l {
      result = record {
        variables = insert key value l.result.variables;
        aliases = elim (lookup key setup.alias) [
          | none ↦ l.result.aliases
          | some data_key ↦ insert data_key value l.result.aliases
        ];
      };
    }

    -- The loop over the testdata of the scenario.
    collect : Text → Dict Text ℕ → List (Text × Variable) → Loop W → Collected W
    collect scenario counts [] l = collected l.result l.variables
    collect scenario counts ((key, variable) ∷ rest) l =
        let (found, l') = find_value key variable l in
        elim found [
          | raised e ↦ failed e l'.variables
          | skipped ↦ collect scenario counts rest l'
          | value_found value ↦
              if is_null value && not (has_key scenario counts)
              then halted l'.variables
              else collect scenario counts rest (add_value key value l')
        ]

    abbrev collect_all : Text → Dict Text ℕ → W → Collected W
    collect_all scenario counts w =
        collect scenario counts (testdata_of setup scenario)
          (record { result = record { variables = []; aliases = [] }; loaded = []; variables = w })

    -- From the loop to the end.
    serve : Text → ℕ → Producer W → Result Exception Reply × Producer W
    serve scenario count p =
        conclude scenario count p (collect_all scenario p.scenarios_iteration p.variables)

    -- The test on the count of iterations.
    answer : Text → ℕ → Option ℕ → Producer W → Result Exception Reply × Producer W
    answer scenario iterations none p = (ok (stop none), p)
    answer scenario iterations (some count) p =
        if not (ltb count iterations) then (ok (stop none), p) else serve scenario count p

    -- TestdataProducer._handle_request_testdata
    pub handle_testdata : Text → Producer W → Result Exception Reply × Producer W
    handle_testdata scenario p = elim (lookup scenario setup.scenarios) [
      | none ↦ (ok (stop none), p)
      | some iterations ↦
          let p' = first_count scenario iterations p in
          answer scenario iterations (lookup scenario p'.scenarios_iteration) p'
    ]
