-- ===== src/Tasks/Keystore.antt =====
-- `KeystoreTask` of grizzly/tasks/keystore.py, on the store that the producer keeps (Testdata/Keystore).
-- `rendered` stands for `jsonloads(parent.render(jsondumps(value)))`.
pub mod Laws
use grizzly.Common.{
  ℕ, Bool, true, false, not, List, [], ◌∷◌, ◌++◌, Option, none, some, if◌then◌else◌, list_eq,
  nat_eq, Result, ok, err,
}
use grizzly.Common.Dict.{Dict, lookup, insert, has_key}
use grizzly.Common.Int.{pos}
use grizzly.Common.Text.{Text, codes}
use grizzly.Exceptions.{Exception, runtime_error}
use grizzly.Tasks.Parent.{Parent, Task, caught, raised, fire}
use grizzly.Testdata.{Value, null, text}
use grizzly.Testdata.Keystore.{
  Action, get, set, inc, unknown, Store, keystore_get, keystore_set, keystore_inc,
}
use grizzly.Common.Int.{ℤ}

-- `action_context` is the name of a variable, or the value that is set.
pub record KeystoreTask : Type 0 where
  pub key : Text
  pub action : Action
  pub action_context : Value
  pub default_value : Option Value

-- The name of an initialized variable.
is_variable : Dict Text Value → Value → Bool
is_variable variables (text name) = has_key name variables
is_variable variables _ = false

unfoldable pub is_null : Value → Bool
is_null null = true
is_null _ = false

-- KeystoreTask.__init__, for the variables that have been initialized
pub construct :
    Dict Text Value → Text → Action → Value → Option Value → Result Exception KeystoreTask
construct variables key action action_context default_value =
    let task : KeystoreTask = record {
      key = key;
      action = action;
      action_context = action_context;
      default_value = default_value;
    } in
    let of_variable : Result Exception KeystoreTask =
      if is_variable variables action_context then ok task else err runtime_error in
    elim action [
      | get ↦ of_variable
      | inc ↦ of_variable
      | set ↦ if is_null action_context then err runtime_error else ok task
      | unknown ↦ err runtime_error
    ]

-- `value`, where it is None and there is a default that is put into the keystore.
pub or_default : Text → Option Value → Value → Store → Value × Store
or_default key (some default) null store =
    if is_null default then (null, store) else (default, keystore_set key default store)
or_default key none null store = (null, store)
or_default key default value store = (value, store)

-- self.action_context as the name of a variable
abbrev pub variable_of : Value → Text
variable_of (text name) = name
variable_of _ = []

module _ (rendered : Value → Parent Value Store → Result Exception Value) where
  -- The value becomes that of the variable, and None is an error.
  pub set_variable : Text → Value → Task Value Store
  set_variable variable value p =
      if is_null value then (err runtime_error, p) else elim (rendered value p) [
        | err e ↦ (err e, p)
        | ok v ↦ (ok tt, record p { variables = insert variable v p.variables })
      ]

  pub after_default :
      KeystoreTask
      → Parent Value Store
      → Value × Store
      → Result Exception (Unit {0}) × Parent Value Store
  after_default task p (value, store) =
      set_variable (variable_of task.action_context) value (record p { rest = store })

  pub after_get :
      KeystoreTask
      → Parent Value Store
      → Result Exception Value × Store
      → Result Exception (Unit {0}) × Parent Value Store
  after_get task p (err e, store) = (err e, record p { rest = store })
  after_get task p (ok value, store) =
      after_default task p (or_default task.key task.default_value value store)

  pub after_inc :
      KeystoreTask
      → Parent Value Store
      → Result Exception Value × Store
      → Result Exception (Unit {0}) × Parent Value Store
  after_inc task p (err e, store) = (err e, record p { rest = store })
  after_inc task p (ok value, store) =
      set_variable (variable_of task.action_context) value (record p { rest = store })

  -- The `try` of the task.
  pub try_action : KeystoreTask → Task Value Store
  try_action task p = elim task.action [
    | get ↦ after_get task p (keystore_get task.key p.rest)
    | inc ↦ after_inc task p (keystore_inc task.key (pos 1) p.rest)
    | set ↦ (ok tt, record p { rest = keystore_set task.key task.action_context p.rest })
    | unknown ↦ (ok tt, p)
  ]

  -- The `except Exception`, for what the `try` left.
  pub after_action :
      Text
      → Result Exception (Unit {0}) × Parent Value Store
      → Result Exception (Unit {0}) × Parent Value Store
  after_action key (result, p) = elim (caught result) [
    | none ↦ (result, p)
    | some e ↦ (raised p.failure_exception result, fire (codes "KEYS") key (pos 1) (some e) p)
  ]

  -- The task of KeystoreTask.__call__.
  pub run_keystore : KeystoreTask → Task Value Store
  run_keystore task p = after_action task.key (try_action task p)
