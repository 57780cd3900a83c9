-- ===== src/Tasks/Keystore/Laws.antt =====
-- The default value of a key.
use grizzly.Common.{◌≡◌, ◌∙◌, refl, ap, false, some, list_eq, nat_eq, Result, ok}
use grizzly.Common.Dict.{lookup, insert, lookup-insert_self}
use grizzly.Exceptions.{Exception}
use grizzly.Tasks.Parent.{Parent, caught}
use grizzly.Testdata.{Value, null}
use grizzly.Testdata.Keystore.{get, Store, keystore_get, keystore_set}
use grizzly.Testdata.Keystore.Laws.{keystore_get-set}
use grizzly.Tasks.Keystore.{
  KeystoreTask, is_null, or_default, variable_of, set_variable, after_get, after_default,
  try_action, after_action, run_keystore,
}

module _ (rendered : Value → Parent Value Store → Result Exception Value) where
  after_default-ok :
      (task : KeystoreTask) (p : Parent Value Store) (default value : Value) (store : Store)
      → is_null default ≡ false
      → rendered default (record p { rest = store }) ≡ ok value
      → after_default rendered task p (default, store) ≡ (
        ok tt,
        record p {
          variables = insert (variable_of task.action_context) value p.variables;
          rest = store;
        },
      )
  unfolding after_default set_variable
  after_default-ok task p default value store given renders =
      rw (after_default, set_variable, given, renders) refl

  -- A `get` of a key that the keystore has no value for, with a default that is not None and that
  -- renders: the task returns without an event, the variable has the rendered default, and the next get
  -- of that key finds the default.
  pub run_keystore-default :
      (task : KeystoreTask) (p : Parent Value Store) (default value : Value)
      → task.action ≡ get
      → task.default_value ≡ some default
      → is_null default ≡ false
      → keystore_get task.key p.rest ≡ (ok null, p.rest)
      → rendered default (record p { rest = keystore_set task.key default p.rest }) ≡ ok value
      → ((run_keystore rendered task p).0 ≡ ok tt)
        × ((run_keystore rendered task p).1.fired ≡ p.fired)
        × (lookup (variable_of task.action_context) (run_keystore rendered task p).1.variables
            ≡ some value)
        × ((keystore_get task.key (run_keystore rendered task p).1.rest).0 ≡ ok default)
  unfolding run_keystore try_action after_get after_action or_default caught
  run_keystore-default task p default value gets has given missing renders =
      let p' : Parent Value Store = record p {
        variables = insert (variable_of task.action_context) value p.variables;
        rest = keystore_set task.key default p.rest;
      } in
      let defaulted : or_default task.key task.default_value null p.rest
          ≡ (default, keystore_set task.key default p.rest) =
        rw (has, given) refl in
      let sets =
        ap (after_default rendered task p) defaulted
        ∙ after_default-ok task p default value (keystore_set task.key default p.rest) given
            renders in
      let runs : run_keystore rendered task p ≡ (ok tt, p') =
        rw (run_keystore, try_action, gets, missing, after_get, sets) refl in
      (
        rw runs refl,
        rw runs refl,
        rw runs (lookup-insert_self (variable_of task.action_context) value p.variables),
        rw runs (ap (λ r. r.0) (keystore_get-set task.key default p.rest)),
      )
