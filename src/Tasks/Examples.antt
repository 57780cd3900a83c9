-- ===== src/Tasks/Examples.antt =====
-- A timer, and a keystore task with a default.
use grizzly.Common.{ℕ, ◌≡◌, refl, false, [], ◌∷◌, none, some, list_eq, nat_eq, Result, ok}
use grizzly.Common.Dict.{Dict, lookup, insert}
use grizzly.Common.Int.{pos, ◌+ℤ◌, ◌-ℤ◌}
use grizzly.Common.Text.{Text, codes}
use grizzly.Exceptions.{Exception, restart_scenario}
use grizzly.Tasks.Parent.{Parent, Fired}
use grizzly.Tasks.Timer.{Held, started, Place, Timer, index_of, start_timer, run_timer}
use grizzly.Tasks.Timer.Laws.{run_timer_twice}
use grizzly.Testdata.{Value, null, integer, text}
use grizzly.Testdata.Keystore.{get, Store, keystore_get}
use grizzly.Tasks.Keystore.{KeystoreTask, is_null, run_keystore}
use grizzly.Tasks.Keystore.Laws.{run_keystore-default}
use grizzly.Testdata.Keystore.Laws.{keystore_get_missing}

abbrev parent_of : {V W : Type 0} → Dict Text V → W → Parent V W
parent_of variables rest = record {
  identifier = codes "1";
  failure_exception = some restart_scenario;
  variables = variables;
  fired = [];
  errors = 0;
  rest = rest;
}

abbrev place_at : ℕ → Place
place_at i = record { task_index = i; task_count = 5 }

abbrev timer : Timer
timer = record { name = codes "t"; variable = codes "ab::t" }

abbrev running : Parent Held Place
running = parent_of ((codes "ab::t", started 1) ∷ []) (place_at 8)

abbrev unstarted : Parent Held Place
unstarted = parent_of [] (place_at 6)

same_variable :
    lookup timer.variable running.variables
    ≡ lookup timer.variable (run_timer timer unstarted).1.variables
unfolding lookup insert run_timer start_timer index_of
same_variable = refl

run_timer_twice_example :
    ((run_timer timer unstarted).0 ≡ ok tt)
    × ((run_timer timer unstarted).1.fired ≡ [])
    × ((run_timer timer running).0 ≡ ok tt)
    × ((event : Fired) × ((run_timer timer running).1.fired ≡ event ∷ [])
        × (event.response_length ≡ pos 3)
        × (event.exception ≡ none))
    × (lookup (codes "ab::t") (run_timer timer running).1.variables ≡ none)
unfolding lookup index_of ◌+ℤ◌ ◌-ℤ◌
run_timer_twice_example = run_timer_twice timer unstarted running refl same_variable

abbrev store_task : KeystoreTask
store_task = record {
  key = codes "k";
  action = get;
  action_context = text (codes "x");
  default_value = some (integer (pos 7));
}

abbrev storing : Parent Value Store
storing = parent_of [] []

abbrev as_is : Value → Parent Value Store → Result Exception Value
as_is value p = ok value

missing : keystore_get (codes "k") [] ≡ (ok null, [])
missing = keystore_get_missing (codes "k")

null_seven : is_null (integer (pos 7)) ≡ false
unfolding is_null
null_seven = refl

run_keystore-default_example :
    ((run_keystore as_is store_task storing).0 ≡ ok tt)
    × ((run_keystore as_is store_task storing).1.fired ≡ [])
    × (lookup (codes "x") (run_keystore as_is store_task storing).1.variables
        ≡ some (integer (pos 7)))
    × ((keystore_get (codes "k") (run_keystore as_is store_task storing).1.rest).0
        ≡ ok (integer (pos 7)))
run_keystore-default_example =
    run_keystore-default as_is store_task storing (integer (pos 7)) (integer (pos 7)) refl refl
      null_seven missing refl
