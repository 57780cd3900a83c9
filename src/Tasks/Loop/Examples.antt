-- ===== src/Tasks/Loop/Examples.antt =====
-- A loop over two values, whose task writes down the value of the variable, and one whose task raises in the second round.
use grizzly.Common.{
  ℕ, ◌≡◌, Bool, false, ◌=ℕ◌, if◌then◌else◌, refl, List, [], ◌∷◌, Option, none, some, list_eq,
  nat_eq, Result, ok, err, suc,
}
use grizzly.Common.Dict.{lookup, insert}
use grizzly.Common.Int.{pos}
use grizzly.Common.Text.{Text, codes}
use grizzly.Exceptions.{Exception, runtime_error, restart_scenario}
use grizzly.Tasks.Parent.{Parent, Task, caught, run_tasks}
use grizzly.Tasks.Loop.{
  Json, values_of, Loop, set_variable, after_value, run_values, read_values, run_loop,
}
use grizzly.Tasks.Loop.Laws.{
  reported_length, original, last_event, run_loop-succeeds, run_loop-fails,
}

abbrev World : Type 0
World = Parent ℕ (List (Option ℕ))

abbrev no_sleep : Task ℕ (List (Option ℕ))
no_sleep p = (ok tt, p)

abbrev note : Task ℕ (List (Option ℕ))
note p = (ok tt, record p { rest = lookup (codes "x") p.variables ∷ p.rest })

abbrev is_two : Option ℕ → Bool
is_two none = false
is_two (some n) = n =ℕ 2

abbrev start : World
start = record {
  identifier = codes "1";
  failure_exception = some restart_scenario;
  variables = (codes "x", 7) ∷ [];
  fired = [];
  errors = 0;
  rest = [];
}

abbrev loop_of : Task ℕ (List (Option ℕ)) → Loop ℕ (List (Option ℕ))
loop_of task = record {
  name = codes "each";
  values = codes "[1, 2]";
  variable = codes "x";
  tasks = (record { name = some (codes "each:note"); run = task }) ∷ [];
}

abbrev same_text : Text → World → Result Exception Text
same_text text p = ok text

abbrev one_two : Text → Result Exception (Json ℕ)
one_two text = ok (values_of (1 ∷ 2 ∷ []))

-- What the two rounds leave.
abbrev noted : World
noted = record start { rest = some 2 ∷ some 1 ∷ [] }

runs : run_values no_sleep (codes "x") 7 (note ∷ []) (1 ∷ 2 ∷ []) start ≡ (ok tt, noted)
unfolding run_values after_value insert lookup run_tasks
runs = refl

original_value : original 0 (codes "x") start ≡ 7
unfolding lookup
original_value = refl

reads : read_values same_text one_two (codes "[1, 2]") start ≡ ok (1 ∷ 2 ∷ [])
unfolding read_values
reads = refl

run_loop-succeeds_example :
    ((run_loop no_sleep same_text one_two 0 (loop_of note) start).0 ≡ ok tt)
    × (lookup (codes "x") (run_loop no_sleep same_text one_two 0 (loop_of note) start).1.variables
        ≡ some (original 0 (codes "x") start))
    × (reported_length (run_loop no_sleep same_text one_two 0 (loop_of note) start).1
        ≡ some (pos (suc 1), none))
unfolding lookup
run_loop-succeeds_example =
    run_loop-succeeds same_text one_two 0 no_sleep (loop_of note) 1 (2 ∷ []) start noted reads runs

-- The third of three values is never reached.
abbrev to_three : Text → Result Exception (Json ℕ)
to_three text = ok (values_of (1 ∷ 2 ∷ 3 ∷ []))

-- It raises where its variable is 2.
abbrev fails_at_two : Task ℕ (List (Option ℕ))
fails_at_two p =
    if is_two (lookup (codes "x") p.variables) then (err runtime_error, p) else (ok tt, p)

reads_three : read_values same_text to_three (codes "[1, 2]") start ≡ ok (1 ∷ 2 ∷ 3 ∷ [])
unfolding read_values
reads_three = refl

first_round : run_values no_sleep (codes "x") 7 (fails_at_two ∷ []) (1 ∷ []) start ≡ (ok tt, start)
unfolding run_values after_value insert lookup run_tasks
first_round = refl

fails :
    run_tasks no_sleep (fails_at_two ∷ []) (set_variable (codes "x") 2 start)
    ≡ (err runtime_error, set_variable (codes "x") 2 start)
unfolding run_tasks lookup insert
fails = refl

run_loop-fails_example :
    ((run_loop no_sleep same_text to_three 0 (loop_of fails_at_two) start).0 ≡ err restart_scenario)
    × ((run_loop no_sleep same_text to_three 0 (loop_of fails_at_two) start).1.variables
        ≡ (set_variable (codes "x") 2 start).variables)
    × ((run_loop no_sleep same_text to_three 0 (loop_of fails_at_two) start).1.fired
        ≡ last_event (loop_of fails_at_two) 3 runtime_error (set_variable (codes "x") 2 start) ∷ [])
unfolding caught insert lookup
run_loop-fails_example =
    run_loop-fails same_text to_three 0 no_sleep (loop_of fails_at_two) (1 ∷ []) (3 ∷ []) 2 start
      start (set_variable (codes "x") 2 start) runtime_error restart_scenario reads_three
      first_round fails refl refl
