-- ===== src/Tasks/Parent.antt =====
-- What the tasks of grizzly/tasks see of the scenario that runs them, and what their `try` statements
-- share. `V` is the type of the values of variables, and `W` the rest of the user.
use grizzly.Common.{ℕ, List, [], ◌∷◌, ◌++◌, Option, none, some, Result, ok, err}
use grizzly.Common.Dict.{Dict}
use grizzly.Common.Int.{ℤ}
use grizzly.Common.Text.{Text, codes}
use grizzly.Exceptions.{Exception, greenlet_exit}

-- A request event.
pub record Fired : Type 0 where
  pub request_type : Text
  pub name : Text
  pub response_length : ℤ
  pub exception : Option Exception

-- `errors` counts the errors that are logged without an event; the last event stands first.
pub record Parent (V W : Type 0) : Type 0 where
  pub identifier : Text
  pub failure_exception : Option Exception
  pub variables : Dict Text V
  pub fired : List Fired
  pub errors : ℕ
  pub rest : W

abbrev pub Task : Type 0 → Type 0 → Type 0
Task V W = Parent V W → Result Exception (Unit {0}) × Parent V W

-- A task with the attribute `name`, where it has one.
pub record Named (A : Type 0) : Type 0 where
  pub name : Option Text
  pub run : A

-- The wrappers put their own name in front of the names of the tasks that they are given.
unfoldable pub rename : {A : Type 0} → Text → Named A → Named A
rename wrapper task = elim task.name [
  | none ↦ task
  | some name ↦ record task { name = some (wrapper ++ (codes ":" ++ name)) }
]

-- The variable that `except Exception as e: exception = e` sets. `GreenletExit` passes it by.
unfoldable pub caught : {A : Type 0} → Result Exception A → Option Exception
caught (ok a) = none
caught (err greenlet_exit) = none
caught (err e) = some e

-- What leaves a `finally` that ends with `raise failure_exception from exception`.
unfoldable pub raised : Option Exception → Result Exception (Unit {0}) → Result Exception (Unit {0})
raised failure (ok _) = ok tt
raised failure (err greenlet_exit) = err greenlet_exit
raised none (err e) = ok tt
raised (some failure) (err e) = err failure

module _ {V W : Type 0} where
  unfoldable pub fire : Text → Text → ℤ → Option Exception → Parent V W → Parent V W
  fire request_type name response_length exception p = record p {
    fired =
        (record {
          request_type = request_type;
          name = p.identifier ++ (codes " " ++ name);
          response_length = response_length;
          exception = exception;
        })
        ∷ p.fired;
  }

  -- The wrapped tasks, each followed by `gsleep(parent.user.wait_time())`; the first exception ends it.
  unfoldable pub run_tasks : Task V W → List (Task V W) → Task V W
  run_tasks sleep [] p = (ok tt, p)
  run_tasks sleep (task ∷ tasks) p =
      let (result, p') = task p in
      elim result [
        | err e ↦ (err e, p')
        | ok _ ↦
            let (slept, p'') = sleep p' in
            elim slept [ err e ↦ (err e, p'') | ok _ ↦ run_tasks sleep tasks p'' ]
      ]

  -- The hooks of the wrapped tasks, in order.
  unfoldable pub run_hooks : List (Task V W) → Task V W
  run_hooks [] p = (ok tt, p)
  run_hooks (hook ∷ hooks) p =
      let (result, p') = hook p in elim result [ err e ↦ (err e, p') | ok _ ↦ run_hooks hooks p' ]
