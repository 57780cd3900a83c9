-- ===== src/Tasks/Wait.antt =====
-- `WaitBetweenTask` of grizzly/tasks/wait_between.py and `ExplicitWaitTask` of
-- grizzly/tasks/wait_explicit.py. `F` is the type of floats, with `float` and the test `>`; `render`
-- stands for jinja2, and `sleep` for gevent.
pub mod Laws
use grizzly.Common.{
  ℕ, ◌<◌, Bool, true, false, List, [], ◌∷◌, ◌++◌, Option, none, some, if◌then◌else◌, ltb, length,
  Result, ok, err,
}
use grizzly.Common.Int.{pos}
use grizzly.Common.Text.{Text, codes, strip}
use grizzly.Exceptions.{Exception, runtime_error, stop_user, value_error}
use grizzly.Tasks.Parent.{Parent, Task, caught, fire}

-- The `wait_time` of a user.
pub data WaitTime (F : Type 0) : Type 0 where
  constant : F → WaitTime F
  between : F → F → WaitTime F

pub record WaitBetween : Type 0 where
  pub min_time : Text
  pub max_time : Option Text

module _ {F V : Type 0} (render : Text → Parent V (WaitTime F) → Result Exception Text)
    (float : Text → Option F) (greater : F → F → Bool) where
  -- A rendered time; what `render` raises leaves the task as it is.
  unfoldable pub read_time : Text → Parent V (WaitTime F) → Result Exception F
  read_time time p = elim (render time p) [
    | err e ↦ err e
    | ok rendered ↦ elim (float (strip rendered)) [ none ↦ err stop_user | some f ↦ ok f ]
  ]

  pub wait_time : WaitBetween → Parent V (WaitTime F) → Result Exception (WaitTime F)
  wait_time task p = elim (read_time task.min_time p) [
    | err e ↦ err e
    | ok min_time ↦ elim task.max_time [
      | none ↦ ok (constant min_time)
      | some max ↦ elim (read_time max p) [
        | err e ↦ err e
        | ok max_time ↦ ok (
            if greater min_time max_time
            then between max_time min_time
            else between min_time max_time)
      ]
    ]
  ]

  -- The task of WaitBetweenTask.__call__.
  pub run_wait_between : WaitBetween → Task V (WaitTime F)
  run_wait_between task p = elim (wait_time task p) [
    | err e ↦ (err e, p)
    | ok time ↦ (ok tt, record p { rest = time })
  ]

module _ {F V W : Type 0} (render : Text → Parent V W → Result Exception Text)
    (float : Text → Option F) (sleep : F → Task V W) where
  -- The `try` of ExplicitWaitTask.__call__.
  try_wait : Text → Task V W
  try_wait time_expression p = elim (render time_expression p) [
    | err e ↦ (err e, p)
    | ok rendered ↦
        let slept : Result Exception (Unit {0}) × Parent V W = elim (float (strip rendered)) [
          | none ↦ (err value_error, p)
          | some time ↦ sleep time p
        ] in
        if ltb (length (strip rendered)) 1 then (err runtime_error, p) else slept
  ]

  -- The `except Exception`, for what the `try` left.
  after_wait :
      Text → Result Exception (Unit {0}) × Parent V W → Result Exception (Unit {0}) × Parent V W
  after_wait time_expression (result, p) = elim (caught result) [
    | none ↦ (result, p)
    | some e ↦ (
      err stop_user,
      fire (codes "WAIT") (codes "ExplicitWaitTask=>" ++ time_expression) (pos 0) (some e) p,
    )
  ]

  -- The task of ExplicitWaitTask.__call__.
  pub run_wait : Text → Task V W
  run_wait time_expression p = after_wait time_expression (try_wait time_expression p)
