-- ===== src/Tasks/Timer.antt =====
-- `TimerTask` of grizzly/tasks/timer.py. `sha1` stands for the first characters of the hash; times are
-- left out.
pub mod Laws
use grizzly.Common.{
  ℕ, ◌+◌, ◌%◌, List, [], ◌∷◌, ◌++◌, Option, none, some, list_eq, nat_eq, Result, ok, err,
}
use grizzly.Common.Dict.{Dict, lookup, insert, remove}
use grizzly.Common.Int.{ℤ, pos, ◌+ℤ◌, ◌-ℤ◌}
use grizzly.Common.Text.{Text, codes}
use grizzly.Exceptions.{Exception, type_error}
use grizzly.Tasks.Parent.{Parent, Task, fire}

-- What a variable holds: the start of a timer with the index of its task, None, or something else.
pub data Held : Type 0 where
  started : ℕ → Held
  nothing something : Held

-- The index of the running task, and the number of tasks.
pub record Place : Type 0 where
  pub task_index : ℕ
  pub task_count : ℕ

pub record Timer : Type 0 where
  pub name : Text
  pub variable : Text

-- TimerTask.__init__
pub construct : (Text → Text) → Text → Timer
construct sha1 name = record {
  name = name;
  variable = sha1 (codes "timer-" ++ name) ++ (codes "::" ++ name);
}

-- parent._task_index % len(parent.tasks)
unfoldable pub index_of : Place → ℕ
index_of place = place.task_index % place.task_count

unfoldable pub start_timer : Timer → Task Held Place
start_timer timer p =
    (ok tt, record p { variables = insert timer.variable (started (index_of p.rest)) p.variables })

pub stop_timer : Timer → ℕ → Task Held Place
stop_timer timer start p =
    let response_length = (pos (index_of p.rest) -ℤ pos start) +ℤ pos 1 in
    let fired = fire (codes "TIMR") timer.name response_length none p in
    (ok tt, record fired { variables = remove timer.variable fired.variables })

-- The task of TimerTask.__call__.
unfoldable pub run_timer : Timer → Task Held Place
run_timer timer p = elim (lookup timer.variable p.variables) [
  | none ↦ start_timer timer p
  | some held ↦ elim held [
    | nothing ↦ start_timer timer p
    | started start ↦ stop_timer timer start p
    | something ↦ (err type_error, p)
  ]
]
