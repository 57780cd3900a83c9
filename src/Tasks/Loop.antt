-- ===== src/Tasks/Loop.antt =====
-- `LoopTask` of grizzly/tasks/loop.py. `render` and `loads` stand for jinja2 and `json.loads`.
pub mod Laws
mod Examples
use grizzly.Common.{
  ℕ, ◌+◌, Bool, true, false, not, List, [], ◌∷◌, ◌++◌, map, Option, none, some, if◌then◌else◌,
  length, list_eq, nat_eq, ◌=ℕ◌, Result, ok, err,
}
use grizzly.Common.Dict.{Dict, lookup, insert, has_key}
use grizzly.Common.Int.{ℤ, pos}
use grizzly.Common.Text.{Text, codes}
use grizzly.Common.Decimal.{show}
use grizzly.Exceptions.{Exception, type_error, assertion_error, is_instance}
use grizzly.Tasks.Parent.{Named, Parent, Task, rename, caught, raised, fire, run_tasks}

-- What `json.loads` returns: a list, or something else.
pub data Json (V : Type 0) : Type 0 where
  values_of : List V → Json V
  no_list : Json V

pub record Loop (V W : Type 0) : Type 0 where
  pub name : Text
  pub values : Text
  pub variable : Text
  pub tasks : List (Named (Task V W))

-- LoopTask.__init__; `variables` are those that have been initialized
construct : {V W X : Type 0} → Dict Text X → Text → Text → Text → Result Exception (Loop V W)
construct variables name values variable =
    if has_key variable variables
    then ok (record { name = name; values = values; variable = variable; tasks = [] })
    else err assertion_error

-- LoopTask.add, LoopTask.peek
add : {V W : Type 0} → Named (Task V W) → Loop V W → Loop V W
add task loop = record loop { tasks = loop.tasks ++ rename loop.name task ∷ [] }

peek : {V W : Type 0} → Loop V W → List (Named (Task V W))
peek loop = loop.tasks

module _ {V W : Type 0} where
  abbrev pub set_variable : Text → V → Parent V W → Parent V W
  set_variable variable value p = record p { variables = insert variable value p.variables }

  -- What follows the tasks for one value: `orig_value` is set back, and the loop goes on.
  pub after_value :
      Text
      → V
      → Task V W
      → Result Exception (Unit {0}) × Parent V W
      → Result Exception (Unit {0}) × Parent V W
  after_value variable orig_value more (ok _, p) = more (set_variable variable orig_value p)
  after_value variable orig_value more (err e, p) = (err e, p)

  -- The values, or the exception before the loop.
  pub read_values :
      (Text → Parent V W → Result Exception Text)
      → (Text → Result Exception (Json V))
      → Text
      → Parent V W
      → Result Exception (List V)
  read_values render loads values p = elim (render values p) [
    | err e ↦ err e
    | ok text ↦ elim (loads text) [
      | err e ↦ err e
      | ok json ↦ elim json [ values_of vs ↦ ok vs | no_list ↦ err type_error ]
    ]
  ]

  -- The `finally`: an exception of the failure's own class is raised again without an event.
  pub finish : Loop V W → ℕ → Result Exception (Unit {0}) → Task V W
  finish loop response_length result p =
      let name = loop.name ++ (codes " (" ++ (show (pos (length loop.tasks)) ++ codes ")")) in
      let fired = fire (codes "LOOP") name (pos response_length) (caught result) p in
      elim (caught result) [
        | none ↦ (raised p.failure_exception result, fired)
        | some e ↦ elim p.failure_exception [
          | none ↦ (ok tt, fired)
          | some failure ↦ if is_instance e failure then (err e, p) else (err failure, fired)
        ]
      ]

module _ {V W : Type 0} (sleep : Task V W) where
  -- The loop over the values.
  pub run_values : Text → V → List (Task V W) → List V → Task V W
  run_values variable orig_value tasks [] p = (ok tt, p)
  run_values variable orig_value tasks (value ∷ values) p =
      after_value variable orig_value (run_values variable orig_value tasks values)
        (run_tasks sleep tasks (set_variable variable value p))

  module _ (render : Text → Parent V W → Result Exception Text)
      (loads : Text → Result Exception (Json V)) (null : V) where
    -- The task of LoopTask.__call__.
    pub run_loop : Loop V W → Task V W
    run_loop loop p =
        let orig_value : V = elim (lookup loop.variable p.variables) [ none ↦ null | some v ↦ v ] in
        elim (read_values render loads loop.values p) [
          | err e ↦ finish loop 0 (err e) p
          | ok values ↦
              let (result, p') =
                run_values loop.variable orig_value (map (λ t. t.run) loop.tasks) values p in
              finish loop (length values) result p'
        ]
