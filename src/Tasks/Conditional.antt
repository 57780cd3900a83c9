-- ===== src/Tasks/Conditional.antt =====
-- `ConditionalTask` of grizzly/tasks/conditional.py. `render` stands for jinja2.
pub mod Runs
pub mod Laws
mod Examples
use grizzly.Common.{
  ℕ, ◌+◌, Bool, true, false, not, ◌||◌, List, [], ◌∷◌, ◌++◌, map, Option, none, some, if◌then◌else◌,
  length, list_eq, nat_eq, ◌==◌, Result, ok, err,
}
use grizzly.Common.Int.{ℤ, pos}
use grizzly.Common.Text.{Text, codes}
use grizzly.Common.Decimal.{show}
use grizzly.Exceptions.{Exception, runtime_error, key_error, stop_user, restart_scenario}
use grizzly.Tasks.Parent.{Named, Parent, Task, rename, caught, raised, fire, run_tasks}

-- `tasks` has a list for each pointer that it was switched to.
pub record Conditional (V W : Type 0) : Type 0 where
  pub name : Text
  pub condition : Text
  pub pointer : Option Bool
  pub on_true : Option (List (Named (Task V W)))
  pub on_false : Option (List (Named (Task V W)))

module _ {V W : Type 0} where
  -- ConditionalTask.__init__
  pub construct : Text → Text → Conditional V W
  construct name condition = record {
    name = name;
    condition = condition;
    pointer = none;
    on_true = none;
    on_false = none;
  }

  -- `self.tasks.get(pointer)`, and an assignment to it
  abbrev pub tasks_of : Bool → Conditional V W → Option (List (Named (Task V W)))
  tasks_of true c = c.on_true
  tasks_of false c = c.on_false

  abbrev pub set_tasks : Bool → List (Named (Task V W)) → Conditional V W → Conditional V W
  set_tasks true tasks c = record c { on_true = some tasks }
  set_tasks false tasks c = record c { on_false = some tasks }

  abbrev pub or_empty : Option (List (Named (Task V W))) → List (Named (Task V W))
  or_empty none = []
  or_empty (some tasks) = tasks

  -- ConditionalTask.switch
  pub switch : Option Bool → Conditional V W → Conditional V W
  switch none c = record c { pointer = none }
  switch (some b) c = elim (tasks_of b c) [
    | none ↦ set_tasks b [] (record c { pointer = some b })
    | some tasks ↦ record c { pointer = some b }
  ]

  -- ConditionalTask.add
  pub add : Named (Task V W) → Conditional V W → Conditional V W
  add task c = elim c.pointer [
    | none ↦ c
    | some b ↦ set_tasks b (or_empty (tasks_of b c) ++ rename c.name task ∷ []) c
  ]

  -- ConditionalTask.peek
  pub peek : Conditional V W → Result Exception (List (Named (Task V W)))
  peek c = elim c.pointer [
    | none ↦ ok []
    | some b ↦ elim (tasks_of b c) [ none ↦ err key_error | some tasks ↦ ok tasks ]
  ]

-- `isinstance(exception, (StopUser, RestartScenario))`
abbrev pub is_silent : Option Exception → Bool
is_silent (some stop_user) = true
is_silent (some restart_scenario) = true
is_silent _ = false

module _ {V W : Type 0} (sleep : Task V W) where
  -- The `finally`, for the rendered condition and the number of tasks.
  pub finish : Conditional V W → Text → ℕ → Result Exception (Unit {0}) → Task V W
  finish c rendered count result p =
      let name =
        c.name ++ (codes ": " ++ (rendered ++ (codes " (" ++ (show (pos count) ++ codes ")")))) in
      (
        raised p.failure_exception result,
        if is_silent (caught result)
            then record p { errors = p.errors + 1 }
            else fire (codes "COND") name (pos count) (caught result) p,
      )

  -- One branch.
  pub run_branch : Conditional V W → Text → List (Named (Task V W)) → Task V W
  run_branch c rendered tasks p =
      let (result, p') = run_tasks sleep (map (λ t. t.run) tasks) p in
      finish c rendered (length tasks) result p'

  -- The task of ConditionalTask.__call__.
  pub run_conditional : (Text → Parent V W → Result Exception Text) → Conditional V W → Task V W
  run_conditional render c p = elim (render c.condition p) [
    | err e ↦ (err e, p)
    | ok rendered ↦
        if rendered == codes "True"
        then run_branch c rendered (or_empty c.on_true) p
        else if rendered == codes "False"
        then run_branch c rendered (or_empty c.on_false) p
        else finish c (codes "Invalid") 0 (err runtime_error) p
  ]
