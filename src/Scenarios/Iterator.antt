-- ===== src/Scenarios/Iterator.antt =====
-- `IteratorScenario` of grizzly/scenarios/iterator.py: the loop that runs its tasks in order. What
-- locust's `SequentialTaskSet` and `TaskSet` do, the scenario's hooks, and the tasks are parameters
-- over the whole state; time is left out, but for whether the iteration timer is set.
pub mod Restart
pub mod Stopping
pub mod Prefetch
mod Examples
use grizzly.Common.{
  ℕ, ◌+◌, ◌-◌, ◌%◌, ◌<◌, Bool, true, false, not, ◌&&◌, List, [], ◌∷◌, Option, none, some,
  if◌then◌else◌, ltb, zero, suc, Result, ok, err,
}
use grizzly.Exceptions.{
  Exception, stop_user, stop_scenario, restart_scenario, reschedule_task,
  reschedule_task_immediately, interrupt_task_set, greenlet_exit,
}

pub data ScenarioState : Type 0 where
  running stopping stopped : ScenarioState

-- The scenario and its user: locust's `_task_index` and `_task_queue`, `user._state` (whether it is
-- LOCUST_STATE_STOPPING), `user._scenario_state`, the response lengths and the number of errors that
-- were logged to the statistics, and the rest.
pub record Scenario (W : Type 0) : Type 0 where
  pub task_index : ℕ
  pub task_queue : List ℕ
  pub current_task_index : ℕ
  pub started : Bool
  pub prefetched : Bool
  pub user_stopping : Bool
  pub scenario_state : Option ScenarioState
  pub abort : Bool
  pub stats : List ℕ
  pub errors : ℕ
  pub rest : W

-- What the scenario calls: `get_next_task`, `schedule_task`, `execute_next_task` and `wait` of locust,
-- `_sleep(wait_time())`, its own hooks, the events it fires, and `catch_exceptions`.
pub record Locust (S : Type 0) : Type 0 where
  pub task_count : ℕ
  pub get_next_task : S → ℕ × S
  pub schedule_task : ℕ → S → S
  pub execute_next_task : S → Result Exception (Unit {0}) × S
  pub wait : S → Result Exception (Unit {0}) × S
  pub sleep : S → Result Exception (Unit {0}) × S
  pub on_start : S → Result Exception (Unit {0}) × S
  pub on_stop : S → Result Exception (Unit {0}) × S
  pub fire_user_error : S → S
  pub catch_exceptions : Bool

abbrev pub is_stopping : Option ScenarioState → Bool
is_stopping (some stopping) = true
is_stopping _ = false

abbrev is_stop_user : Exception → Bool
is_stop_user stop_user = true
is_stop_user _ = false

abbrev is_stop_scenario : Exception → Bool
is_stop_scenario stop_scenario = true
is_stop_scenario _ = false

module _ {W : Type 0} (locust : Locust (Scenario W)) where
  -- IteratorScenario.iteration_stop
  pub iteration_stop : Bool → Scenario W → Scenario W
  iteration_stop has_error s =
      if s.started
      then record s {
        stats = (s.current_task_index % locust.task_count + 1) ∷ s.stats;
        errors = if has_error then s.errors + 1 else s.errors;
      }
      else s

  -- IteratorScenario.wait
  pub wait : Scenario W → Result Exception (Unit {0}) × Scenario W
  wait s =
      if is_stopping s.scenario_state
      then (if ltb s.current_task_index (locust.task_count - 1) && not s.abort
          then (let (result, s') = locust.sleep (record s { user_stopping = false }) in
              elim result [
                | err e ↦ (err e, s')
                | ok _ ↦ (ok tt, record s' { user_stopping = false })
              ])
          else locust.wait (record s { user_stopping = true; scenario_state = some stopped }))
      else locust.wait s

  -- The index that a restart moves to, the queue that it clears, and the error that it logs.
  pub restart : Scenario W → Scenario W
  restart s = record s {
    task_index = s.task_index + (locust.task_count - s.task_index % locust.task_count);
    task_queue = [];
    errors = s.errors + 1;
  }

  -- The handlers of the inner `try`.
  pub after_task :
      Result Exception (Unit {0}) → Scenario W → Result Exception (Unit {0}) × Scenario W
  after_task (ok _) s = wait s
  after_task (err reschedule_task_immediately) s = (ok tt, s)
  after_task (err reschedule_task) s = wait s
  after_task (err restart_scenario) s = if s.abort then (err stop_user, s) else wait (restart s)
  after_task (err e) s = (err e, s)

  -- The statements before the inner `try`.
  pub prepare : Scenario W → Scenario W
  prepare s =
      let s' = record s { current_task_index = s.task_index % locust.task_count } in
      elim s'.task_queue [
        | [] ↦ let (task, s'') = locust.get_next_task s' in locust.schedule_task task s''
        | _ ∷ _ ↦ s'
      ]

  -- The body of the outer `try`.
  pub run_task : Scenario W → Result Exception (Unit {0}) × Scenario W
  run_task s =
      let s' = prepare s in
      if s'.user_stopping
      then after_task (err stop_user) s'
      else let (result, s'') = locust.execute_next_task s' in after_task result s''

  -- `on_stop`, whose exceptions are logged
  stop_hook : Scenario W → Scenario W
  stop_hook s = (locust.on_stop s).1

  -- The handler of StopScenario, StopUser and GreenletExit.
  pub handle_stop : Exception → Scenario W → Result Exception (Unit {0}) × Scenario W
  handle_stop e s =
      if is_stopping s.scenario_state
      then wait s
      else (let has_error = not (is_stop_scenario e) && not s.user_stopping in
          let s' = if is_stop_scenario e then record s { started = false } else s in
          (err (if has_error then e else stop_user), stop_hook (iteration_stop has_error s')))

  -- The handlers of the outer `try`.
  pub handle : Exception → Scenario W → Result Exception (Unit {0}) × Scenario W
  handle (interrupt_task_set reschedule) s = if is_stopping s.scenario_state then wait s else (
    err (if reschedule then reschedule_task_immediately else reschedule_task),
    record (stop_hook s) { started = false },
  )
  handle stop_scenario s = handle_stop stop_scenario s
  handle stop_user s = handle_stop stop_user s
  handle greenlet_exit s = handle_stop greenlet_exit s
  handle e s =
      let s' = locust.fire_user_error (iteration_stop true s) in
      if locust.catch_exceptions then wait s' else (err e, s')

  pub caught : Result Exception (Unit {0}) × Scenario W → Result Exception (Unit {0}) × Scenario W
  caught (ok _, s) = (ok tt, s)
  caught (err e, s) = handle e s

  -- One round of `while True`; an exception ends `run`.
  pub round : Scenario W → Result Exception (Unit {0}) × Scenario W
  round s = caught (run_task s)

  going_on :
      (Scenario W → Result Exception (Unit {0}) × Scenario W)
      → Result Exception (Unit {0}) × Scenario W
      → Result Exception (Unit {0}) × Scenario W
  going_on more (ok _, s) = more s
  going_on more (err e, s) = (err e, s)

  -- The first `n` rounds, or up to the exception that ends them.
  pub rounds : ℕ → Scenario W → Result Exception (Unit {0}) × Scenario W
  rounds zero s = (ok tt, s)
  rounds (suc n) s = going_on (rounds n) (round s)

  -- The `try` on `on_start` that `run` begins with.
  pub start_run : Scenario W → Result Exception (Unit {0}) × Scenario W
  start_run s =
      let (result, s') = locust.on_start s in
      elim result [
        | ok _ ↦ (ok tt, s')
        | err e ↦ elim e [
          | interrupt_task_set reschedule ↦
              (err (if reschedule then reschedule_task_immediately else reschedule_task), s')
          | greenlet_exit ↦ (err greenlet_exit, s')
          | _ ↦ (err stop_user, s')
        ]
      ]

-- The task `iterator`, over what the consumer answers; `fire_scenario` is the event of an iteration
-- that is complete.
module _ {W C : Type 0} (testdata : Scenario W → Result Exception (Option C) × Scenario W)
    (add_context : C → Scenario W → Scenario W) (fire_scenario : Scenario W → Scenario W) where
  -- From the scenario timer on.
  pub load_data : Bool → Scenario W → Result Exception (Unit {0}) × Scenario W
  load_data prefetch s =
      let (result, s') = testdata (record s { started = true }) in
      elim result [
        | err e ↦ (err e, s')
        | ok none ↦ (err stop_scenario, s')
        | ok (some context) ↦
            let s'' = add_context context s' in
            (ok tt, if prefetch then record s'' { prefetched = true } else s'')
      ]

  pub iterator : Bool → Scenario W → Result Exception (Unit {0}) × Scenario W
  iterator prefetch s =
      if s.prefetched
      then (ok tt, record s { prefetched = false })
      else load_data prefetch (if s.started then fire_scenario s else s)
