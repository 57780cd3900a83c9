-- ===== src/Scenarios/Iterator/Examples.antt =====
-- The theorems on the scenario for four tasks of which the third may restart.
use grizzly.Common.{
  ℕ, ◌+◌, ◌%◌, ◌≡◌, refl, true, false, [], ◌∷◌, ◌++◌, Option, some, arith, if◌then◌else◌, Result,
  ok, err,
}
use grizzly.Exceptions.{Exception, stop_user, restart_scenario}
use grizzly.Scenarios.Iterator.{
  Scenario, Locust, running, stopping, wait, restart, prepare, round, rounds, load_data, iterator,
}
use grizzly.Scenarios.Iterator.Restart.{Keeps, round-restart}
use grizzly.Scenarios.Iterator.Stopping.{Quiet, Finishing, rounds-Finishing}
use grizzly.Scenarios.Iterator.Prefetch.{iterator-prefetch}

-- The number of tasks that were executed is the rest of the state.
abbrev run_one : Result Exception (Unit {0}) → Scenario ℕ → Result Exception (Unit {0}) × Scenario ℕ
run_one result s = elim s.task_queue [
  | [] ↦ (result, s)
  | _ ∷ queue ↦ (result, record s { task_queue = queue; rest = s.rest + 1 })
]

abbrev wait_running : Scenario ℕ → Result Exception (Unit {0}) × Scenario ℕ
wait_running s = (if s.user_stopping then err stop_user else ok tt, s)

abbrev four_tasks : Result Exception (Unit {0}) → Locust (Scenario ℕ)
four_tasks result = record {
  task_count = 4;
  get_next_task = λ s. (s.task_index % 4, record s { task_index = s.task_index + 1 });
  schedule_task = λ task s. record s { task_queue = s.task_queue ++ task ∷ [] };
  execute_next_task = run_one result;
  wait = wait_running;
  sleep = λ s. (ok tt, s);
  on_start = λ s. (ok tt, s);
  on_stop = λ s. (ok tt, s);
  fire_user_error = λ s. s;
  catch_exceptions = true;
}

abbrev at_second : Scenario ℕ
at_second = record {
  task_index = 5;
  task_queue = [];
  current_task_index = 0;
  started = true;
  prefetched = false;
  user_stopping = false;
  scenario_state = some stopping;
  abort = false;
  stats = [];
  errors = 0;
  rest = 0;
}

abbrev at_third : Scenario ℕ
at_third = record at_second { task_index = 6; scenario_state = some running }

four_tasks-Keeps : Keeps (four_tasks (err restart_scenario))
four_tasks-Keeps = record {
  wait_index = λ s. refl;
  wait_queue = λ s. refl;
  sleep_index = λ s. refl;
  sleep_queue = λ s. refl;
}

abbrev restarted : Scenario ℕ
restarted = record at_third { task_index = 7; current_task_index = 2; rest = 1 }

abbrev waited : Scenario ℕ
waited = record restarted { task_index = 8; errors = 1 }

third_active : (prepare (four_tasks (err restart_scenario)) at_third).user_stopping ≡ false
unfolding prepare
third_active = refl

third_restarts :
    (four_tasks (err restart_scenario)).execute_next_task
      (prepare (four_tasks (err restart_scenario)) at_third)
    ≡ (err restart_scenario, restarted)
unfolding prepare
third_restarts = refl

third_waits :
    wait (four_tasks (err restart_scenario)) (restart (four_tasks (err restart_scenario)) restarted)
    ≡ (ok tt, waited)
unfolding wait restart
third_waits = refl

round-restart_example :
    (round (four_tasks (err restart_scenario)) at_third ≡ (ok tt, waited))
    × (waited.task_index % 4 ≡ 0)
    × (waited.task_queue ≡ [])
round-restart_example =
    round-restart (four_tasks (err restart_scenario)) at_third restarted waited four_tasks-Keeps
      (omega arith) third_active third_restarts refl third_waits

four_tasks-Quiet : Quiet (four_tasks (ok tt))
four_tasks-Quiet = record {
  get_next_task = λ s. refl;
  schedule_task = λ task s. refl;
  execute_next_task = λ task queue s has. (s.rest + 1, rw has refl);
  sleep = λ s. (s.rest, refl);
  wait = λ s ends. rw ends refl;
}

at_second-Finishing : Finishing (four_tasks (ok tt)) at_second
at_second-Finishing = record { asked = refl; kept = refl; active = refl; idle = refl }

rounds-Finishing_example :
    ((rounds (four_tasks (ok tt)) 2 at_second).0 ≡ ok tt)
    × ((rounds (four_tasks (ok tt)) 2 at_second).1.task_index ≡ 7)
    × ((rounds (four_tasks (ok tt)) 3 at_second).0 ≡ err stop_user)
rounds-Finishing_example =
    rounds-Finishing (four_tasks (ok tt)) four_tasks-Quiet 2 at_second at_second-Finishing
      (omega arith)

-- The consumer answers with a number.
abbrev answer : Scenario ℕ → Result Exception (Option ℕ) × Scenario ℕ
answer s = (ok (some 3), s)

abbrev add_answer : ℕ → Scenario ℕ → Scenario ℕ
add_answer n s = record s { rest = n }

abbrev fetched : Scenario ℕ
fetched = record at_third { started = true; prefetched = true; rest = 3 }

fetches : iterator answer add_answer (λ s. s) true at_third ≡ (ok tt, fetched)
unfolding iterator load_data
fetches = refl

iterator-prefetch_example :
    (iterator answer add_answer (λ s. s) false fetched
      ≡ (ok tt, record fetched { prefetched = false }))
    × (iterator answer add_answer
          (λ s. s)
          false
          (iterator answer add_answer (λ s. s) false fetched).1
        ≡ load_data answer add_answer (λ s. s) false (record fetched { prefetched = false }))
iterator-prefetch_example =
    iterator-prefetch answer add_answer (λ s. s) at_third fetched refl fetches
