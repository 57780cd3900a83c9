-- ===== src/Scenarios/Iterator/Restart.antt =====
-- Where a scenario goes on after `RestartScenario`.
use grizzly.Common.{
  ℕ, ◌+◌, ◌-◌, ◌%◌, ◌<◌, ◌≡◌, refl, true, false, [], some, arith, ok, err, ap, sym, ◌∙◌,
}
use native.Mathlib.Nat.{mod-lt, mod-add-mod, mod_self}
use grizzly.Exceptions.{restart_scenario}
use grizzly.Scenarios.Iterator.{
  Scenario, Locust, stopped, wait, restart, after_task, prepare, run_task, caught, round,
}

mod_restart : (i n : ℕ) → 0 < n → (i + (n - i % n)) % n ≡ 0
mod_restart i n h =
    let whole : i % n + (n - i % n) ≡ n = omega (arith, mod-lt i h) in
    sym (mod-add-mod i n (n - i % n)) ∙ ap (λ x. x % n) whole ∙ mod_self n

module _ {W : Type 0} (locust : Locust (Scenario W)) where
  -- Waiting does not move the tasks.
  pub record Keeps : Type 0 where
    pub wait_index : (s : Scenario W) → (locust.wait s).1.task_index ≡ s.task_index
    pub wait_queue : (s : Scenario W) → (locust.wait s).1.task_queue ≡ s.task_queue
    pub sleep_index : (s : Scenario W) → (locust.sleep s).1.task_index ≡ s.task_index
    pub sleep_queue : (s : Scenario W) → (locust.sleep s).1.task_queue ≡ s.task_queue

  wait-Keeps :
      (s : Scenario W)
      → Keeps
      → ((wait locust s).1.task_index ≡ s.task_index)
        × ((wait locust s).1.task_queue ≡ s.task_queue)
  unfolding wait
  wait-Keeps s k =
      let last = record s { user_stopping = true; scenario_state = some stopped } in
      let more = record s { user_stopping = false } in
      ground (
        arith,
        k.wait_index s,
        k.wait_queue s,
        k.wait_index last,
        k.wait_queue last,
        k.sleep_index more,
        k.sleep_queue more,
      )

  run_task-restart :
      (s s' : Scenario W)
      → (prepare locust s).user_stopping ≡ false
      → locust.execute_next_task (prepare locust s) ≡ (err restart_scenario, s')
      → s'.abort ≡ false
      → run_task locust s ≡ wait locust (restart locust s')
  unfolding run_task after_task
  run_task-restart s s' active raised kept = rw (run_task, raised, active, kept) refl

  -- Where a task raises RestartScenario, the scenario is not aborted, waiting does not move the tasks
  -- and the wait that follows passes, the round goes on with no task scheduled and the index at the
  -- first task.
  pub round-restart :
      (s s' after : Scenario W)
      → Keeps
      → 0 < locust.task_count
      → (prepare locust s).user_stopping ≡ false
      → locust.execute_next_task (prepare locust s) ≡ (err restart_scenario, s')
      → s'.abort ≡ false
      → wait locust (restart locust s') ≡ (ok tt, after)
      → (round locust s ≡ (ok tt, after))
        × (after.task_index % locust.task_count ≡ 0)
        × (after.task_queue ≡ [])
  unfolding round caught restart
  round-restart s s' after k some_task active raised kept waited =
      let runs = run_task-restart s s' active raised kept in
      let keeps = wait-Keeps (restart locust s') k in
      (
        rw (runs, waited) refl,
        rw (ap (λ r. r.1.task_index) (sym waited), keeps.0)
            (mod_restart s'.task_index locust.task_count some_task),
        ap (λ r. r.1.task_queue) (sym waited) ∙ keeps.1,
      )
