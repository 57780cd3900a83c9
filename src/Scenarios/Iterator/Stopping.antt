-- ===== src/Scenarios/Iterator/Stopping.antt =====
-- A scenario that is asked to stop completes its remaining tasks.
use native.Mathlib.Nat.{mod-add-mod, mod-eq_of_lt}
use grizzly.Common.{
  ℕ, zero, suc, ◌+◌, ◌%◌, ◌<◌, ◌≡◌, refl, true, false, List, [], ◌∷◌, ◌++◌, some, arith, Result, ok,
  err, ap, sym, ◌∙◌,
}
use grizzly.Exceptions.{Exception, stop_user}
use grizzly.Scenarios.Iterator.{
  Scenario, Locust, stopping, stopped, wait, after_task, prepare, run_task, handle_stop, handle,
  caught, round, going_on, rounds,
}

module _ {W : Type 0} (locust : Locust (Scenario W)) where
  -- Locust's methods on the index and the queue; tasks that succeed, and waits that pass; and locust's
  -- `wait`, which raises StopUser where the user is to stop.
  pub record Quiet : Type 0 where
    pub get_next_task :
        (s : Scenario W)
        → locust.get_next_task s
          ≡ (s.task_index % locust.task_count, record s { task_index = s.task_index + 1 })
    pub schedule_task :
        (task : ℕ) (s : Scenario W)
        → locust.schedule_task task s ≡ record s { task_queue = s.task_queue ++ task ∷ [] }
    pub execute_next_task :
        (task : ℕ) (queue : List ℕ) (s : Scenario W)
        → s.task_queue ≡ task ∷ queue
        → (w : W) × (locust.execute_next_task s
            ≡ (ok tt, record s { task_queue = queue; rest = w }))
    pub sleep : (s : Scenario W) → (w : W) × (locust.sleep s ≡ (ok tt, record s { rest = w }))
    pub wait : (s : Scenario W) → s.user_stopping ≡ true → locust.wait s ≡ (err stop_user, s)

  -- Between two rounds of a scenario that is asked to stop.
  pub record Finishing (s : Scenario W) : Type 0 where
    pub asked : s.scenario_state ≡ some stopping
    pub kept : s.abort ≡ false
    pub active : s.user_stopping ≡ false
    pub idle : s.task_queue ≡ []

  module _ (q : Quiet) where
    -- The scenario when its next task is scheduled.
    abbrev scheduled : Scenario W → Scenario W
    scheduled s = record s {
      task_index = s.task_index + 1;
      task_queue = s.task_index % locust.task_count ∷ [];
      current_task_index = s.task_index % locust.task_count;
    }

    prepare-scheduled : (s : Scenario W) → Finishing s → prepare locust s ≡ scheduled s
    unfolding prepare
    prepare-scheduled s f =
        let current = record s { current_task_index = s.task_index % locust.task_count } in
        ground (
          arith,
          f.idle,
          q.get_next_task current,
          q.schedule_task (s.task_index % locust.task_count)
              (record current { task_index = s.task_index + 1 }),
        )

    -- The scenario when the task is done.
    abbrev executed : Scenario W → W → Scenario W
    executed s w = record s {
      task_index = s.task_index + 1;
      task_queue = [];
      current_task_index = s.task_index % locust.task_count;
      rest = w;
    }

    run_task-executed :
        (s : Scenario W) → Finishing s → (w : W) × (run_task locust s ≡ wait locust (executed s w))
    unfolding run_task after_task
    run_task-executed s f =
        let (w, ran) =
          q.execute_next_task (s.task_index % locust.task_count) [] (scheduled s) refl in
        let ready = prepare-scheduled s f in (w, ground (arith, f.active, ran, ready))

    wait_more :
        (s : Scenario W)
        → s.scenario_state ≡ some stopping
        → s.abort ≡ false
        → s.current_task_index + 1 < locust.task_count
        → (w : W) × (wait locust s ≡ (ok tt, record s { user_stopping = false; rest = w }))
    unfolding wait
    wait_more s asked kept more =
        let (w, slept) = q.sleep (record s { user_stopping = false }) in (w, ground (arith, slept))

    wait_last :
        (s : Scenario W)
        → s.scenario_state ≡ some stopping
        → s.current_task_index + 1 ≡ locust.task_count
        → wait locust s
          ≡ (err stop_user, record s { user_stopping = true; scenario_state = some stopped })
    unfolding wait
    wait_last s asked last =
        let ended =
          q.wait (record s { user_stopping = true; scenario_state = some stopped }) refl in
        ground (arith, ended)

    round-more :
        (s : Scenario W)
        → Finishing s
        → s.task_index % locust.task_count + 1 < locust.task_count
        → (w : W) × (round locust s ≡ (ok tt, record (executed s w) { user_stopping = false }))
    unfolding round caught
    round-more s f more =
        let (w, ran) = run_task-executed s f in
        let (w', waited) = wait_more (executed s w) f.asked f.kept more in
        (w', ap (caught locust) (ran ∙ waited))

    round-last :
        (s : Scenario W)
        → Finishing s
        → s.task_index % locust.task_count + 1 ≡ locust.task_count
        → (round locust s).0 ≡ err stop_user
    unfolding round caught handle handle_stop
    round-last s f last =
        let (w, ran) = run_task-executed s f in
        ap (λ r. (caught locust r).0) (ran ∙ wait_last (executed s w) f.asked last)

    Finishing-more :
        (s : Scenario W) (w : W)
        → Finishing s
        → Finishing (record (executed s w) { user_stopping = false })
    Finishing-more s w f = record { asked = f.asked; kept = f.kept; active = refl; idle = refl }

    -- The next index, below the last one.
    next_index : (i n : ℕ) → i % n + 1 < n → (i + 1) % n ≡ i % n + 1
    next_index i n h = sym (mod-add-mod i n 1) ∙ mod-eq_of_lt h

    rounds-on :
        (n : ℕ) (s s' : Scenario W)
        → round locust s ≡ (ok tt, s')
        → rounds locust (suc n) s ≡ rounds locust n s'
    unfolding rounds going_on
    rounds-on n s s' h = ap (going_on locust (rounds locust n)) h

    going_on-end :
        (more : Scenario W → Result Exception (Unit {0}) × Scenario W)
        (r : Result Exception (Unit {0}) × Scenario W) (e : Exception)
        → r.0 ≡ err e
        → (going_on locust more r).0 ≡ err e
    unfolding going_on
    going_on-end more (ok _, s) e h = cc
    going_on-end more (err e', s) e h = h

    rounds-end :
        (n : ℕ) (s : Scenario W) (e : Exception)
        → (round locust s).0 ≡ err e
        → (rounds locust (suc n) s).0 ≡ err e
    unfolding rounds
    rounds-end n s e h = going_on-end (rounds locust n) (round locust s) e h

    rounds-none : (s : Scenario W) → rounds locust 0 s ≡ (ok tt, s)
    unfolding rounds
    rounds-none s = refl

    -- A scenario that is asked to stop with `k` tasks and the last one to go, where tasks succeed and
    -- locust waits as it documents: `k` rounds run a task each and go on, and the round of the last
    -- task ends the run with StopUser.
    pub rounds-Finishing :
        (k : ℕ) (s : Scenario W)
        → Finishing s
        → s.task_index % locust.task_count + k + 1 ≡ locust.task_count
        → ((rounds locust k s).0 ≡ ok tt)
          × ((rounds locust k s).1.task_index ≡ s.task_index + k)
          × ((rounds locust (suc k) s).0 ≡ err stop_user)
    rounds-Finishing zero s f left =
        rw rounds-none
          (refl, omega arith, rounds-end 0 s stop_user (round-last s f (omega (arith, left))))
    rounds-Finishing (suc k) s f left =
        let (w, went) = round-more s f (omega (arith, left)) in
        let s' = record (executed s w) { user_stopping = false } in
        let next = next_index s.task_index locust.task_count (omega (arith, left)) in
        let (goes, moved, ends) =
          rounds-Finishing k s' (Finishing-more s w f) (omega (arith, next, left)) in
        rw (rounds-on k s s' went, rounds-on (suc k) s s' went) (goes, omega (arith, moved), ends)
