-- ===== src/Tasks/Timer/Laws.antt =====
-- A timer that is started and stopped.
use grizzly.Common.{◌≡◌, refl, ◌∷◌, ◌++◌, none, some, arith, list_eq, nat_eq, ok}
use grizzly.Common.Dict.{lookup, lookup-insert_self, lookup-remove_self}
use grizzly.Common.Int.{pos, ◌+ℤ◌, ◌-ℤ◌}
use grizzly.Common.Text.{codes}
use grizzly.Tasks.Parent.{Parent, Fired, fire}
use grizzly.Tasks.Timer.{Held, started, Place, Timer, index_of, start_timer, stop_timer, run_timer}

-- A timer that has not been started is started without an event; where it runs again, in a scenario
-- whose variable for the timer is as it was left, it fires one event without an exception, whose length
-- is one more than the distance between the two tasks, and its variable is gone.
pub run_timer_twice :
    (timer : Timer) (p q : Parent Held Place)
    → lookup timer.variable p.variables ≡ none
    → lookup timer.variable q.variables ≡ lookup timer.variable (run_timer timer p).1.variables
    → ((run_timer timer p).0 ≡ ok tt)
      × ((run_timer timer p).1.fired ≡ p.fired)
      × ((run_timer timer q).0 ≡ ok tt)
      × ((event : Fired) × ((run_timer timer q).1.fired ≡ event ∷ q.fired)
          × (event.response_length ≡ (pos (index_of q.rest) -ℤ pos (index_of p.rest)) +ℤ pos 1)
          × (event.exception ≡ none))
      × (lookup timer.variable (run_timer timer q).1.variables ≡ none)
unfolding run_timer start_timer stop_timer fire
run_timer_twice timer p q absent same =
    let starts : run_timer timer p ≡ start_timer timer p = rw (run_timer, absent) refl in
    let held : lookup timer.variable q.variables ≡ some (started (index_of p.rest)) = ground (
      arith,
      same,
      starts,
      lookup-insert_self timer.variable (started (index_of p.rest)) p.variables,
    ) in
    let stops : run_timer timer q ≡ stop_timer timer (index_of p.rest) q =
      rw (run_timer, held) refl in
    (
      rw starts refl,
      rw starts refl,
      rw stops refl,
      (
        record {
          request_type = codes "TIMR";
          name = q.identifier ++ (codes " " ++ timer.name);
          response_length = (pos (index_of q.rest) -ℤ pos (index_of p.rest)) +ℤ pos 1;
          exception = none;
        },
        rw stops refl,
        refl,
        refl,
      ),
      rw stops (lookup-remove_self timer.variable q.variables),
    )
