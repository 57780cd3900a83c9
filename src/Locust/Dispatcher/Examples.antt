-- ===== src/Locust/Dispatcher/Examples.antt =====
-- A dispatcher of one class and two workers, of which the target asks for two users.
use grizzly.Common.{◌-◌, ◌≡◌, refl, [], ltb→lt, drop, list_eq, nat_eq, ok}
use grizzly.Locust.Counts.{sum_counts}
use grizzly.Locust.Cycle.{sum_values}
use grizzly.Locust.Active.{Consistent}
use grizzly.Locust.Dispatcher.{Dispatcher, active_total, target_total, remove_users}
use grizzly.Locust.Dispatcher.Tagged.{Tagged}
use grizzly.Locust.Dispatcher.Remove.{remove_users-Consistent}
use grizzly.Locust.Dispatcher.Samples.{busy, busy-Consistent}

remove_users-Consistent_example :
    (d' : Dispatcher) × (remove_users busy ≡ ok d')
    × (active_total d' ≡ 1)
    × (d'.active_users ≡ drop (active_total busy - active_total d') busy.active_users)
    × Consistent d'.users_on_workers d'.active_users
    × (d'.current_user_count ≡ sum_counts [] d'.users_on_workers)
unfolding active_total target_total sum_values
remove_users-Consistent_example =
    remove_users-Consistent busy busy-Consistent (ltb→lt 1 2 refl) (ltb→lt 0 2 refl)
