-- ===== src/Locust/Dispatcher/Generator/Examples.antt =====
-- A dispatcher with two users, of which its target asks for one.
use grizzly.Common.{◌≡◌, refl, false, some, arith, ltb→lt, ok}
use grizzly.Locust.Cycle.{sum_values}
use grizzly.Locust.Active.{Consistent}
use grizzly.Locust.Dispatcher.{Dispatcher, active_total, target_total}
use grizzly.Locust.Dispatcher.Samples.{smooth, busy, busy-Consistent}
use grizzly.Locust.Dispatcher.Generator.{at_start, exhaust}
use grizzly.Locust.Dispatcher.Generator.RampDown.{exhaust-at_start}

exhaust-at_start_example :
    (d' : Dispatcher) × (exhaust smooth 1 2 at_start busy ≡ some (ok d'))
    × (active_total d' ≡ 1)
    × Consistent d'.users_on_workers d'.active_users
    × (d'.dispatch_in_progress ≡ false)
unfolding active_total target_total sum_values
exhaust-at_start_example =
    exhaust-at_start smooth 1 1 busy busy-Consistent refl (ltb→lt 0 2 refl) (ltb→lt 1 2 refl)
      (omega arith)
