-- ===== src/Scenarios/Iterator/Prefetch.antt =====
-- Data that a scenario fetches before its first iteration.
use grizzly.Common.{◌≡◌, true, false, Option, arith, if◌then◌else◌, Result, ok}
use grizzly.Exceptions.{Exception}
use grizzly.Scenarios.Iterator.{Scenario, load_data, iterator}

-- A prefetch that succeeds makes the next call of `iterator` return without asking for data, and the
-- call after that asks for data as one without a prefetch does.
pub iterator-prefetch :
    {W C : Type 0} (testdata : Scenario W → Result Exception (Option C) × Scenario W)
    (add_context : C → Scenario W → Scenario W) (fire_scenario : Scenario W → Scenario W)
    (s s' : Scenario W)
    → s.prefetched ≡ false
    → iterator testdata add_context fire_scenario true s ≡ (ok tt, s')
    → (iterator testdata add_context fire_scenario false s'
        ≡ (ok tt, record s' { prefetched = false }))
      × (iterator testdata add_context fire_scenario false
            (iterator testdata add_context fire_scenario false s').1
          ≡ load_data testdata add_context fire_scenario false (
              if s'.started
              then fire_scenario (record s' { prefetched = false })
              else record s' { prefetched = false }))
unfolding iterator load_data
iterator-prefetch testdata add_context fire_scenario s s' fresh fetched = ground arith
