-- ===== src/Testdata/Producer/Examples.antt =====
-- The theorems on iterations for two scenarios, one with an atomic variable behind its testdata.
use grizzly.Common.{
  Option, some, ℕ, ◌+◌, ◌≤◌, ◌≡◌, refl, false, [], ◌∷◌, none, ok, Result, list_eq, nat_eq, arith,
}
use grizzly.Common.Dict.{lookup, insert, has_key}
use grizzly.Common.Int.{pos}
use grizzly.Common.Text.{
  Text, codes, occurs, index?, count, count_from, starts_with, split, rsplit_once, rindex?, join,
}
use grizzly.Exceptions.{Exception}
use grizzly.Testdata.{Value, integer, get_variable_spec, add_part, add_parts, spec_of}
use grizzly.Testdata.Producer.{
  Setup, Producer, atomic, collect, find_value, fetch_whole, fetch_column, subscript, add_value,
}
use grizzly.Testdata.Producer.Persist.{on_test_stop, consumed-on_test_stop}
use grizzly.Testdata.Producer.Iterations.{
  limit, used, consumed, consumed_bound, Collects, repeated, consumed-repeated,
}

abbrev next_number : Text → Text → ℕ → Result Exception Value × ℕ
next_number class name n = (ok (integer (pos n)), n + 1)

abbrev load : Setup
load = record {
  scenarios = (codes "IteratorScenario_001", 2) ∷ (codes "IteratorScenario_002", 5) ∷ [];
  testdata =
      (
        codes "IteratorScenario_001",
        (codes "AtomicIntegerIncrementer.id", atomic (codes "AtomicIntegerIncrementer")) ∷ [],
      )
      ∷ [];
  alias = [];
}

abbrev first_scenario : Text
first_scenario = codes "IteratorScenario_001"

abbrev fresh : Producer ℕ
fresh = record {
  scenarios_iteration = [];
  keystore = [];
  variables = 7;
  has_persisted = false;
  persist_file = none;
}

fresh_within : used first_scenario fresh ≤ limit load first_scenario
unfolding lookup
fresh_within = omega arith

fresh_enough : limit load first_scenario ≤ used first_scenario fresh + 3
unfolding lookup
fresh_enough = omega arith

first_scenario-Collects : Collects next_number load first_scenario
unfolding collect find_value fetch_whole fetch_column subscript add_value get_variable_spec add_part
    add_parts spec_of lookup insert has_key occurs index? count count_from starts_with split
    rsplit_once rindex? join
first_scenario-Collects counts n = (_, n + 1, refl)

consumed_bound_example :
    used first_scenario fresh
      + consumed next_number load first_scenario
          (first_scenario ∷ codes "IteratorScenario_002" ∷ first_scenario ∷ [])
          fresh
    ≤ limit load first_scenario
consumed_bound_example =
    consumed_bound next_number load first_scenario
      (first_scenario ∷ codes "IteratorScenario_002" ∷ first_scenario ∷ []) fresh fresh_within

consumed-repeated_example :
    used first_scenario fresh
      + consumed next_number load first_scenario (repeated 3 first_scenario) fresh
    ≡ limit load first_scenario
consumed-repeated_example =
    consumed-repeated next_number load first_scenario 3 fresh first_scenario-Collects fresh_within
      fresh_enough

-- Every variable of the state is persisted as `7`.
abbrev seven : Text → Text → ℕ → Option (Result Exception Text) × ℕ
seven class name n = (some (ok (codes "7")), n + 1)

abbrev used_up : Producer ℕ
used_up = record fresh { scenarios_iteration = (first_scenario, 2) ∷ [] }

four_enough : limit load first_scenario ≤ 4
unfolding lookup
four_enough = omega arith

consumed-on_test_stop_example :
    consumed next_number load first_scenario
      (repeated 4 first_scenario)
      (on_test_stop seven load used_up)
    ≡ limit load first_scenario
consumed-on_test_stop_example =
    consumed-on_test_stop seven next_number load first_scenario 4 used_up first_scenario-Collects
      four_enough
