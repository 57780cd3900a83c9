-- ===== src/Locust/Distribution.antt =====
-- How `setup_locust_scenarios` of grizzly/locust.py distributes a number of users over the scenarios,
-- where locust's own dispatcher is used. `share` stands for `ceil(user_count * (weight / total_weight))`
-- in floats.
pub mod Sharing
pub mod Laws
mod Examples
use grizzly.Common.{
  ℕ, zero, suc, ◌+◌, ◌-◌, Bool, true, false, not, List, [], ◌∷◌, map, Option, none, some,
  if◌then◌else◌, ltb, leb, length, list_eq, nat_eq, Result, ok, err,
}
use grizzly.Common.Dict.{Dict, lookup, insert, keys}
use grizzly.Common.Text.{Text}
use grizzly.Exceptions.{Exception, assertion_error, other}
use grizzly.Locust.Sorting.{by_value}
use grizzly.Locust.Cycle.{sum_values}
use grizzly.Locust.Counts.{Counts, get_zero}

-- The class name of a scenario and the weight of its user.
pub record Weighted : Type 0 where
  pub class_name : Text
  pub weight : ℕ

unfoldable pub total_weight : List Weighted → ℕ
total_weight [] = 0
total_weight (s ∷ scenarios) = s.weight + total_weight scenarios

-- The loop over the scenarios.
unfoldable pub shares : (ℕ → ℕ) → Counts → List Weighted → Counts
shares share distribution [] = distribution
shares share distribution (s ∷ scenarios) =
    shares share (insert s.class_name (share s.weight) distribution) scenarios

-- The inner loop: the users that are still too many, and the distribution.
pub reduce_pass : ℕ → List Text → Counts → ℕ × Counts
reduce_pass user_overflow [] distribution = (user_overflow, distribution)
reduce_pass user_overflow (name ∷ names) distribution =
    let n = get_zero name distribution in
    let fewer = insert name (n - 1) distribution in
    let skip = reduce_pass user_overflow names distribution in
    let more = reduce_pass (user_overflow - 1) names fewer in
    if leb n 1 then skip else if ltb (user_overflow - 1) 1 then (user_overflow - 1, fewer) else more

-- while user_overflow > 0; `none` where the fuel runs out.
pub reduce : ℕ → ℕ → Counts → Option Counts
reduce zero user_overflow distribution = none
reduce (suc fuel) user_overflow distribution = elim (ltb 0 user_overflow) [
  | false ↦ some distribution
  | true ↦
      let (left, distribution') =
        reduce_pass user_overflow (keys (by_value distribution)) distribution in
      reduce fuel left distribution'
]

-- The number of users of each class name.
pub distribute : (ℕ → ℕ → ℕ → ℕ) → ℕ → ℕ → List Weighted → Option (Result Exception Counts)
distribute share fuel user_count scenarios =
    if leb (length scenarios) 0
    then some (err assertion_error)
    else if leb (total_weight scenarios) 0
    then some (err (other 1))
    else (let distribution =
          shares (λ weight. share user_count weight (total_weight scenarios)) [] scenarios in
        if ltb user_count (length distribution)
        then some (err assertion_error)
        else elim (reduce fuel (sum_values distribution - user_count) distribution) [
          | none ↦ none
          | some reduced ↦ some (ok reduced)
        ])
