-- ===== src/Locust/Distribution/Examples.antt =====
-- Five users for three scenarios whose shares add up to seven.
use grizzly.Common.{
  ℕ, ◌+◌, ◌*◌, ◌/◌, ◌≡◌, refl, List, [], ◌∷◌, some, arith, ltb→lt, list_eq, nat_eq, ok,
}
use grizzly.Common.Dict.{insert}
use grizzly.Common.Text.{codes}
use grizzly.Locust.Cycle.{sum_values}
use grizzly.Locust.Counts.{Counts}
use grizzly.Locust.Distribution.{Weighted, shares, total_weight, distribute}
use grizzly.Locust.Distribution.Sharing.{AllPositive}
use grizzly.Locust.Distribution.Laws.{AllWeighted, distribute-sum_values}

-- One more than the quotient, so the share is never too small.
abbrev share : ℕ → ℕ → ℕ → ℕ
share user_count weight total = user_count * weight / total + 1

abbrev scenario_a : Weighted
scenario_a = record { class_name = codes "A"; weight = 2 }

abbrev others : List Weighted
others =
    record { class_name = codes "B"; weight = 1 }
    ∷ record { class_name = codes "C"; weight = 1 }
    ∷ []

weighted : AllWeighted (scenario_a ∷ others)
unfolding AllWeighted
weighted = (ltb→lt 0 2 refl, (ltb→lt 0 1 refl, (ltb→lt 0 1 refl, tt)))

distribute-sum_values_example :
    (d : Counts) × (distribute share 4 5 (scenario_a ∷ others) ≡ some (ok d))
    × (sum_values d ≡ 5)
    × AllPositive d
unfolding shares total_weight insert sum_values
distribute-sum_values_example =
    distribute-sum_values share 5 4 scenario_a others (λ weight h. omega arith) weighted
      (omega arith) (omega arith) (omega arith)
