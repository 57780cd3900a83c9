-- ===== src/Variables/Queue/Examples.antt =====
-- The theorems on queues at a concrete queue.
use mathlib.Core.List.{Perm}
use grizzly.Common.{ℕ, ◌≡◌, refl, true, [], ◌∷◌, some, List}
use grizzly.Variables.Queue.{Settings, take_next, choose_index, pop}
use grizzly.Variables.Queue.Rotation.{take_next-perm}

abbrev shuffled : Settings
shuffled = record { repeat = true; random = true }

abbrev three : List ℕ
three = 10 ∷ 20 ∷ 30 ∷ []

abbrev pick_second : ℕ → ℕ
pick_second n = 1

taken_second : take_next pick_second shuffled three ≡ some (20, 10 ∷ 30 ∷ 20 ∷ [])
unfolding take_next choose_index pop
taken_second = refl

take_next-perm_example : Perm (10 ∷ 30 ∷ 20 ∷ []) three
take_next-perm_example =
    take_next-perm pick_second shuffled three 20 (10 ∷ 30 ∷ 20 ∷ []) taken_second
