-- ===== src/Variables/RandomInteger/Examples.antt =====
-- The theorems on random integers at concrete bounds.
use grizzly.Common.{◌<◌, ◌≡◌, refl, true, [], ◌∷◌, some, ok, err, arith, list_eq, nat_eq}
use grizzly.Common.Dict.{lookup}
use grizzly.Common.Decimal.{read_int, read_digits}
use grizzly.Common.Int.{ℤ, pos, negsuc, ◌≤ℤ◌}
use grizzly.Common.Text.{
  Text, codes, occurs, split_once, index?, starts_with, strip, lstrip, rstrip, is_space,
}
use grizzly.Exceptions.{index_error}
use grizzly.Variables.{ready}
use grizzly.Variables.Incrementer.{int_type}
use grizzly.Variables.RandomInteger.{RandomInteger, range_length, read_bounds, construct, get_item}
use grizzly.Variables.RandomInteger.Range.{◌<ℤ◌, get_item-within, IsNew, construct-equal_bounds}

abbrev weight : Text
weight = codes "weight"

abbrev one_weight : RandomInteger
one_weight = record { values = (weight, some (negsuc 2)) ∷ []; maximum = (weight, pos 4) ∷ [] }

weight_minimum : lookup weight one_weight.values ≡ some (some (negsuc 2))
unfolding lookup
weight_minimum = refl

weight_maximum : lookup weight one_weight.maximum ≡ some (pos 4)
unfolding lookup
weight_maximum = refl

picked : 6 < range_length (negsuc 2) (pos 4)
unfolding range_length
picked = omega arith

get_item-within_example :
    (v : ℤ) × (get_item (λ n. 6) weight one_weight ≡ ok v) × (negsuc 2 ≤ℤ v) × (v <ℤ pos 4)
get_item-within_example =
    get_item-within (λ n. 6) weight (negsuc 2) (pos 4) one_weight picked weight_minimum
      weight_maximum (omega arith)

five_dots : occurs (codes "..") (codes "5..5") ≡ true
unfolding occurs index? starts_with
five_dots = refl

five_bounds : read_bounds (codes "5..5") ≡ ok (pos 5, pos 5)
unfolding read_bounds split_once index? starts_with int_type read_int read_digits strip lstrip
    rstrip is_space
five_bounds = refl

-- The class has `weight` already.
size_IsNew : IsNew (codes "size") (ready one_weight)
unfolding IsNew lookup
size_IsNew = (refl, refl)

construct-equal_bounds_example :
    (i : RandomInteger) × (construct (codes "size") (codes "5..5") (ready one_weight)
      ≡ (ok tt, ready i))
    × (get_item (λ n. 0) (codes "size") i ≡ err index_error)
construct-equal_bounds_example =
    construct-equal_bounds (λ n. 0) (codes "size") (codes "5..5") (pos 5) (ready one_weight)
      size_IsNew five_dots five_bounds
