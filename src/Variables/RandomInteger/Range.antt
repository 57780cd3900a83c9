-- ===== src/Variables/RandomInteger/Range.antt =====
-- The values of an `AtomicRandomInteger`.
use grizzly.Common.{
  ℕ, ◌+◌, ◌<◌, ◌≡◌, true, [], ◌∷◌, none, some, arith, list_eq, nat_eq, ok, err, beq_refl,
}
use grizzly.Common.Dict.{lookup, insert, has_key, lookup-insert_self}
use grizzly.Common.Int.{ℤ, pos, ◌+ℤ◌, pos_part, neg_part, +ℤ_parts, ◌≤ℤ◌}
use grizzly.Common.Text.{Text, codes, occurs}
use grizzly.Exceptions.{index_error}
use grizzly.Variables.{Slot, absent, blank, ready, get_value, init_values, allocate}
use grizzly.Variables.RandomInteger.{
  RandomInteger, range_length, read_bounds, base_type, finish, construct, choose, get_item,
}

infix 50 ◌<ℤ◌
abbrev pub ◌<ℤ◌ : ℤ → ℤ → Type 0
a <ℤ b = pos_part a + neg_part b < pos_part b + neg_part a

-- Where the variable has bounds with the minimum below the maximum, and the choice is in the range, an
-- access returns a number from the minimum on and below the maximum: never the maximum itself.
pub get_item-within :
    (pick : ℕ → ℕ) (variable : Text) (minimum maximum : ℤ) (i : RandomInteger)
    → pick (range_length minimum maximum) < range_length minimum maximum
    → lookup variable i.values ≡ some (some minimum)
    → lookup variable i.maximum ≡ some maximum
    → minimum <ℤ maximum
    → (v : ℤ) × (get_item pick variable i ≡ ok v) × (minimum ≤ℤ v) × (v <ℤ maximum)
unfolding get_item get_value choose range_length
get_item-within pick variable minimum maximum i picked low high below =
    let d = pick (range_length minimum maximum) in
    let parts = +ℤ_parts minimum (pos d) in
    (minimum +ℤ pos d, ground (arith, low, high), omega arith, omega arith)

-- The class has neither a value nor a maximum for the variable.
unfoldable pub IsNew : Text → Slot RandomInteger → Type 0
IsNew variable (ready i) = (lookup variable i.values ≡ none) × (lookup variable i.maximum ≡ none)
IsNew variable blank = Unit
IsNew variable absent = Unit

-- A text with two equal bounds is accepted for a variable that the class has neither a value nor a
-- maximum for, whether the class has other variables or not, and every access of the variable then
-- raises an IndexError.
pub construct-equal_bounds :
    (pick : ℕ → ℕ) (variable value : Text) (n : ℤ) (slot : Slot RandomInteger)
    → IsNew variable slot
    → occurs (codes "..") value ≡ true
    → read_bounds value ≡ ok (n, n)
    → (i : RandomInteger) × (construct variable value slot ≡ (ok tt, ready i))
      × (get_item pick variable i ≡ err index_error)
unfolding construct base_type finish get_item get_value choose range_length init_values allocate
    lookup has_key IsNew
construct-equal_bounds pick variable value n (ready i) (no_value, no_maximum) dots bounds = (
  record { values = insert variable (some n) i.values; maximum = insert variable n i.maximum },
  ground (arith, dots, bounds, no_value, no_maximum),
  ground (
    arith,
    lookup-insert_self variable (some n) i.values,
    lookup-insert_self variable n i.maximum,
  ),
)
construct-equal_bounds pick variable value n blank is_new dots bounds = (
  record { values = (variable, some n) ∷ []; maximum = (variable, n) ∷ [] },
  ground (arith, dots, bounds),
  ground (arith, beq_refl variable),
)
construct-equal_bounds pick variable value n absent is_new dots bounds = (
  record { values = (variable, some n) ∷ []; maximum = (variable, n) ∷ [] },
  ground (arith, dots, bounds),
  ground (arith, beq_refl variable),
)
