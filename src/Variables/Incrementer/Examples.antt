-- ===== src/Variables/Incrementer/Examples.antt =====
-- The theorems on the incrementer at a concrete instance.
use grizzly.Common.{◌≡◌, refl, ◌≢◌, true, [], ◌∷◌, some, ok, list_eq, nat_eq, arith}
use grizzly.Common.Dict.{lookup}
use grizzly.Common.Int.{pos, negsuc}
use grizzly.Common.Text.{Text, codes}
use grizzly.Common.Decimal.{show, read_int-show}
use grizzly.Variables.{absent, ready}
use grizzly.Variables.Incrementer.{
  Incrementer, Settings, text, int_type, construct, get_item, generate_initial_value,
}
use grizzly.Variables.Incrementer.Sequence.{accessed, Holds, get_item_unique}
use grizzly.Variables.Incrementer.Persistence.{construct-generate_initial_value}

abbrev messages : Text
messages = codes "message_id"

abbrev by_five : Settings
by_five = record { step = pos 5; persist = true }

abbrev one_variable : Incrementer
one_variable = record {
  values = (messages, some (negsuc 2)) ∷ [];
  steps = (messages, by_five) ∷ [];
}

one_variable-Holds : Holds one_variable messages (negsuc 2) by_five
unfolding lookup
one_variable-Holds = record { value = refl; setting = refl }

-- `int(text)` stands for `int(float(text))`.
int_type_exact : int_type (show (negsuc 2)) ≡ ok (negsuc 2)
unfolding int_type
int_type_exact = rw (int_type, read_int-show (negsuc 2)) refl

by_five_moves : by_five.step ≢ pos 0
by_five_moves e = cc

get_item_unique_example :
    (get_item messages (accessed messages 1 one_variable)).0
    ≢ (get_item messages (accessed messages 4 one_variable)).0
get_item_unique_example =
    get_item_unique messages (negsuc 2) by_five 1 4 one_variable one_variable-Holds by_five_moves
      (omega arith)

construct-generate_initial_value_example :
    (saved_text : Text) × ((generate_initial_value messages one_variable).0 ≡ ok saved_text)
    × (construct int_type messages (text saved_text) absent ≡ (ok tt, ready one_variable))
construct-generate_initial_value_example =
    construct-generate_initial_value int_type messages (negsuc 2) (pos 5) one_variable
      int_type_exact one_variable-Holds
