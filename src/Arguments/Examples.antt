-- ===== src/Arguments/Examples.antt =====
-- The theorems on arguments at concrete texts.
use grizzly.Common.{◌≡◌, refl, ◌≢◌, true, List, [], ◌∷◌, ◌++◌, ok, err}
use grizzly.Common.Text.{Text, codes, is_space}
use grizzly.Arguments.{parse_arguments, index_error}
use grizzly.Arguments.Plain.{IsPlain, is_plain, is_plain_char, is_plain-IsPlainChar}
use grizzly.Arguments.Format.{
  ArePlain, format_arguments, assign_all, parse_arguments-format_arguments,
}
use grizzly.Arguments.Errors.{parse_arguments_lone_quote}

abbrev two_arguments : List (Text × Text)
two_arguments = (codes "step", codes "5") ∷ (codes "persist", codes "True") ∷ []

IsPlain-step : IsPlain (codes "step")
unfolding is_plain is_plain_char is_space
IsPlain-step = ((λ e. cc), is_plain-IsPlainChar (codes "step") refl)

IsPlain-five : IsPlain (codes "5")
unfolding is_plain is_plain_char is_space
IsPlain-five = ((λ e. cc), is_plain-IsPlainChar (codes "5") refl)

IsPlain-persist : IsPlain (codes "persist")
unfolding is_plain is_plain_char is_space
IsPlain-persist = ((λ e. cc), is_plain-IsPlainChar (codes "persist") refl)

IsPlain-true : IsPlain (codes "True")
unfolding is_plain is_plain_char is_space
IsPlain-true = ((λ e. cc), is_plain-IsPlainChar (codes "True") refl)

two_arguments-ArePlain : ArePlain two_arguments
two_arguments-ArePlain = ((IsPlain-step, IsPlain-five), ((IsPlain-persist, IsPlain-true), tt))

two_arguments-some : two_arguments ≢ []
two_arguments-some e = cc

parse_arguments-format_arguments_example :
    parse_arguments (format_arguments two_arguments) (codes "=") true
    ≡ ok (assign_all [] two_arguments)
parse_arguments-format_arguments_example =
    parse_arguments-format_arguments true two_arguments two_arguments-some two_arguments-ArePlain

parse_arguments_lone_quote_example :
    parse_arguments (codes "step" ++ b'=' ∷ 0x22 ∷ []) (codes "=") true ≡ err index_error
parse_arguments_lone_quote_example =
    parse_arguments_lone_quote (codes "step") 0x22 IsPlain-step refl
