-- ===== src/Arguments.antt =====
-- grizzly_extras/arguments.py, and the tests on separators of grizzly_extras/text.py. A `ValueError`
-- is named for its message, and `index_error` is an `IndexError`, which no caller catches.
pub mod Plain
pub mod Separator
pub mod Format
pub mod Errors
pub mod Names
mod Examples
use grizzly.Common.{
  ℕ, suc, ◌+◌, Bool, true, false, not, ◌&&◌, ◌||◌, List, [], ◌∷◌, ◌++◌, map, Option, none, some,
  ltb, if◌then◌else◌, length, get_elem?, drop, list_eq, nat_eq, ◌==◌, ◌=ℕ◌, Result, ok, err, ◌>>=◌,
}
unfoldable use grizzly.Common.{contains}
use grizzly.Common.Dict.{Dict, insert}
use grizzly.Common.Text.{
  Text, codes, strip, index?, rindex?, occurs, count, split, split_once, rsplit_once, last?,
  but_last,
}

pub data ArgumentError : Type 0 where
  incorrect_arguments incorrect_argument not_enough_values : ArgumentError
  invalid_name invalid_value incorrectly_quoted needs_quotes index_error : ArgumentError

abbrev pub is_quote : ℕ → Bool
is_quote c = c =ℕ 0x22 || c =ℕ 0x27

abbrev pub is_operator : ℕ → Bool
is_operator c = c =ℕ b'=' || c =ℕ b'|'

-- The sequence is in the value, and its first occurrence is its last.
pub has_sequence : Text → Text → Bool
has_sequence sequence value = elim (index? sequence value) [
  | none ↦ false
  | some i ↦ elim (rindex? sequence value) [ none ↦ false | some j ↦ i =ℕ j ]
]

pub has_separator : Text → Text → Bool
has_separator separator value = elim (index? separator value) [
  | none ↦ false
  | some i ↦ elim (get_elem? value (i + 1)) [
    | some c ↦ not (is_operator c)
    | none ↦ occurs separator value
  ]
]

-- The body of the `try` of `split_value`; `ok none` is a `ValueError`, which the `except` takes.
split_at_operator : Text → Text → Result ArgumentError (Option (List Text))
split_at_operator separator value =
    if ltb 1 (count separator value)
    then elim (index? separator value) [
      | none ↦ ok none
      | some left ↦ elim (rindex? separator value) [
        | none ↦ ok none
        | some right ↦ elim (get_elem? value (left + 1)) [
          | none ↦ err index_error
          | some c ↦
              if not (is_operator c)
              then ok (some (split_once separator value))
              else elim (get_elem? value (right + 1)) [
                | none ↦ err index_error
                | some d ↦
                    if not (is_operator d) then ok (some (rsplit_once separator value)) else ok none
              ]
        ]
      ]
    ]
    else ok none

pub split_value : Text → Text → Result ArgumentError (List Text)
split_value value separator = do
  values ← split_at_operator separator value
  ok (map strip (elim values [ none ↦ split_once separator value | some parts ↦ parts ]))

pub get_unsupported_arguments {ℓ} : {V : Type ℓ} → List Text → List (Text × V) → List Text
get_unsupported_arguments valid [] = []
get_unsupported_arguments valid ((argument, v) ∷ rest) =
    let others = get_unsupported_arguments valid rest in
    if contains argument valid then others else argument ∷ others

unfoldable pub unquote : Text → Result ArgumentError Text
unquote [] = err index_error
unquote (c ∷ s) = elim (last? (c ∷ s)) [
  | none ↦ err index_error
  | some d ↦ ok (if c =ℕ d && is_quote c then but_last s else c ∷ s)
]

-- Where the quoted part of a value starts: after `==` or `|=`, or at its front.
pub start_index : Text → ℕ
start_index value =
    let has_equals = has_sequence (codes "==") value in
    let has_or = has_sequence (codes "|=") value in
    let inline_quotes =
      (has_equals || has_or) && not (occurs (codes "?") value) && not (occurs (codes "@") value) in
    let sequence = if has_equals then codes "==" else codes "|=" in
    if not inline_quotes then 0 else elim (index? sequence value) [ none ↦ 0 | some i ↦ i + 2 ]

-- From the second test on quotes on: the closing quote, and a value that needs quotes.
close_value : Bool → Option ℕ → Text → Result ArgumentError (Option Text)
close_value strips start_quote value = elim (last? value) [
  | none ↦ err index_error
  | some c ↦ elim start_quote [
    | none ↦
        if is_quote c
        then err incorrectly_quoted
        else if occurs (codes " ") value
        then err needs_quotes
        else ok (some value)
    | some _ ↦ ok (some (if is_quote c && strips then but_last value else value))
  ]
]

-- The quotes of a value. `ok none`: the value goes on in the next part, so the loop continues.
pub parse_quotes : Bool → Bool → Text → Result ArgumentError (Option Text)
parse_quotes unquoted final value =
    let start = start_index value in
    let strips = unquoted && start =ℕ 0 in
    elim (get_elem? value start) [
      | none ↦ err index_error
      | some c ↦
          if is_quote c
          then elim (last? value) [
            | none ↦ err index_error
            | some d ↦
                if not (d =ℕ c)
                then (if not final then ok none else err incorrectly_quoted)
                else close_value strips (some c) (if strips then drop 1 value else value)
          ]
          else close_value strips none value
    ]

-- One key with its value, both stripped already.
pub parse_pair : Bool → Bool → Text → Text → Result ArgumentError (Option (Text × Text))
parse_pair unquoted final key value =
    if occurs (0x22 ∷ []) key || occurs (codes "'") key || occurs (codes " ") key
    then err invalid_name
    else if ltb (length value) 1
    then err invalid_value
    else do
      parsed ← parse_quotes unquoted final value
      ok (elim parsed [ none ↦ none | some v ↦ some (key, v) ])

abbrev strip_pair : Bool → Bool → List Text → Result ArgumentError (Option (Text × Text))
strip_pair unquoted final (key ∷ value ∷ []) = parse_pair unquoted final (strip key) (strip value)
strip_pair unquoted final _ = err not_enough_values

-- One round of the loop, on a part that has been joined with what the round before left open.
parse_argument : Text → Bool → Bool → Text → Result ArgumentError (Option (Text × Text))
parse_argument separator unquoted final argument =
    if ltb (length (strip argument)) 1
    then err incorrect_arguments
    else if not (occurs separator argument)
    then err incorrect_argument
    else strip_pair unquoted final (split_once separator (strip argument))

abbrev joined : Option Text → Text → Text
joined none argument = argument
joined (some previous) argument = previous ++ (codes "," ++ argument)

abbrev is_last : List Text → Bool
is_last [] = true
is_last (part ∷ parts) = false

-- The loop: the dictionary so far, the part that was left open, and the parts to come.
parse_parts :
    Text → Bool → Dict Text Text → Option Text → List Text → Result ArgumentError (Dict Text Text)
parse_parts separator unquoted parsed previous [] = ok parsed
parse_parts separator unquoted parsed previous (part ∷ parts) =
    parse_argument separator unquoted (is_last parts) (joined previous part) >>= λ found.
    elim found [
      | none ↦ parse_parts separator unquoted parsed (some (joined previous part)) parts
      | some (key, value) ↦ parse_parts separator unquoted (insert key value parsed) none parts
    ]

pub parse_arguments : Text → Text → Bool → Result ArgumentError (Dict Text Text)
parse_arguments arguments separator unquoted =
    if not (occurs separator arguments)
      || (ltb 1 (count separator arguments)
          && ltb (count (0x22 ∷ []) arguments) 2
          && ltb (count (codes "'") arguments) 2
          && not (occurs (codes ", ") arguments))
    then err incorrect_arguments
    else parse_parts separator unquoted [] none (split b',' arguments)
