-- ===== src/Arguments/Names.antt =====
-- Which names a parsed dictionary can hold.
use grizzly.Common.{
  ◌≡◌, Bool, false, List, [], ◌∷◌, none, some, arith, ok, All, list_eq, nat_eq, Option, >>=-eq-ok,
}
use grizzly.Common.Dict.{Dict, insert}
use grizzly.Common.Text.{Text, codes, strip, occurs, split, split_once}
use grizzly.Arguments.{
  parse_pair, strip_pair, parse_argument, joined, is_last, parse_parts, parse_arguments,
}

-- An argument's name holds neither a quote nor a blank.
pub record IsName (key : Text) : Type 0 where
  pub no_double : occurs (0x22 ∷ []) key ≡ false
  pub no_single : occurs (codes "'") key ≡ false
  pub no_blank : occurs (codes " ") key ≡ false

abbrev pub HasNames : Dict Text Text → Type 0
HasNames = All (λ p. IsName p.0)

insert-HasNames :
    (key value : Text) (d : Dict Text Text)
    → IsName key
    → HasNames d
    → HasNames (insert key value d)
unfolding insert
insert-HasNames key value [] k h = (k, tt)
insert-HasNames key value ((j, w) ∷ d) k h = ground (arith, insert-HasNames key value d k h.1)

parse_pair-IsName :
    (unquoted final : Bool) (key value name text : Text)
    → parse_pair unquoted final key value ≡ ok (some (name, text))
    → IsName name
unfolding parse_pair
parse_pair-IsName unquoted final key value name text h = ground arith

strip_pair-IsName :
    (unquoted final : Bool) (parts : List Text) (name text : Text)
    → strip_pair unquoted final parts ≡ ok (some (name, text))
    → IsName name
strip_pair-IsName unquoted final (key ∷ value ∷ []) name text h =
    parse_pair-IsName unquoted final (strip key) (strip value) name text h
strip_pair-IsName unquoted final _ name text h = cc

parse_argument-IsName :
    (separator : Text) (unquoted final : Bool) (argument name text : Text)
    → parse_argument separator unquoted final argument ≡ ok (some (name, text))
    → IsName name
unfolding parse_argument
parse_argument-IsName separator unquoted final argument name text h =
    ground
      (arith, strip_pair-IsName unquoted final (split_once separator (strip argument)) name text)

module _ (separator : Text) (unquoted : Bool) where
  parse_parts-HasNames :
      (d : Dict Text Text) (previous : Option Text) (parts : List Text) (result : Dict Text Text)
      → HasNames d
      → parse_parts separator unquoted d previous parts ≡ ok result
      → HasNames result
  unfolding parse_parts
  parse_parts-HasNames d previous [] result h e = ground arith
  parse_parts-HasNames d previous (part ∷ parts) result h e =
      let (found, parsed, rest) =
        >>=-eq-ok (parse_argument separator unquoted (is_last parts) (joined previous part)) _ e in
      after found parsed rest (parse_parts-HasNames d (some (joined previous part)) parts result h)
        (λ key value. parse_parts-HasNames (insert key value d) none parts result)
    where
      after :
          (found : Option (Text × Text))
          → parse_argument separator unquoted (is_last parts) (joined previous part) ≡ ok found
          → elim found [
            | none ↦ parse_parts separator unquoted d (some (joined previous part)) parts
            | some (key, value) ↦ parse_parts separator unquoted (insert key value d) none parts
          ]
            ≡ ok result
          → (parse_parts separator unquoted d (some (joined previous part)) parts ≡ ok result
              → HasNames result)
          → ((key value : Text)
              → HasNames (insert key value d)
              → parse_parts separator unquoted (insert key value d) none parts ≡ ok result
              → HasNames result)
          → HasNames result
      after none parsed rest carried kept = carried rest
      after (some (key, value)) parsed rest carried kept =
          kept key value
            (insert-HasNames key value d
              (parse_argument-IsName separator unquoted (is_last parts) (joined previous part) key
                value parsed)
              h)
            rest

-- Every name of a dictionary that `parse_arguments` returns, whatever the text, the separator and the
-- flag, holds no quote and no blank.
parse_arguments-HasNames :
    (arguments separator : Text) (unquoted : Bool) (d : Dict Text Text)
    → parse_arguments arguments separator unquoted ≡ ok d
    → HasNames d
unfolding parse_arguments
parse_arguments-HasNames arguments separator unquoted d h =
    parse_parts-HasNames separator unquoted [] none (split b',' arguments) d tt (ground arith)
