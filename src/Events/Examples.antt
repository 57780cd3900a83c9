-- ===== src/Events/Examples.antt =====
-- Validations of a document that is a list of values, of which every value matches itself.
use grizzly.Common.{
  ◌≡◌, refl, true, false, not, List, [], ◌∷◌, some, if◌then◌else◌, list_eq, nat_eq, ok, err,
}
use grizzly.Common.Int.{pos}
use grizzly.Common.Decimal.{read_int, read_digits}
use grizzly.Common.Text.{Text, codes, strip, lstrip, rstrip}
use grizzly.Exceptions.{response_handler_error}
use grizzly.Extras.Transformers.{json}
use grizzly.Events.{
  Transformer, Formats, Action, validation, add_match, matches_of, read_number, transformer_for,
  run_handler,
}
use grizzly.Events.Matches.{is_match, run_handler-validation}

abbrev values_transformer : Transformer (List Text)
values_transformer = record {
  validate = λ expression. true;
  parser = λ expression. ok (λ document. document);
  transform = λ payload. ok (payload ∷ []);
  empty = [];
}

abbrev formats : Formats Unit (List Text)
formats = record {
  render = λ template user. ok template;
  available = λ content_type. some values_transformer;
  plain_parser = λ expression. ok (λ value. value ∷ []);
  jsondumps = λ matches. [];
  set_variable = λ variable value user. user;
}

abbrev two_expected : Action
two_expected = record {
  expression = codes "$";
  match_with = codes ".*";
  expected_matches = codes "2";
  as_json = false;
}

two_read : read_number (codes "2") ≡ ok (pos 2)
unfolding read_number read_int strip lstrip rstrip read_digits
two_read = refl

always_valid : transformer_for formats json (codes "$") ≡ ok values_transformer
unfolding transformer_for
always_valid = refl

abbrev document : List Text
document = codes "a" ∷ [] ∷ codes "b" ∷ []

two_matches : is_match 2 (matches_of (λ value. value ∷ []) document) ≡ true
unfolding is_match matches_of add_match
two_matches = refl

run_handler-validation_example :
    run_handler formats json document (validation two_expected true) tt ≡ (
      if (if true
            then is_match 2 (matches_of (λ value. value ∷ []) document)
            else not (is_match 2 (matches_of (λ value. value ∷ []) document)))
          then err response_handler_error
          else ok tt,
      tt,
    )
run_handler-validation_example =
    run_handler-validation formats two_expected true json document tt (codes "$") (codes ".*")
      (codes "2") 2 values_transformer (λ document. document) (λ value. value ∷ []) refl refl refl
      two_read always_valid refl refl
