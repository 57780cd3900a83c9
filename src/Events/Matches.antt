-- ===== src/Events/Matches.antt =====
-- What validating and saving do, by the number of matches.
use grizzly.Common.{
  ℕ, ◌≡◌, ◌∙◌, refl, ap, Bool, true, false, not, ◌&&◌, List, [], ◌∷◌, Option, none, some, arith,
  if◌then◌else◌, ◌=ℕ◌, length, ok, err,
}
use grizzly.Common.Int.{ℤ, pos}
use grizzly.Common.Text.{Text}
use grizzly.Exceptions.{response_handler_error}
use grizzly.Extras.Transformers.{ContentType}
use grizzly.Events.{
  Transformer, Formats, Action, validation, is_none_text, read_number, differs, matches_of, joined,
  select, transformer_for, get_match, after_validation, handle_match, action_of, run_handler,
}

-- As many matches as are expected, and not only the text "none".
unfoldable pub is_match : ℕ → List Text → Bool
is_match expected (match ∷ []) = (1 =ℕ expected) && not (is_none_text match)
is_match expected matches = length matches =ℕ expected

unfoldable pub is_given : Option Text → Bool
is_given none = false
is_given (some match) = true

module _ {U D : Type 0} (formats : Formats U D) where
  is_given-select :
      (expected : ℕ) (as_json : Bool) (matches : List Text)
      → is_given (select formats (pos expected) as_json matches) ≡ is_match expected matches
  unfolding select joined differs is_given is_match
  is_given-select expected as_json [] = ground arith
  is_given-select expected as_json (match ∷ []) = ground arith
  is_given-select expected as_json (match ∷ other ∷ matches) = ground arith

  after_validation-is_given :
      (condition : Bool) (user : U) (match : Option Text)
      → after_validation formats condition user match ≡ (
        if (if condition then is_given match else not (is_given match))
            then err response_handler_error
            else ok tt,
        user,
      )
  unfolding after_validation is_given
  after_validation-is_given true user none = refl
  after_validation-is_given true user (some match) = refl
  after_validation-is_given false user none = refl
  after_validation-is_given false user (some match) = refl

  get_match-select :
      (action : Action) (content_type : ContentType) (payload : D) (user : U)
      (expression match_with expected_text : Text) (expected : ℤ) (transform : Transformer D)
      (get_values : D → List Text) (match_get_values : Text → List Text)
      → formats.render action.expression user ≡ ok expression
      → formats.render action.match_with user ≡ ok match_with
      → formats.render action.expected_matches user ≡ ok expected_text
      → read_number expected_text ≡ ok expected
      → transformer_for formats content_type expression ≡ ok transform
      → transform.parser expression ≡ ok get_values
      → formats.plain_parser match_with ≡ ok match_get_values
      → get_match formats action content_type payload user
        ≡ ok (
            select formats expected action.as_json
              (matches_of match_get_values (get_values payload)))
  unfolding get_match
  get_match-select action content_type payload user expression match_with expected_text expected
        transform get_values match_get_values renders matches_with expects reads transforms parses
        plain =
      rw (get_match, renders)
        (rw matches_with (rw expects (rw reads (rw transforms (rw parses (rw plain refl))))))

  -- Where the three texts of the action render, a number of matches from 0 on is expected, and the
  -- expression and the regular expression can be parsed: a validation raises a ResponseHandlerError
  -- exactly where its condition is that there is a match and the payload has as many matches as are
  -- expected, or is not and it has not; a single match that reads "none" is none. Nothing changes.
  pub run_handler-validation :
      (action : Action) (condition : Bool) (content_type : ContentType) (payload : D) (user : U)
      (expression match_with expected_text : Text) (expected : ℕ) (transform : Transformer D)
      (get_values : D → List Text) (match_get_values : Text → List Text)
      → formats.render action.expression user ≡ ok expression
      → formats.render action.match_with user ≡ ok match_with
      → formats.render action.expected_matches user ≡ ok expected_text
      → read_number expected_text ≡ ok (pos expected)
      → transformer_for formats content_type expression ≡ ok transform
      → transform.parser expression ≡ ok get_values
      → formats.plain_parser match_with ≡ ok match_get_values
      → run_handler formats content_type payload (validation action condition) user ≡ (
        if (if condition
              then is_match expected (matches_of match_get_values (get_values payload))
              else not (is_match expected (matches_of match_get_values (get_values payload))))
            then err response_handler_error
            else ok tt,
        user,
      )
  unfolding run_handler handle_match action_of
  run_handler-validation action condition content_type payload user expression match_with
        expected_text expected transform get_values match_get_values renders matches_with expects
        reads transforms parses plain =
      let matches = matches_of match_get_values (get_values payload) in
      ap (handle_match formats (validation action condition) user) (
        get_match-select action content_type payload user expression match_with expected_text
          (pos expected) transform get_values match_get_values renders matches_with expects reads
          transforms parses plain)
      ∙ after_validation-is_given condition user
          (select formats (pos expected) action.as_json matches)
      ∙ ap
          (λ given. (
            if (if condition then given else not given) then err response_handler_error else ok tt,
            user,
          ))
          (is_given-select expected action.as_json matches)
