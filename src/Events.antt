-- ===== src/Events.antt =====
-- grizzly/events/response_handler.py: validating and saving values of a response. Rendering, the
-- transformers, the regular expressions of the plain one and `jsondumps` are the record `Formats`; an
-- exception takes the place of its message.
pub mod Matches
mod Examples
use grizzly.Common.{
  ℕ, zero, suc, Bool, true, false, not, ◌&&◌, ◌||◌, List, [], ◌∷◌, ◌++◌, Option, none, some,
  if◌then◌else◌, ltb, ◌=ℕ◌, length, list_eq, nat_eq, ◌==◌, Result, ok, err, ◌>>=◌,
}
use grizzly.Common.Decimal.{read_int}
use grizzly.Common.Int.{ℤ, pos, negsuc}
use grizzly.Common.Text.{Text, codes, join, to_lower}
use grizzly.Exceptions.{
  Exception, response_handler_error, transformer_error, type_error, value_error,
}
use grizzly.Extras.Transformers.{ContentType, json}

-- A transformer: `validate`, `parser` with the values in a document, `transform` and `EMPTY`.
pub record Transformer (D : Type 0) : Type 0 where
  pub validate : Text → Bool
  pub parser : Text → Result Exception (D → List Text)
  pub transform : Text → Result Exception D
  pub empty : Text

-- For users of type U and documents of type D. `plain_parser` is PlainTransformer.parser.
pub record Formats (U D : Type 0) : Type 0 where
  pub render : Text → U → Result Exception Text
  pub available : ContentType → Option (Transformer D)
  pub plain_parser : Text → Result Exception (Text → List Text)
  pub jsondumps : List Text → Text
  pub set_variable : Text → Option Text → U → U

-- ResponseHandlerAction
pub record Action : Type 0 where
  pub expression : Text
  pub match_with : Text
  pub expected_matches : Text
  pub as_json : Bool

pub data Handler : Type 0 where
  validation : Action → Bool → Handler
  save : Action → Text → Option Text → Handler

-- The handlers of a request, and the content type of its response.
pub record Responses : Type 0 where
  pub content_type : ContentType
  pub payload : List Handler
  pub metadata : List Handler

-- The value that counts as a match: the first one, where it is not empty.
unfoldable pub add_match : List Text → List Text → List Text
add_match [] matches = matches
add_match ([] ∷ others) matches = matches
add_match ((c ∷ value) ∷ others) matches = (c ∷ value) ∷ matches

unfoldable pub is_none_text : Text → Bool
is_none_text match = to_lower match == codes "none"

unfoldable pub read_number : Text → Result Exception ℤ
read_number value = elim (read_int value) [ none ↦ err value_error | some n ↦ ok n ]

-- `expected == -1 and number < 1`, or `expected > -1 and number != expected`
unfoldable pub differs : ℤ → ℕ → Bool
differs (pos expected) number = not (number =ℕ expected)
differs (negsuc zero) number = ltb number 1
differs (negsuc (suc n)) number = false

-- All matches in the values.
unfoldable pub matches_of : (Text → List Text) → List Text → List Text
matches_of match_get_values [] = []
matches_of match_get_values (value ∷ values) =
    add_match (match_get_values value) (matches_of match_get_values values)

module _ {U D : Type 0} (formats : Formats U D) where
  -- The match, from the list of all matches.
  unfoldable pub joined : Bool → List Text → Option Text
  joined as_json (match ∷ []) =
      if is_none_text match
      then none
      else some (if as_json then formats.jsondumps (match ∷ []) else match)
  joined as_json matches =
      some (if as_json then formats.jsondumps matches else join (10 ∷ []) matches)

  unfoldable pub select : ℤ → Bool → List Text → Option Text
  select expected as_json matches =
      if differs expected (length matches) then none else joined as_json matches

  -- The transformer for the content type, where the expression is valid for it.
  unfoldable pub transformer_for : ContentType → Text → Result Exception (Transformer D)
  transformer_for content_type expression = elim (formats.available content_type) [
    | none ↦ err type_error
    | some transform ↦ if transform.validate expression then ok transform else err type_error
  ]

  -- get_match
  unfoldable pub get_match : Action → ContentType → D → U → Result Exception (Option Text)
  get_match action content_type payload user = do
    expression ← formats.render action.expression user
    match_with ← formats.render action.match_with user
    expected_text ← formats.render action.expected_matches user
    expected ← read_number expected_text
    transform ← transformer_for content_type expression
    get_values ← transform.parser expression
    match_get_values ← formats.plain_parser match_with
    ok (select expected action.as_json (matches_of match_get_values (get_values payload)))

  -- ValidationHandlerAction.__call__, from the match on
  unfoldable pub after_validation : Bool → U → Option Text → Result Exception Unit × U
  after_validation true user (some match) = (err response_handler_error, user)
  after_validation false user none = (err response_handler_error, user)
  after_validation condition user match = (ok tt, user)

  -- `match or default_value`
  unfoldable pub or_default : Option Text → Option Text → Option Text
  or_default (some (c ∷ match)) default_value = some (c ∷ match)
  or_default _ default_value = default_value

  unfoldable pub is_missing : Option Text → Option Text → Bool
  is_missing none none = true
  is_missing _ _ = false

  -- SaveHandlerAction.__call__, from the match on
  unfoldable pub after_save : Text → Option Text → U → Option Text → Result Exception Unit × U
  after_save variable default_value user match = (
    if is_missing match default_value then err response_handler_error else ok tt,
    formats.set_variable variable (or_default match default_value) user,
  )

  unfoldable pub handle_match :
      Handler → U → Result Exception (Option Text) → Result Exception Unit × U
  handle_match handler user (err e) = (err e, user)
  handle_match (validation action condition) user (ok match) = after_validation condition user match
  handle_match (save action variable default_value) user (ok match) =
      after_save variable default_value user match

  unfoldable pub action_of : Handler → Action
  action_of (validation action condition) = action
  action_of (save action variable default_value) = action

  unfoldable pub run_handler : ContentType → D → Handler → U → Result Exception Unit × U
  run_handler content_type payload handler user =
      handle_match handler user (get_match (action_of handler) content_type payload user)

  unfoldable pub go_on :
      Result Exception Unit × U → (U → Result Exception Unit × U) → Result Exception Unit × U
  go_on (ok u, user) rest = rest user
  go_on (err e, user) rest = (err e, user)

  unfoldable pub run_handlers : ContentType → D → List Handler → U → Result Exception Unit × U
  run_handlers content_type payload [] user = (ok tt, user)
  run_handlers content_type payload (handler ∷ handlers) user =
      go_on (run_handler content_type payload handler user)
        (run_handlers content_type payload handlers)

  -- The payload as a document.
  unfoldable pub or_empty : Option Text → Text → Text
  or_empty (some (c ∷ payload)) empty = c ∷ payload
  or_empty _ empty = empty

  unfoldable pub as_handler_error : Result Exception D → Result Exception D
  as_handler_error (err transformer_error) = err response_handler_error
  as_handler_error result = result

  unfoldable pub transformed : ContentType → Option Text → Result Exception D
  transformed content_type payload = elim (formats.available content_type) [
    | none ↦ err response_handler_error
    | some impl ↦ as_handler_error (impl.transform (or_empty payload impl.empty))
  ]

  unfoldable pub on_document :
      ContentType → List Handler → U → Result Exception D → Result Exception Unit × U
  on_document content_type handlers user (err e) = (err e, user)
  on_document content_type handlers user (ok document) =
      run_handlers content_type document handlers user

  unfoldable pub run_payload :
      ContentType → Option Text → List Handler → U → Result Exception Unit × U
  run_payload content_type payload [] user = (ok tt, user)
  run_payload content_type payload (handler ∷ handlers) user =
      on_document content_type (handler ∷ handlers) user (transformed content_type payload)

  -- Where a handler fails, the other handlers of the event get the exception, with their own failures
  -- suppressed, before it is raised again.
  unfoldable pub notify :
      (Exception → U → U) → Result Exception Unit × U → Result Exception Unit × U
  notify others (ok u, user) = (ok u, user)
  notify others (err e, user) = (err e, others e user)

  -- ResponseHandler.__call__; `metadata` is the document of the metadata, or of an empty dictionary.
  unfoldable pub call_handlers :
      (Exception → U → U)
      → Option Responses
      → Bool
      → Option Text
      → D
      → U
      → Result Exception Unit × U
  call_handlers others none is_response_error payload metadata user = (ok tt, user)
  call_handlers others (some responses) true payload metadata user = (ok tt, user)
  call_handlers others (some responses) false payload metadata user = notify others (
      go_on (run_payload responses.content_type payload responses.payload user)
        (run_handlers json metadata responses.metadata))
