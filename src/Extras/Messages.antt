-- ===== src/Extras/Messages.antt =====
-- grizzly_extras/async_message/__init__.py: requests, responses, and how a handler answers a request. A
-- handler's methods take its state and may raise; time is in milliseconds.
use grizzly.Common.{
  ℕ, ◌-◌, Bool, true, false, List, [], ◌∷◌, ◌++◌, Option, none, some, if◌then◌else◌, list_eq,
  nat_eq, Result, ok, err,
}
use grizzly.Common.Dict.{Dict, insert, has_key}
use grizzly.Common.Int.{ℤ}
use grizzly.Common.Text.{Text, codes}
use grizzly.Exceptions.{Exception}

-- An AsyncMessageError with its text; the errors of pymqi; the RuntimeError of `handle`; any other
-- exception. `unfinished` is none: it stands for a loop that has not ended with its fuel.
pub data Failure : Type 0 where
  message_error : Text → Failure
  mqmi_error : ℕ → ℕ → Failure
  pyif_error : Text → Failure
  no_action : Failure
  raised : Exception → Failure
  unfinished : Failure

-- AsyncMessageContext; a key that is null is taken as one that is missing.
pub record Context : Type 0 where
  pub queue_manager : Option Text
  pub connection : Option Text
  pub channel : Option Text
  pub username : Option Text
  pub password : Option Text
  pub key_file : Option Text
  pub cert_label : Option Text
  pub ssl_cipher : Option Text
  pub message_wait : Option ℕ
  pub endpoint : Option Text
  pub content_type : Option Text
  pub heartbeat_interval : Option ℕ
  pub header_type : Option Text
  pub metadata : Option (Dict Text Text)

pub record Request : Type 0 where
  pub action : Option Text
  pub worker : Option Text
  pub client : Option ℤ
  pub context : Option Context
  pub payload : Option Text

-- What a method returns; `M` is the type of the metadata.
pub record Reply (M : Type 0) : Type 0 where
  pub message : Option Text
  pub payload : Option Text
  pub metadata : Option M
  pub response_length : Option ℕ

-- AsyncMessageResponse
pub record Response (M : Type 0) : Type 0 where
  pub success : Bool
  pub worker : Text
  pub reply : Reply M
  pub response_time : ℕ

-- A method of a handler with a state.
abbrev pub Method : Type 0 → Type 0 → Type 0
Method S M = Request → S → Result Failure (Reply M) × S

-- The dictionary `handlers` after `@register(handlers, action, *actions)` on a method.
unfoldable pub register : {F : Type 0} → List Text → F → Dict Text F → Dict Text F
register [] method handlers = handlers
register (action ∷ actions) method handlers =
    register actions method
      (if has_key action handlers then handlers else insert action method handlers)

unfoldable pub said : {M : Type 0} → Text → Reply M
said message = record {
  message = some message;
  payload = none;
  metadata = none;
  response_length = none;
}

unfoldable pub or_unknown : Option Text → Text
or_unknown none = codes "UNKNOWN"
or_unknown (some []) = codes "UNKNOWN"
or_unknown (some (c ∷ action)) = c ∷ action

module _ {S M : Type 0} (clock : S → ℕ) (show_failure : Failure → Text) where
  unfoldable pub dispatch :
      (Text → Option (Method S M)) → Option Text → Request → S → Result Failure (Reply M) × S
  dispatch get_handler none request s = (err no_action, s)
  dispatch get_handler (some action) request s = elim (get_handler action) [
    | none ↦ (err (message_error (codes "no implementation for " ++ action)), s)
    | some method ↦ method request s
  ]

  -- The response, from the result of the method; the time is added by `handle`.
  unfoldable pub respond : Text → Option Text → Result Failure (Reply M) → ℕ → Response M
  respond worker action (ok reply) time = record {
    success = true;
    worker = worker;
    reply = reply;
    response_time = time;
  }
  respond worker action (err failure) time = record {
    success = false;
    worker = worker;
    reply = said (or_unknown action ++ (codes ": " ++ show_failure failure));
    response_time = time;
  }

  -- AsyncMessageHandler.handle
  unfoldable pub handle : (Text → Option (Method S M)) → Text → Request → S → Response M × S
  handle get_handler worker request s =
      let (result, s') = dispatch get_handler request.action request s in
      (respond worker request.action result (clock s' - clock s), s')
