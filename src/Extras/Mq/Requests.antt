-- ===== src/Extras/Mq/Requests.antt =====
-- AsyncMessageQueueHandler: a request with its retries, and the methods that it registers for actions.
use grizzly.Common.{
  ℕ, zero, suc, ◌+◌, ◌-◌, ◌*◌, ◌/◌, Bool, true, false, [], ◌∷◌, ◌++◌, Option, none, some,
  if◌then◌else◌, list_eq, nat_eq, Result, ok, err,
}
use grizzly.Arguments.{index_error, parse_arguments, get_unsupported_arguments}
use grizzly.Common.Dict.{Dict, lookup}
use grizzly.Common.Decimal.{read_int}
use grizzly.Common.Int.{ℤ, pos}
use grizzly.Common.Text.{Text, codes, join}
use grizzly.Exceptions as exceptions
use grizzly.Extras.Messages.{
  Failure, message_error, raised, Request, Reply, Response, Method, register, handle,
}
use grizzly.Extras.Mq.Perform.{
  Outcome, retry, done, Operation, put_operation, get_operation, Target, execute,
}
use grizzly.Extras.Mq.Search.{content_type_of, get_content_type, find_message}
use grizzly.Extras.Mq.Steps.{Handler, Act, ◌>>=◌, return, raise, get_state}
use grizzly.Extras.Mq.{
  Md, Pymqi, or_wait, safe_descriptor, lift, queue_context, disconnect, connect, create_md,
}
use grizzly.Extras.Rfh2.{Bytes}

unfoldable pub endpoint_of : Request → Option Text
endpoint_of request = elim request.context [ none ↦ none | some context ↦ context.endpoint ]

unfoldable pub wait_of : Request → Option ℕ
wait_of request = elim request.context [ none ↦ none | some context ↦ context.message_wait ]

-- Without metadata the encoder takes an empty dictionary.
unfoldable pub metadata_of : Request → Dict Text Text
metadata_of request = elim request.context [
  | none ↦ []
  | some context ↦ elim context.metadata [ none ↦ [] | some metadata ↦ metadata ]
]

-- `int(...)`, and None for 0
unfoldable pub read_size : Option Text → Result Failure (Option ℤ)
read_size none = ok none
read_size (some value) = elim (read_int value) [
  | none ↦ err (raised exceptions.value_error)
  | some (pos zero) ↦ ok none
  | some size ↦ ok (some size)
]

-- The search of a request with an expression: the message and the time that is left to wait.
unfoldable pub remaining : Option ℕ → ℕ → Option ℕ
remaining none elapsed = none
remaining (some wait) elapsed = some (wait - elapsed / 1000)

unfoldable pub has_payload : Request → Bool
has_payload request = elim request.payload [ none ↦ false | some payload ↦ true ]

unfoldable pub check_operation : Operation → Option Text → Result Failure Unit
check_operation put_operation (some expression) =
    err (message_error (codes "argument expression is not allowed for action PUT"))
check_operation _ _ = ok tt

module _ {W Q M D : Type 0} (pymqi : Pymqi W Q M D) (fuel : ℕ) where
  unfoldable pub read_arguments : Text → Result Failure (Dict Text Text)
  read_arguments endpoint = elim (parse_arguments endpoint (codes ":") true) [
    | err index_error ↦ err (raised exceptions.index_error)
    | err e ↦ err (message_error (pymqi.argument_text e))
    | ok arguments ↦
        elim (get_unsupported_arguments
          (codes "queue" ∷ codes "expression" ∷ codes "max_message_size" ∷ []) arguments) [
            | [] ↦ ok arguments
            | argument ∷ others ↦ err (
                message_error (
                  codes "arguments "
                  ++ (join (codes ", ") (argument ∷ others) ++ codes " is not supported")))
          ]
  ]

  unfoldable pub found_message : ℕ → Option ℕ → Option Bytes → Act W (Option Bytes × Option ℕ)
  found_message start message_wait none h =
      raise (message_error (codes "no matching message found")) h
  found_message start message_wait (some msg_id) h =
      (ok (some msg_id, remaining message_wait (pymqi.now h.world - start)), h)

  unfoldable pub find_first :
      Target → Request → Option ℕ → Option Text → Act W (Option Bytes × Option ℕ)
  find_first target request message_wait none = return (none, message_wait)
  find_first target request message_wait (some expression) = do
    content_type ← lift (get_content_type (content_type_of request))
    h ← get_state
    msg_id ← find_message pymqi fuel target.queue_name expression content_type message_wait
    found_message (pymqi.now h.world) message_wait msg_id

  unfoldable pub find_for :
      Operation → Target → Request → Option ℕ → Act W (Option Bytes × Option ℕ)
  find_for put_operation target request message_wait = return (none, message_wait)
  find_for get_operation target request message_wait =
      find_first target request message_wait target.expression

  -- Before another attempt the handler sleeps retries * retries * 0.5 seconds.
  unfoldable pub after_attempt : ℕ → Outcome M → Act W (Outcome M)
  after_attempt retries retry h =
      (ok retry, record h { world = pymqi.sleep ((retries + 1) * (retries + 1) * 500) h.world })
  after_attempt retries (done payload size md) h = return (done payload size md) h

  unfoldable pub on_queue :
      Target → Request → ℕ → Option Bytes × Option ℕ → Md M → Q → Act W (Outcome M)
  on_queue target request retries found md queue =
      execute pymqi fuel target request found.0 found.1 queue md >>= after_attempt retries

  -- A round of the loop; the time to wait is that of the next one.
  unfoldable pub attempt_request : Target → Request → ℕ → Option ℕ → Act W (Outcome M × Option ℕ)
  attempt_request target request retries message_wait = do
    found ← find_for target.operation target request message_wait
    md ← create_md pymqi
    outcome ← queue_context pymqi target.queue_name false (on_queue target request retries found md)
    return (outcome, found.1)

  -- What is returned for an outcome, unless another attempt is due.
  unfoldable pub or_again : Outcome M → Act W (Reply (Text × M)) → Act W (Reply (Text × M))
  or_again retry again = again
  or_again (done payload size md) again = return (record {
    message = none;
    payload = payload;
    metadata = some (safe_descriptor md);
    response_length = some size;
  })

  -- The loop, for the rounds that are left.
  unfoldable pub attempts : Target → Request → ℕ → ℕ → Option ℕ → Act W (Reply (Text × M))
  attempts target request zero retries message_wait =
      raise (message_error (codes "failed after 5 retries"))
  attempts target request (suc left) retries message_wait =
      attempt_request target request retries message_wait >>= λ result.
      or_again result.0 (attempts target request left (retries + 1) result.1)

  -- _request from the arguments on
  unfoldable pub with_arguments : Operation → Request → Dict Text Text → Act W (Reply (Text × M))
  with_arguments operation request arguments = do
    size ← lift (read_size (lookup (codes "max_message_size") arguments))
    _ ← lift (check_operation operation (lookup (codes "expression") arguments))
    h ← get_state
    attempts
        (record {
          operation = operation;
          queue_name = lookup (codes "queue") arguments;
          expression = lookup (codes "expression") arguments;
          max_message_size = size;
          metadata = metadata_of request;
        })
        request 5 0 (or_wait (wait_of request) h.message_wait)

  unfoldable pub to_endpoint : Operation → Request → Option Text → Act W (Reply (Text × M))
  to_endpoint operation request none = raise (message_error (codes "no endpoint specified"))
  to_endpoint operation request (some endpoint) =
      lift (read_arguments endpoint) >>= with_arguments operation request

  -- _request
  unfoldable pub run_request : Operation → Request → Act W (Reply (Text × M))
  run_request operation request h =
      if h.connected
      then to_endpoint operation request (endpoint_of request) h
      else raise (message_error (codes "not connected")) h

  -- put, get
  unfoldable pub put : Request → Act W (Reply (Text × M))
  put request h =
      if has_payload request
      then run_request put_operation request h
      else raise (message_error (codes "no payload")) h

  unfoldable pub get : Request → Act W (Reply (Text × M))
  get request h =
      if has_payload request
      then raise (message_error (codes "payload not allowed")) h
      else run_request get_operation request h

  -- `handlers` after the four decorators, in the order of the class
  unfoldable pub handlers : Dict Text (Method (Handler W) (Text × M))
  handlers = register (codes "GET" ∷ codes "RECEIVE" ∷ []) get (
      register (codes "PUT" ∷ codes "SEND" ∷ []) put (
        register (codes "CONN" ∷ []) (connect pymqi)
          (register (codes "DISC" ∷ []) (λ request. disconnect pymqi) [])))

  -- handle of AsyncMessageQueueHandler
  unfoldable pub handle_request :
      (Failure → Text) → Text → Request → Handler W → Response (Text × M) × Handler W
  handle_request show_failure =
      handle (λ h. pymqi.now h.world) show_failure (λ action. lookup action handlers)
