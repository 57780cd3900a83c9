-- ===== src/Extras/Mq/Perform.antt =====
-- AsyncMessageQueueHandler._request on an open queue: one attempt to put or to get a message, and what
-- becomes of its errors.
use grizzly.Common.{
  ℕ, Bool, true, false, ◌&&◌, [], ◌∷◌, ◌++◌, Option, none, some, if◌then◌else◌, ◌=ℕ◌, length,
  list_eq, nat_eq, ◌==◌, Result, ok, err,
}
use grizzly.Common.Dict.{Dict}
use grizzly.Common.Decimal.{show}
use grizzly.Common.Int.{ℤ}
use grizzly.Common.Text.{Text, codes, strip}
use grizzly.Exceptions.{attribute_error}
use grizzly.Extras.Messages.{Failure, message_error, mqmi_error, pyif_error, raised, Request}
use grizzly.Extras.Mq.Steps.{Act, ◌>>=◌, return, raise, attempt, call, get_state}
use grizzly.Extras.Mq.{
  Md, Gmo, Content, nothing, text, binary, Pymqi, create_gmo, lift, disconnect, connect,
  get_payload,
}
use grizzly.Extras.Rfh2.{Bytes, encode_message}

-- What an attempt returns: another one is due, or the payload with the length that is reported.
pub data Outcome (M : Type 0) : Type 0 where
  retry : Outcome M
  done : Option Text → ℕ → Md M → Outcome M

pub data Operation : Type 0 where
  put_operation get_operation : Operation

-- The arguments of the endpoint, and what else the attempts of a request share.
pub record Target : Type 0 where
  pub operation : Operation
  pub queue_name : Option Text
  pub expression : Option Text
  pub max_message_size : Option ℤ
  pub metadata : Dict Text Text

unfoldable pub queue_text : Option Text → Text
queue_text none = codes "None"
queue_text (some name) = name

unfoldable pub content_length : Content → ℕ
content_length nothing = 0
content_length (text t) = length t
content_length (binary bs) = length bs

unfoldable pub is_given : Option Bytes → Bool
is_given none = false
is_given (some msg_id) = true

unfoldable pub text_content : Option Text → Content
text_content none = nothing
text_content (some payload) = text payload

module _ {W Q M D : Type 0} (pymqi : Pymqi W Q M D) where
  unfoldable pub rfh2_content : Target → Option Text → W → Result Failure Content
  rfh2_content target none world = err (raised attribute_error)
  rfh2_content target (some payload) world =
      elim (encode_message pymqi.codec (pymqi.codec.encode payload) (queue_text target.queue_name)
        (codes "gzip") (pymqi.tstamp world) target.metadata) [
          | err e ↦ err (raised e)
          | ok message ↦ ok (binary message)
        ]

  -- The payload of a request as it is put, by the type of header.
  unfoldable pub content : Target → Option Text → Option Text → W → Result Failure Content
  content target none payload world = ok (text_content payload)
  content target (some []) payload world = ok (text_content payload)
  content target (some (c ∷ header)) payload world =
      if (c ∷ header) == codes "rfh2"
      then rfh2_content target payload world
      else err (message_error (codes "Invalid header_type: " ++ (c ∷ header)))

  -- Only an MQMIError of `put` becomes an AsyncMessageError.
  unfoldable pub put_failed : {A : Type 0} → Failure → Act W A
  put_failed (mqmi_error comp reason) =
      raise (message_error (pymqi.text_of (mqmi_error comp reason)))
  put_failed e = raise e

  unfoldable pub put_message : Target → Option Text → Q → Md M → Act W (Outcome M)
  put_message target payload queue md = do
    h ← get_state
    request_payload ← lift (content target h.header_type payload h.world)
    md' ← attempt (call (pymqi.put queue request_payload md)) put_failed
    return (done payload (content_length request_payload) md')

  -- A message of length 0 is consumed, and another one is due.
  unfoldable pub received : Text → Md M → Outcome M
  received payload md =
      let response_length = length (pymqi.codec.encode payload) in
      if response_length =ℕ 0 then retry else done (some payload) response_length md

  -- The message is taken off the queue by `commit`; after any exception it is put back by `backout`.
  unfoldable pub take_message : ℕ → Option ℤ → Q → Md M → Gmo → Act W (Outcome M)
  take_message decoding max_size queue md gmo =
      attempt
        (do
          message ← call (pymqi.get queue max_size md gmo)
          payload ← lift (get_payload pymqi decoding message.0)
          _ ← call pymqi.commit
          return (received payload message.1))
        (λ e. call pymqi.backout >>= λ _. raise e)

  unfoldable pub truncated : Option ℤ → Failure → Act W (Outcome M)
  truncated none e = return retry
  truncated (some size) e = raise (
      message_error (
        codes "message with size "
        ++ (show (pymqi.original_length e)
            ++ (codes " bytes does not fit in message buffer of "
                ++ (show size ++ codes " bytes")))))

  unfoldable pub get_failed : Option Bytes → Option ℤ → Failure → Act W (Outcome M)
  get_failed msg_id max_size (mqmi_error comp reason) =
      if is_given msg_id && (comp =ℕ pymqi.cc_failed && reason =ℕ pymqi.no_msg_available)
      then return retry
      else if reason =ℕ pymqi.truncated_msg_failed
      then truncated max_size (mqmi_error comp reason)
      else if reason =ℕ pymqi.backed_out
      then return retry
      else raise (message_error (pymqi.text_of (mqmi_error comp reason)))
  get_failed msg_id max_size e = raise e

  -- The descriptor and options of a get: for the message that was found, or for any one.
  unfoldable pub get_options : Option Bytes → Option ℕ → Md M → Md M × Gmo
  get_options none message_wait md = (md, create_gmo message_wait false)
  get_options (some msg_id) message_wait md =
      (record md { msg_id = msg_id }, record (create_gmo none false) { match_msg_id = true })

  unfoldable pub get_message : ℕ → Target → Option Bytes → Option ℕ → Q → Md M → Act W (Outcome M)
  get_message decoding target msg_id message_wait queue md =
      let options = get_options msg_id message_wait md in
      attempt (take_message decoding target.max_message_size queue options.0 options.1)
        (get_failed msg_id target.max_message_size)

  -- A connection that is not open is made anew; any other PYIFError becomes an AsyncMessageError.
  unfoldable pub reconnect : Request → Failure → Act W (Outcome M)
  reconnect request (pyif_error error) =
      if strip error == codes "not open"
      then (disconnect pymqi >>= λ _. connect pymqi request >>= λ _. return retry)
      else raise (message_error (pymqi.text_of (pyif_error error)))
  reconnect request e = raise e

  unfoldable pub operate :
      Operation → ℕ → Target → Request → Option Bytes → Option ℕ → Q → Md M → Act W (Outcome M)
  operate put_operation decoding target request msg_id message_wait queue md =
      put_message target request.payload queue md
  operate get_operation decoding target request msg_id message_wait queue md =
      get_message decoding target msg_id message_wait queue md

  unfoldable pub execute :
      ℕ → Target → Request → Option Bytes → Option ℕ → Q → Md M → Act W (Outcome M)
  execute decoding target request msg_id message_wait queue md =
      attempt (operate target.operation decoding target request msg_id message_wait queue md)
        (reconnect request)
