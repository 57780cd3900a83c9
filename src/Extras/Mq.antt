-- ===== src/Extras/Mq.antt =====
-- grizzly_extras/async_message/mq/__init__.py: the handler for IBM MQ. pymqi, the world that it works
-- on, the transformers and the texts of exceptions are the record `Pymqi`; texts are encoded by the
-- codec of RFH2 messages. Times are in milliseconds.
pub mod Steps
pub mod Search
pub mod Perform
pub mod Requests
pub mod Connect
pub mod Put
pub mod Empty
pub mod Pending
pub mod Units
pub mod Attempts
pub mod Transactions
mod Examples
use grizzly.Common.{
  ℕ, zero, suc, ◌+◌, ◌-◌, ◌*◌, ◌/◌, ◌%◌, Bool, true, false, not, ◌&&◌, List, [], ◌∷◌, ◌++◌, Option,
  none, some, if◌then◌else◌, ltb, leb, ◌=ℕ◌, length, list_eq, nat_eq, ◌==◌, Result, ok, err,
}
use grizzly.Arguments.{ArgumentError, index_error, parse_arguments, get_unsupported_arguments}
use grizzly.Common.Dict.{Dict, lookup}
use grizzly.Common.Decimal.{read_int}
use grizzly.Common.Int.{ℤ, pos, negsuc}
use grizzly.Common.Text.{Text, codes, strip}
use grizzly.Exceptions.{Exception, key_error, value_error, attribute_error}
use grizzly.Extras.Messages.{
  Failure, message_error, mqmi_error, pyif_error, raised, unfinished, Context, Request, Reply,
  Method, register, said,
}
use grizzly.Extras.Mq.Steps.{
  Handler, Act, ◌>>=◌, return, raise, attempt, after_all, call, get_state, set_connected,
}
use grizzly.Extras.Transformers.{ContentType}
use grizzly.Extras.Rfh2.{Bytes, Codec, is_rfh2, decode_message, encode_message}

-- The options of a connection; those for TLS are the key repository, the label and the cipher.
pub record Options : Type 0 where
  pub queue_manager : Text
  pub connection : Text
  pub channel : Text
  pub user : Option Text
  pub password : Option Text
  pub heartbeat_interval : ℕ
  pub tls : Option (Text × Option Text × Text)

-- A message descriptor: its MsgId, and its other fields.
pub record Md (M : Type 0) : Type 0 where
  pub msg_id : Bytes
  pub fields : M

pub record Gmo : Type 0 where
  pub wait_interval : Option ℕ
  pub fail_if_quiescing : Bool
  pub browse_first : Bool
  pub browse_next : Bool
  pub syncpoint : Bool
  pub match_msg_id : Bool

-- What is put: None, a `str` or `bytes`.
pub data Content : Type 0 where
  nothing : Content
  text : Text → Content
  binary : Bytes → Content

-- A transformer for documents of a type: `parser` for an expression, and `transform`.
pub record Transformer (D : Type 0) : Type 0 where
  pub parser : Text → Result Failure (D → List Text)
  pub transform : Text → Result Failure D

-- Queues have type Q, and the errors that `close` suppresses change only the world. `text_of` is `str`
-- of an exception.
pub record Pymqi (W Q M D : Type 0) : Type 0 where
  pub codec : Codec
  pub connect_with_options : Options → W → Result Failure Unit × W
  pub disconnect : W → Result Failure Unit × W
  pub open_queue : Option Text → Bool → W → Result Failure Q × W
  pub close_queue : Q → W → W
  pub put : Q → Content → Md M → W → Result Failure (Md M) × W
  pub get : Q → Option ℤ → Md M → Gmo → W → Result Failure (Bytes × Md M) × W
  pub commit : W → Result Failure Unit × W
  pub backout : W → Result Failure Unit × W
  pub sleep : ℕ → W → W
  pub now : W → ℕ
  pub tstamp : W → Text
  pub plain_md : Md M
  pub rfh2_md : Md M
  pub cc_failed : ℕ
  pub no_msg_available : ℕ
  pub truncated_msg_failed : ℕ
  pub backed_out : ℕ
  pub original_length : Failure → ℤ
  pub text_of : Failure → Text
  pub argument_text : ArgumentError → Text
  pub available : ContentType → Option (Transformer D)

-- `value or other`
unfoldable pub or_text : Option Text → Option Text → Option Text
or_text (some (c ∷ value)) other = some (c ∷ value)
or_text _ other = other

unfoldable pub or_number : Option ℕ → ℕ → ℕ
or_number (some (suc n)) other = suc n
or_number _ other = other

-- The numbers of `value or other`, where `other` may be None.
unfoldable pub or_wait : Option ℕ → Option ℕ → Option ℕ
or_wait (some (suc n)) other = some (suc n)
or_wait _ other = other

unfoldable pub required : Option Text → Result Failure Text
required none = err (raised key_error)
required (some value) = ok value

abbrev waits : Option ℕ → Bool
waits none = false
waits (some n) = ltb 0 n

unfoldable pub create_gmo : Option ℕ → Bool → Gmo
create_gmo message_wait browsing = record {
  wait_interval = if waits message_wait then some (or_number message_wait 0 * 1000) else none;
  fail_if_quiescing = waits message_wait;
  browse_first = browsing;
  browse_next = false;
  syncpoint = not browsing;
  match_msg_id = false;
}

-- tohex of bytes
unfoldable pub hex_digit : ℕ → ℕ
hex_digit n = if ltb n 10 then b'0' + n else b'a' + (n - 10)

unfoldable pub tohex : Bytes → Text
tohex [] = []
tohex (b ∷ bs) = hex_digit (b / 16) ∷ hex_digit (b % 16) ∷ tohex bs

-- _get_safe_message_descriptor
unfoldable pub safe_descriptor : {M : Type 0} → Md M → Text × M
safe_descriptor md = (tohex md.msg_id, md.fields)

unfoldable pub tls_of :
    Option Text → Option Text → Option Text → Option Text → Option (Text × Option Text × Text)
tls_of none cert_label username ssl_cipher = none
tls_of (some key_file) cert_label username ssl_cipher = some (
  key_file,
  or_text cert_label username,
  elim (or_text ssl_cipher none) [
    | none ↦ codes "ECDHE_RSA_AES_256_GCM_SHA384"
    | some cipher ↦ cipher
  ],
)

abbrev pub lift : {W A : Type 0} → Result Failure A → Act W A
lift result h = (result, h)

unfoldable pub is_rfh2_type : Option Text → Bool
is_rfh2_type none = false
is_rfh2_type (some header_type) = header_type == codes "rfh2"

module _ {W Q M D : Type 0} (pymqi : Pymqi W Q M D) where
  -- close
  unfoldable pub close : Act W Unit
  close h =
      if h.connected then (call pymqi.disconnect >>= λ _. set_connected false) h else return tt h

  -- The body of a `with self.queue_context(...)`.
  unfoldable pub queue_context : {A : Type 0} → Option Text → Bool → (Q → Act W A) → Act W A
  queue_context endpoint browsing body = call (pymqi.open_queue endpoint browsing) >>= λ queue.
      after_all (body queue) (pymqi.close_queue queue)

  -- disconnect
  unfoldable pub disconnect : Act W (Reply (Text × M))
  disconnect = do _ ← close; _ ← set_connected false; return (said (codes "disconnected"))

  unfoldable pub set_connection : Context → Act W Unit
  set_connection context h = (
    ok tt,
    record h {
      message_wait = some (or_number context.message_wait 0);
      header_type = context.header_type;
    },
  )

  -- A handler that is not connected: `qmgr` is set before the connection is made.
  unfoldable pub new_connection : Context → Act W (Reply (Text × M))
  new_connection context = do
    connection ← lift (required context.connection)
    queue_manager ← lift (required context.queue_manager)
    channel ← lift (required context.channel)
    _ ← set_connected true
    _ ← call (
        pymqi.connect_with_options (record {
          queue_manager = queue_manager;
          connection = connection;
          channel = channel;
          user = context.username;
          password = context.password;
          heartbeat_interval = or_number context.heartbeat_interval 300;
          tls = tls_of context.key_file context.cert_label context.username context.ssl_cipher;
        }))
    _ ← set_connection context
    return (said (codes "connected"))

  -- connect
  unfoldable pub connect : Request → Act W (Reply (Text × M))
  connect request = elim request.context [
    | none ↦ raise (message_error (codes "no context in request"))
    | some context ↦ λ h.
        if h.connected
        then return (said (codes "re-used connection")) h
        else new_connection context h
  ]

  unfoldable pub create_md : Act W (Md M)
  create_md h = (ok (if is_rfh2_type h.header_type then pymqi.rfh2_md else pymqi.plain_md), h)

  unfoldable pub decoded : Bytes → Result Failure Text
  decoded bytes = elim (pymqi.codec.decode bytes) [
    | none ↦ err (raised value_error)
    | some value ↦ ok value
  ]

  -- _get_payload; `fuel` is for the decoder.
  unfoldable pub get_payload : ℕ → Bytes → Result Failure Text
  get_payload fuel message =
      if is_rfh2 message
      then elim (decode_message pymqi.codec fuel message) [
        | none ↦ err unfinished
        | some (err e) ↦ err (raised e)
        | some (ok bytes) ↦ decoded bytes
      ]
      else decoded message
