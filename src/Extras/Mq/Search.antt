-- ===== src/Extras/Mq/Search.antt =====
-- AsyncMessageQueueHandler._find_message: browse a queue for a message that an expression matches. Fuel
-- is for each of the two loops, and `unfinished` is raised where it runs out.
use grizzly.Common.{
  ℕ, zero, suc, ◌-◌, ◌*◌, Bool, true, false, ◌||◌, ◌&&◌, List, [], ◌∷◌, ◌++◌, Option, none, some,
  if◌then◌else◌, leb, ◌=ℕ◌, list_eq, nat_eq, Result, ok, err,
}
use grizzly.Common.Text.{Text, codes}
use grizzly.Exceptions.{transformer_error}
use grizzly.Extras.Messages.{Failure, message_error, mqmi_error, raised, unfinished, Request}
use grizzly.Extras.Mq.Steps.{Handler, Act, ◌>>=◌, return, raise, attempt, call, get_state}
use grizzly.Extras.Mq.{
  Gmo, Transformer, Pymqi, create_gmo, lift, queue_context, create_md, get_payload,
}
use grizzly.Extras.Rfh2.{Bytes}
use grizzly.Extras.Transformers.{ContentType, undefined, name_of, from_string}

-- _get_content_type
unfoldable pub get_content_type : Option Text → Result Failure ContentType
get_content_type none = ok undefined
get_content_type (some []) = ok undefined
get_content_type (some (c ∷ value)) = elim (from_string (c ∷ value)) [
  | ok content_type ↦ ok content_type
  | err e ↦ err (raised e)
]

unfoldable pub content_type_of : Request → Option Text
content_type_of request = elim request.context [ none ↦ none | some context ↦ context.content_type ]

-- `gmo.Options = MQGMO_BROWSE_NEXT`
unfoldable pub next_gmo : Gmo → Gmo
next_gmo gmo = record {
  wait_interval = gmo.wait_interval;
  fail_if_quiescing = false;
  browse_first = false;
  browse_next = true;
  syncpoint = false;
  match_msg_id = gmo.match_msg_id;
}

module _ {W Q M D : Type 0} (pymqi : Pymqi W Q M D) where
  -- An exception of a call, with its text in an AsyncMessageError.
  unfoldable pub as_message_error : {A : Type 0} → Result Failure A → Result Failure A
  as_message_error (ok a) = ok a
  as_message_error (err e) = err (message_error (pymqi.text_of e))

  -- The payload as a document; only a TransformerError is turned into an AsyncMessageError.
  unfoldable pub transformed : Result Failure D → Result Failure D
  transformed (err (raised transformer_error)) =
      err (message_error (pymqi.text_of (raised transformer_error)))
  transformed result = result

  -- No message, or one that does not fit into the buffer, ends a look at the queue.
  unfoldable pub nothing_found : Failure → Act W (Option Bytes)
  nothing_found (mqmi_error comp reason) =
      if (comp =ℕ pymqi.cc_failed && reason =ℕ pymqi.no_msg_available)
        || reason =ℕ pymqi.truncated_msg_failed
      then return none
      else raise (message_error (pymqi.text_of (mqmi_error comp reason)))
  nothing_found e = raise e

  unfoldable pub timed_out : Option ℕ → ℕ → Handler W → Bool
  timed_out none start h = false
  timed_out (some wait) start h = leb (wait * 1000) (pymqi.now h.world - start)

  -- After a look at the queue that found nothing.
  unfoldable pub look_again : Option ℕ → ℕ → Act W (Option Bytes) → Act W (Option Bytes)
  look_again message_wait start again h =
      if timed_out message_wait start h
      then raise (message_error (codes "timeout while waiting for matching message")) h
      else elim message_wait [
        | none ↦ return none h
        | some wait ↦ again (record h { world = pymqi.sleep 500 h.world })
      ]

  -- The message that has been read, where the expression has a value in it, and else the rest.
  unfoldable pub matched : List Text → Bytes → Act W Bytes → Act W Bytes
  matched [] msg_id rest = rest
  matched (value ∷ values) msg_id rest = return msg_id

  unfoldable pub unless_found : Option Bytes → Act W (Option Bytes) → Act W (Option Bytes)
  unless_found (some msg_id) rest = return (some msg_id)
  unless_found none rest = rest

  module _ (queue : Q) (transformer : Transformer D) (get_values : D → List Text)
      (decoding : ℕ) where
    -- The messages that are there, from the first on.
    unfoldable pub browse : ℕ → Gmo → Act W Bytes
    browse zero gmo = raise unfinished
    browse (suc fuel) gmo = do
      md ← create_md pymqi
      message ← call (pymqi.get queue none md gmo)
      payload ← lift (get_payload pymqi decoding message.0)
      document ← lift (transformed (transformer.transform payload))
      matched (get_values document) message.1.msg_id (browse fuel (next_gmo gmo))

    unfoldable pub browse_all : ℕ → Act W (Option Bytes)
    browse_all fuel = browse fuel (create_gmo none true) >>= λ msg_id. return (some msg_id)

    unfoldable pub look : ℕ → Option ℕ → ℕ → Act W (Option Bytes)
    look zero message_wait start = raise unfinished
    look (suc fuel) message_wait start = attempt (browse_all fuel) nothing_found >>= λ found.
        unless_found found (look_again message_wait start (look fuel message_wait start))

  unfoldable pub find_with :
      ℕ
      → Option Text
      → Text
      → ContentType
      → Option ℕ
      → ℕ
      → Option (Transformer D)
      → Act W (Option Bytes)
  find_with fuel queue_name expression content_type message_wait start none =
      raise (message_error (codes "could not find a transformer for " ++ name_of content_type))
  find_with fuel queue_name expression content_type message_wait start (some transformer) =
      lift (as_message_error (transformer.parser expression)) >>= λ get_values.
      queue_context pymqi queue_name true
        (λ queue. look queue transformer get_values fuel fuel message_wait start)

  -- _find_message
  unfoldable pub find_message :
      ℕ → Option Text → Text → ContentType → Option ℕ → Act W (Option Bytes)
  find_message fuel queue_name expression content_type message_wait = do
    h ← get_state
    find_with fuel queue_name expression content_type message_wait (pymqi.now h.world)
        (pymqi.available content_type)
