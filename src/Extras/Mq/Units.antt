-- ===== src/Extras/Mq/Units.antt =====
-- The steps of an attempt keep that no unit of work is pending.
use grizzly.Common.{
  ℕ, ◌≡◌, refl, Bool, true, false, ◌&&◌, Option, none, some, if◌then◌else◌, ◌=ℕ◌, list_eq, nat_eq,
  ◌==◌, Result, ok, err,
}
use grizzly.Common.Int.{ℤ}
use grizzly.Common.Text.{Text, codes, strip}
use grizzly.Extras.Messages.{
  Failure, message_error, mqmi_error, pyif_error, no_action, raised, unfinished, Context, Request,
  said,
}
use grizzly.Extras.Mq.Pending.{
  UnitsOfWork, Keeps, IsSettled, >>=-Keeps, and_then-Keeps, >>=-IsSettled, attempt-Keeps,
  attempt-settles, after_all-Keeps,
}
use grizzly.Extras.Mq.Perform.{
  done, Operation, put_operation, get_operation, Target, content, put_failed, content_length,
  put_message, received, take_message, truncated, is_given, get_failed, get_message, reconnect,
  operate, execute,
}
use grizzly.Extras.Mq.Steps.{
  Handler, Act, ◌>>=◌, return, raise, attempt, call, set_connected, and_then,
}
use grizzly.Extras.Mq.{
  Md, Gmo, Pymqi, lift, required, close, queue_context, disconnect, set_connection, new_connection,
  connect, get_payload,
}
use grizzly.Extras.Rfh2.{Bytes}

module _ {W Q M D : Type 0} (pymqi : Pymqi W Q M D) (pending : W → Bool)
    (units : UnitsOfWork pymqi pending) where
  pub if-Keeps :
      {A : Type 0} (b : Bool) (first other : Act W A)
      → Keeps pending first
      → Keeps pending other
      → (h : Handler W) → pending h.world ≡ false
      → pending (if b then first h else other h).1.world ≡ false
  if-Keeps true first other keeps keeps' h settled = keeps h settled
  if-Keeps false first other keeps keeps' h settled = keeps' h settled

  pub if-Keeps_whole :
      {A : Type 0} (b : Bool) (first other : Act W A)
      → Keeps pending first
      → Keeps pending other
      → Keeps pending (if b then first else other)
  if-Keeps_whole true first other keeps keeps' = keeps
  if-Keeps_whole false first other keeps keeps' = keeps'

  close-Keeps : Keeps pending (close pymqi)
  unfolding close
  close-Keeps h settled =
      if-Keeps h.connected (call pymqi.disconnect >>= λ _. set_connected false) (return tt)
        (>>=-Keeps pending (call pymqi.disconnect) (λ _. set_connected false)
          (λ h' s. units.disconnect_keeps h'.world s) (λ _ h' s. s))
        (λ h' s. s) h settled

  pub disconnect-Keeps : Keeps pending (disconnect pymqi)
  unfolding disconnect
  disconnect-Keeps =
      >>=-Keeps pending (close pymqi)
        (λ _. set_connected false >>= λ _. return (said (codes "disconnected"))) close-Keeps
        (λ _ h s. s)

  new_connection-Keeps : (context : Context) → Keeps pending (new_connection pymqi context)
  unfolding new_connection set_connection
  new_connection-Keeps context =
      >>=-Keeps pending (lift (required context.connection)) _ (λ h s. s)
        λ connection.
          >>=-Keeps pending (lift (required context.queue_manager)) _ (λ h s. s)
            λ queue_manager.
              >>=-Keeps pending (lift (required context.channel)) _ (λ h s. s)
                λ channel h s.
                  >>=-Keeps pending (call (pymqi.connect_with_options _)) _
                    (λ h' s'. units.connect_keeps _ h'.world s') (λ _ h' s'. s')
                    (record h { connected = true }) s

  pub connect-Keeps : (request : Request) → Keeps pending (connect pymqi request)
  unfolding connect
  connect-Keeps request =
      elim request.context
        as (λ context. Keeps pending (elim context [
          | none ↦ raise (message_error (codes "no context in request"))
          | some context ↦ λ h.
              if h.connected
              then return (said (codes "re-used connection")) h
              else new_connection pymqi context h
        ])) [
          | none ↦ λ h s. s
          | some context ↦ λ h.
              if-Keeps h.connected (return (said (codes "re-used connection")))
                (new_connection pymqi context) (λ h' s. s) (new_connection-Keeps context) h
        ]

  pub queue_context-Keeps :
      {A : Type 0} (name : Option Text) (browsing : Bool) (body : Q → Act W A)
      → ((queue : Q) → Keeps pending (body queue))
      → Keeps pending (queue_context pymqi name browsing body)
  unfolding queue_context
  queue_context-Keeps name browsing body keeps =
      >>=-Keeps pending (call (pymqi.open_queue name browsing)) _
        (λ h s. units.open_keeps name browsing h.world s)
        λ queue.
          after_all-Keeps pending (body queue) (pymqi.close_queue queue)
            (λ w s. units.close_keeps queue w s) (keeps queue)

  put_failed-Keeps : (e : Failure) → Keeps pending {A = Md M} (put_failed pymqi e)
  unfolding put_failed
  put_failed-Keeps (mqmi_error comp reason) h s = s
  put_failed-Keeps (message_error t) h s = s
  put_failed-Keeps (pyif_error t) h s = s
  put_failed-Keeps no_action h s = s
  put_failed-Keeps (raised e) h s = s
  put_failed-Keeps unfinished h s = s

  put_message-Keeps :
      (target : Target) (payload : Option Text) (queue : Q) (md : Md M)
      → Keeps pending (put_message pymqi target payload queue md)
  unfolding put_message
  put_message-Keeps target payload queue md h settled =
      >>=-Keeps pending (lift (content pymqi target h.header_type payload h.world)) _ (λ h' s. s)
        (λ request_payload.
          >>=-Keeps pending (attempt (call (pymqi.put queue request_payload md)) (put_failed pymqi))
            (λ md'. return (done payload (content_length request_payload) md'))
            (attempt-Keeps pending (call (pymqi.put queue request_payload md)) (put_failed pymqi)
              (λ h' s. units.put_keeps queue request_payload md h'.world s) put_failed-Keeps)
            (λ md' h' s. s))
        h settled

  commit-IsSettled :
      {A : Type 0} (a : A) (h : Handler W) (result : Result Failure Unit × W)
      → pymqi.commit h.world ≡ result
      → IsSettled pending (and_then (result.0, record h { world = result.1 }) (λ _. return a))
  commit-IsSettled a h (ok u, w) same = units.commit_ends h.world w same
  commit-IsSettled a h (err e, w) same = tt

  take_message-Keeps :
      (decoding : ℕ) (size : Option ℤ) (queue : Q) (md : Md M) (gmo : Gmo)
      → Keeps pending (take_message pymqi decoding size queue md gmo)
  unfolding take_message
  take_message-Keeps decoding size queue md gmo =
      attempt-settles pending
        (call (pymqi.get queue size md gmo) >>= λ message.
          lift (get_payload pymqi decoding message.0) >>= λ payload.
          call pymqi.commit >>= λ _. return (received pymqi payload message.1))
        (λ e. call pymqi.backout >>= λ _. raise e)
        (>>=-IsSettled pending (call (pymqi.get queue size md gmo)) _ λ message.
          >>=-IsSettled pending (lift (get_payload pymqi decoding message.0)) _ λ payload h.
            commit-IsSettled (received pymqi payload message.1) h (pymqi.commit h.world) refl)
        (λ e h.
          and_then-Keeps pending (call pymqi.backout h) (λ _. raise e) (units.backout_ends h.world)
            (λ _ h' s. s))

  truncated-Keeps : (size : Option ℤ) (e : Failure) → Keeps pending (truncated pymqi size e)
  unfolding truncated
  truncated-Keeps none e h s = s
  truncated-Keeps (some size) e h s = s

  get_failed-Keeps :
      (msg_id : Option Bytes) (size : Option ℤ) (e : Failure)
      → Keeps pending (get_failed pymqi msg_id size e)
  unfolding get_failed
  get_failed-Keeps msg_id size (mqmi_error comp reason) =
      if-Keeps_whole
        (is_given msg_id && (comp =ℕ pymqi.cc_failed && reason =ℕ pymqi.no_msg_available)) _ _
        (λ h s. s)
        (if-Keeps_whole (reason =ℕ pymqi.truncated_msg_failed) _ _
          (truncated-Keeps size (mqmi_error comp reason))
          (if-Keeps_whole (reason =ℕ pymqi.backed_out) _ _ (λ h s. s) (λ h s. s)))
  get_failed-Keeps msg_id size (message_error t) = λ h s. s
  get_failed-Keeps msg_id size (pyif_error t) = λ h s. s
  get_failed-Keeps msg_id size no_action = λ h s. s
  get_failed-Keeps msg_id size (raised e) = λ h s. s
  get_failed-Keeps msg_id size unfinished = λ h s. s

  reconnect-Keeps : (request : Request) (e : Failure) → Keeps pending (reconnect pymqi request e)
  unfolding reconnect
  reconnect-Keeps request (pyif_error error) =
      if-Keeps_whole (strip error == codes "not open") _ _
        (>>=-Keeps pending (disconnect pymqi) _ disconnect-Keeps
          λ _. >>=-Keeps pending (connect pymqi request) _ (connect-Keeps request) (λ _ h s. s))
        (λ h s. s)
  reconnect-Keeps request (message_error t) = λ h s. s
  reconnect-Keeps request (mqmi_error comp reason) = λ h s. s
  reconnect-Keeps request no_action = λ h s. s
  reconnect-Keeps request (raised e) = λ h s. s
  reconnect-Keeps request unfinished = λ h s. s

  operate-Keeps :
      (operation : Operation) (decoding : ℕ) (target : Target) (request : Request)
      (msg_id : Option Bytes) (wait : Option ℕ) (queue : Q) (md : Md M)
      → Keeps pending (operate pymqi operation decoding target request msg_id wait queue md)
  unfolding operate get_message
  operate-Keeps put_operation decoding target request msg_id wait queue md =
      put_message-Keeps target request.payload queue md
  operate-Keeps get_operation decoding target request msg_id wait queue md =
      attempt-Keeps pending (take_message pymqi decoding target.max_message_size queue _ _)
        (get_failed pymqi msg_id target.max_message_size)
        (take_message-Keeps decoding target.max_message_size queue _ _)
        (get_failed-Keeps msg_id target.max_message_size)

  pub execute-Keeps :
      (decoding : ℕ) (target : Target) (request : Request) (msg_id : Option Bytes) (wait : Option ℕ)
      (queue : Q) (md : Md M)
      → Keeps pending (execute pymqi decoding target request msg_id wait queue md)
  unfolding execute
  execute-Keeps decoding target request msg_id wait queue md =
      attempt-Keeps pending
        (operate pymqi target.operation decoding target request msg_id wait queue md)
        (reconnect pymqi request)
        (operate-Keeps target.operation decoding target request msg_id wait queue md)
        (reconnect-Keeps request)
