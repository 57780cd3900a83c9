-- ===== src/Extras/Mq/Attempts.antt =====
-- The search for a message and an attempt of a request keep that no unit of work is pending.
use grizzly.Common.{
  ℕ, zero, suc, ◌≡◌, refl, Bool, true, false, ◌||◌, ◌&&◌, List, [], ◌∷◌, Option, none, some, ◌=ℕ◌,
  list_eq, nat_eq,
}
use grizzly.Common.Text.{Text, codes}
use grizzly.Extras.Messages.{
  Failure, message_error, mqmi_error, pyif_error, no_action, raised, unfinished, Request,
}
use grizzly.Extras.Mq.Pending.{UnitsOfWork, Keeps, >>=-Keeps, attempt-Keeps}
use grizzly.Extras.Mq.Perform.{
  Outcome, retry, done, Operation, put_operation, get_operation, Target, execute,
}
use grizzly.Extras.Mq.Requests.{
  found_message, find_first, find_for, after_attempt, on_queue, attempt_request,
}
use grizzly.Extras.Mq.Search.{
  content_type_of, get_content_type, as_message_error, transformed, next_gmo, matched, browse,
  browse_all, unless_found, find_with, nothing_found, timed_out, look_again, look, find_message,
}
use grizzly.Extras.Mq.Steps.{Act, return, raise, attempt, call}
use grizzly.Extras.Mq.Units.{if-Keeps, if-Keeps_whole, queue_context-Keeps, execute-Keeps}
use grizzly.Extras.Mq.{
  Md, Gmo, Transformer, Pymqi, create_gmo, lift, queue_context, create_md, get_payload,
}
use grizzly.Extras.Rfh2.{Bytes}
use grizzly.Extras.Transformers.{ContentType}

module _ {W Q M D : Type 0} (pymqi : Pymqi W Q M D) (pending : W → Bool)
    (units : UnitsOfWork pymqi pending) where
  nothing_found-Keeps : (e : Failure) → Keeps pending (nothing_found pymqi e)
  unfolding nothing_found
  nothing_found-Keeps (mqmi_error comp reason) =
      if-Keeps_whole pymqi pending units
        ((comp =ℕ pymqi.cc_failed && reason =ℕ pymqi.no_msg_available)
          || reason =ℕ pymqi.truncated_msg_failed)
        _ _ (λ h s. s) (λ h s. s)
  nothing_found-Keeps (message_error t) = λ h s. s
  nothing_found-Keeps (pyif_error t) = λ h s. s
  nothing_found-Keeps no_action = λ h s. s
  nothing_found-Keeps (raised e) = λ h s. s
  nothing_found-Keeps unfinished = λ h s. s

  look_again-Keeps :
      (wait : Option ℕ) (start : ℕ) (again : Act W (Option Bytes))
      → Keeps pending again
      → Keeps pending (look_again pymqi wait start again)
  unfolding look_again
  look_again-Keeps none start again keeps h =
      if-Keeps pymqi pending units (timed_out pymqi none start h)
        (raise (message_error (codes "timeout while waiting for matching message"))) (return none)
        (λ h' s. s) (λ h' s. s) h
  look_again-Keeps (some wait) start again keeps h =
      if-Keeps pymqi pending units (timed_out pymqi (some wait) start h)
        (raise (message_error (codes "timeout while waiting for matching message")))
        (λ h'. again (record h' { world = pymqi.sleep 500 h'.world })) (λ h' s. s)
        (λ h' s.
          keeps (record h' { world = pymqi.sleep 500 h'.world }) (units.sleep_keeps 500 h'.world s))
        h

  create_md-Keeps : Keeps pending (create_md pymqi)
  unfolding create_md
  create_md-Keeps h s = s

  matched-Keeps :
      (values : List Text) (msg_id : Bytes) (rest : Act W Bytes)
      → Keeps pending rest
      → Keeps pending (matched pymqi values msg_id rest)
  unfolding matched
  matched-Keeps [] msg_id rest keeps = keeps
  matched-Keeps (value ∷ values) msg_id rest keeps = λ h s. s

  unless_found-Keeps :
      (found : Option Bytes) (rest : Act W (Option Bytes))
      → Keeps pending rest
      → Keeps pending (unless_found pymqi found rest)
  unfolding unless_found
  unless_found-Keeps (some msg_id) rest keeps = λ h s. s
  unless_found-Keeps none rest keeps = keeps

  module _ (queue : Q) (transformer : Transformer D) (get_values : D → List Text)
      (decoding : ℕ) where
    browse-Keeps :
        (fuel : ℕ) (gmo : Gmo)
        → gmo.syncpoint ≡ false
        → Keeps pending (browse pymqi queue transformer get_values decoding fuel gmo)
    unfolding browse
    browse-Keeps zero gmo no_syncpoint = λ h s. s
    browse-Keeps (suc fuel) gmo no_syncpoint =
        >>=-Keeps pending {B = Bytes} (create_md pymqi) _ create_md-Keeps λ md.
          >>=-Keeps pending {B = Bytes} (call (pymqi.get queue none md gmo)) _
            (λ h s. units.browse_keeps queue none md gmo h.world no_syncpoint s)
            λ message.
              >>=-Keeps pending {B = Bytes} (lift (get_payload pymqi decoding message.0)) _
                (λ h s. s)
                λ payload.
                  >>=-Keeps pending {B = Bytes}
                    (lift (transformed pymqi (transformer.transform payload)))
                    (λ document.
                      matched pymqi (get_values document) message.1.msg_id
                        (browse pymqi queue transformer get_values decoding fuel (next_gmo gmo)))
                    (λ h s. s)
                    λ document.
                      matched-Keeps (get_values document) message.1.msg_id
                        (browse pymqi queue transformer get_values decoding fuel (next_gmo gmo))
                        (browse-Keeps fuel (next_gmo gmo) (unfold next_gmo in refl))

    browse_all-Keeps :
        (fuel : ℕ) → Keeps pending (browse_all pymqi queue transformer get_values decoding fuel)
    unfolding browse_all
    browse_all-Keeps fuel =
        >>=-Keeps pending
          (browse pymqi queue transformer get_values decoding fuel (create_gmo none true))
          (λ msg_id. return (some msg_id))
          (browse-Keeps fuel (create_gmo none true) (unfold create_gmo in refl)) (λ msg_id h s. s)

    look-Keeps :
        (fuel : ℕ) (wait : Option ℕ) (start : ℕ)
        → Keeps pending (look pymqi queue transformer get_values decoding fuel wait start)
    unfolding look
    look-Keeps zero wait start = λ h s. s
    look-Keeps (suc fuel) wait start =
        >>=-Keeps pending
          (attempt (browse_all pymqi queue transformer get_values decoding fuel)
            (nothing_found pymqi))
          (λ found. unless_found pymqi found (
            look_again pymqi wait start
              (look pymqi queue transformer get_values decoding fuel wait start)))
          (attempt-Keeps pending (browse_all pymqi queue transformer get_values decoding fuel)
            (nothing_found pymqi) (browse_all-Keeps fuel) nothing_found-Keeps)
          λ found.
            unless_found-Keeps found _ (look_again-Keeps wait start _ (look-Keeps fuel wait start))

  find_with-Keeps :
      (fuel : ℕ) (name : Option Text) (expression : Text) (content_type : ContentType)
      (wait : Option ℕ) (start : ℕ) (transformer : Option (Transformer D))
      → Keeps pending (find_with pymqi fuel name expression content_type wait start transformer)
  unfolding find_with
  find_with-Keeps fuel name expression content_type wait start none = λ h s. s
  find_with-Keeps fuel name expression content_type wait start (some transformer) =
      >>=-Keeps pending (lift (as_message_error pymqi (transformer.parser expression)))
        (λ get_values.
          queue_context pymqi name true
            (λ queue. look pymqi queue transformer get_values fuel fuel wait start))
        (λ h s. s)
        λ get_values.
          queue_context-Keeps pymqi pending units name true
            (λ queue. look pymqi queue transformer get_values fuel fuel wait start)
            (λ queue. look-Keeps queue transformer get_values fuel fuel wait start)

  find_message-Keeps :
      (fuel : ℕ) (name : Option Text) (expression : Text) (content_type : ContentType)
      (wait : Option ℕ)
      → Keeps pending (find_message pymqi fuel name expression content_type wait)
  unfolding find_message
  find_message-Keeps fuel name expression content_type wait h =
      find_with-Keeps fuel name expression content_type wait (pymqi.now h.world)
        (pymqi.available content_type) h

  found_message-Keeps :
      (fuel start : ℕ) (wait : Option ℕ) (found : Option Bytes)
      → Keeps pending (found_message pymqi fuel start wait found)
  unfolding found_message
  found_message-Keeps fuel start wait none = λ h s. s
  found_message-Keeps fuel start wait (some msg_id) = λ h s. s

  find_first-Keeps :
      (fuel : ℕ) (target : Target) (request : Request) (wait : Option ℕ) (expression : Option Text)
      → Keeps pending (find_first pymqi fuel target request wait expression)
  unfolding find_first
  find_first-Keeps fuel target request wait none = λ h s. s
  find_first-Keeps fuel target request wait (some expression) =
      >>=-Keeps pending (lift (get_content_type (content_type_of request))) _ (λ h s. s)
        λ content_type h.
          >>=-Keeps pending (find_message pymqi fuel target.queue_name expression content_type wait)
            (found_message pymqi fuel (pymqi.now h.world) wait)
            (find_message-Keeps fuel target.queue_name expression content_type wait)
            (found_message-Keeps fuel (pymqi.now h.world) wait) h

  find_for-Keeps :
      (operation : Operation) (fuel : ℕ) (target : Target) (request : Request) (wait : Option ℕ)
      → Keeps pending (find_for pymqi fuel operation target request wait)
  unfolding find_for
  find_for-Keeps put_operation fuel target request wait = λ h s. s
  find_for-Keeps get_operation fuel target request wait =
      find_first-Keeps fuel target request wait target.expression

  after_attempt-Keeps :
      (fuel retries : ℕ) (outcome : Outcome M)
      → Keeps pending (after_attempt pymqi fuel retries outcome)
  unfolding after_attempt
  after_attempt-Keeps fuel retries retry h s = units.sleep_keeps _ h.world s
  after_attempt-Keeps fuel retries (done payload size md) h s = s

  on_queue-Keeps :
      (fuel : ℕ) (target : Target) (request : Request) (retries : ℕ)
      (found : Option Bytes × Option ℕ) (md : Md M) (queue : Q)
      → Keeps pending (on_queue pymqi fuel target request retries found md queue)
  unfolding on_queue
  on_queue-Keeps fuel target request retries found md queue =
      >>=-Keeps pending (execute pymqi fuel target request found.0 found.1 queue md)
        (after_attempt pymqi fuel retries)
        (execute-Keeps pymqi pending units fuel target request found.0 found.1 queue md)
        (after_attempt-Keeps fuel retries)

  pub attempt_request-Keeps :
      (fuel : ℕ) (target : Target) (request : Request) (retries : ℕ) (wait : Option ℕ)
      → Keeps pending (attempt_request pymqi fuel target request retries wait)
  unfolding attempt_request
  attempt_request-Keeps fuel target request retries wait =
      >>=-Keeps pending {B = Outcome M × Option ℕ}
        (find_for pymqi fuel target.operation target request wait) _
        (find_for-Keeps target.operation fuel target request wait)
        λ found.
          >>=-Keeps pending {B = Outcome M × Option ℕ} (create_md pymqi) _ create_md-Keeps λ md.
            >>=-Keeps pending {B = Outcome M × Option ℕ}
              (queue_context pymqi target.queue_name false
                (on_queue pymqi fuel target request retries found md))
              (λ outcome. return (outcome, found.1))
              (queue_context-Keeps pymqi pending units target.queue_name false
                (on_queue pymqi fuel target request retries found md)
                (on_queue-Keeps fuel target request retries found md))
              (λ outcome h s. s)
