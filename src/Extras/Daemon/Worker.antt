-- ===== src/Extras/Daemon/Worker.antt =====
-- A worker of the daemon: it makes the integration that the first request asks for, and answers every
-- request. The two integrations are the record `Integrations`.
use grizzly.Common.{
  Bool, false, ◌||◌, List, [], ◌∷◌, Option, none, some, if◌then◌else◌, list_eq, nat_eq, ◌==◌,
  Result, ok, err, ◌>>=◌, ℕ,
}
use grizzly.Common.Text.{Text, codes}
use grizzly.Exceptions.{Exception, runtime_error, key_error}
use grizzly.Extras.Daemon.{Frame, splitter_frame, Payload, Formats, last_frame}

-- The response where there is none of an integration; `message` is the exception whose text it has.
pub record Refusal : Type 0 where
  pub worker : Text
  pub response_time : ℕ
  pub success : Bool
  pub message : Exception

pub data Answer (Y : Type 0) : Type 0 where
  refused : Refusal → Answer Y
  handled : Y → Answer Y

-- AsyncMessageQueueHandler and AsyncServiceBusHandler with their `handle`, and `jsondumps`.
pub record Integrations (X Y I : Type 0) : Type 0 where
  pub queue_handler : Text → Result Exception I
  pub service_bus_handler : Text → Result Exception I
  pub handle : I → Payload X → Y × I
  pub dumps_answer : Answer Y → Frame

-- A worker that is null is taken as one that is missing.
unfoldable pub check_worker : Text → Option Text → Result Exception Text
check_worker identity none = err key_error
check_worker identity (some worker) = if worker == identity then ok worker else err runtime_error

unfoldable pub refuse : {Y : Type 0} → Text → Exception → Answer Y
refuse identity e =
    refused (record { worker = identity; response_time = 0; success = false; message = e })

module _ {X Y I : Type 0} (formats : Formats X) (integrations : Integrations X Y I)
    (identity : Text) where
  unfoldable pub by_scheme : Text → Result Exception I
  by_scheme scheme =
      if scheme == codes "mq" || scheme == codes "mqs"
      then integrations.queue_handler identity
      else if scheme == codes "sb"
      then integrations.service_bus_handler identity
      else err runtime_error

  unfoldable pub new_integration : Option Text → Result Exception I
  new_integration none = err runtime_error
  new_integration (some url) = formats.scheme (some url) >>= by_scheme

  -- The integration that a request is for: the worker's, or a new one.
  unfoldable pub integrate : Option Text → Option I → Result Exception I
  integrate url (some integration) = ok integration
  integrate url none = new_integration url

  -- The answer to a request, and the integration of the worker after that.
  unfoldable pub respond : Payload X → Option I → Answer Y × Option I
  respond payload current =
      elim (check_worker identity payload.worker >>= λ _. integrate payload.url current) [
        | err e ↦ (refuse identity e, current)
        | ok integration ↦
            let response = integrations.handle integration payload in
            (handled response.0, some response.1)
      ]

  -- A message for the worker; there is no reply to an empty one.
  unfoldable pub on_message :
      List Frame → Option I → Result Exception (Option (List Frame) × Option I)
  on_message [] current = ok (none, current)
  on_message (first ∷ frames) current = do
    payload ← formats.loads (last_frame first frames)
    let answer = respond payload current
    ok (some (first ∷ splitter_frame ∷ integrations.dumps_answer answer.0 ∷ []), answer.1)
