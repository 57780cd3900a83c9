-- ===== src/Extras/Daemon/Answers.antt =====
-- What a request comes to: an answer of its worker for the client that asked, or the end of the router.
use grizzly.Common.{
  ◌≡◌, ◌∙◌, refl, ap, false, List, [], ◌∷◌, Option, none, some, arith, list_eq, nat_eq, ◌==◌, ok,
  err, ◌>>=◌,
}
use grizzly.Common.Dict.{lookup, insert, lookup-insert}
use grizzly.Common.Equality.{beq_refl}
use grizzly.Common.Text.{Text}
use grizzly.Exceptions.{index_error}
use grizzly.Extras.Daemon.Worker.{
  handled, Integrations, check_worker, integrate, respond, on_message,
}
use grizzly.Extras.Daemon.{
  Frame, lru_ready, splitter_frame, Payload, Formats, Router, spawn_worker, after_reply,
  from_backend, request_worker, remember, take_worker, assign, send_backend, last_frame, client_key,
  backend_request, forward, from_frontend,
}

-- ZeroMQ: what the worker of a message of a ROUTER socket receives on its REQ socket, and what the
-- ROUTER socket receives where the worker replies.
pub record Sockets : Type 0 where
  pub to_worker : List Frame → Option (Text × List Frame)
  pub from_worker : Text → List Frame → List Frame

check_worker_same : (identity : Text) → check_worker identity (some identity) ≡ ok identity
unfolding check_worker
check_worker_same identity = rw (beq_refl identity) refl

module _ {X Y I : Type 0} (formats : Formats X) (integrations : Integrations X Y I)
    (sockets : Sockets) where
  respond-handled :
      (worker : Text) (payload : Payload X) (integration : I)
      → respond formats integrations worker
          (record payload { worker = some worker })
          (some integration)
        ≡ (
          handled (integrations.handle integration (record payload { worker = some worker })).0,
          some (integrations.handle integration (record payload { worker = some worker })).1,
        )
  unfolding respond integrate
  respond-handled worker payload integration =
      rw (respond, integrate, check_worker_same worker) refl

  -- Where the sockets add and strip identities and delimiters as ZeroMQ documents and a request is read
  -- back from its JSON, the message that the router sends for a request reaches the worker that it is
  -- assigned to; a worker with an integration answers with the response of that integration, and the
  -- router, whatever it has handled meanwhile, forwards that response to the client that asked, and
  -- changes nothing else.
  pub on_message-from_backend :
      (request_id : Frame) (payload : Payload X) (worker : Text) (integration : I) (r : Router)
      → ((identity : Text) (frames : List Frame)
          → sockets.to_worker (identity ∷ [] ∷ frames) ≡ some (identity, frames))
      → ((identity : Text) (frames : List Frame)
          → sockets.from_worker identity frames ≡ identity ∷ [] ∷ frames)
      → formats.loads (formats.dumps (record payload { worker = some worker }))
        ≡ ok (record payload { worker = some worker })
      → (request_id == lru_ready) ≡ false
      → (frames : List Frame) × (reply : List Frame) × (sockets.to_worker
            (backend_request formats request_id payload worker)
          ≡ some (worker, frames))
        × (on_message formats integrations worker frames (some integration)
            ≡ ok (
              some reply,
              some (integrations.handle integration (record payload { worker = some worker })).1,
            ))
        × (from_backend (sockets.from_worker worker reply) r
            ≡ ok (record r {
              frontend_sent =
                  (request_id
                    ∷ splitter_frame
                    ∷ integrations.dumps_answer (
                        handled
                          (integrations.handle integration
                            (record payload { worker = some worker })).0)
                    ∷ [])
                  ∷ r.frontend_sent;
            }))
  unfolding backend_request on_message from_backend after_reply last_frame
  on_message-from_backend request_id payload worker integration r deliver collect read other = (
    request_id ∷ splitter_frame ∷ formats.dumps (record payload { worker = some worker }) ∷ [],
    request_id
        ∷ splitter_frame
        ∷ integrations.dumps_answer
            (handled (integrations.handle integration (record payload { worker = some worker })).0)
        ∷ [],
    deliver worker _,
    rw read (rw (respond-handled worker payload integration) refl),
    rw (collect worker) (rw other refl),
  )

module _ {X : Type 0} (formats : Formats X) where
  -- A request of a client that has no worker.
  from_frontend-new :
      (spawned : Text) (request_id : Frame) (frames : List Frame) (payload : Payload X) (key : Text)
      (r : Router)
      → formats.loads (last_frame request_id frames) ≡ ok payload
      → payload.worker ≡ none
      → client_key formats payload ≡ ok (some key)
      → lookup key r.client_worker_map ≡ none
      → from_frontend formats spawned (request_id ∷ frames) r ≡ (
          take_worker spawned (some key) r.workers_available r >>= λ a.
          ok (forward formats request_id payload a))
  unfolding request_worker assign from_frontend take_worker
  from_frontend-new spawned request_id frames payload key r loaded unassigned client new =
      rw (from_frontend, loaded)
        (rw client (
          (ap
            (λ worker.
              assign spawned (some key) (request_worker worker (some key) r.client_worker_map) r
              >>= λ a. ok (forward formats request_id payload a))
            unassigned)
          ∙ (ap
              (λ found. assign spawned (some key) found r >>= λ a.
                ok (forward formats request_id payload a))
              new)))

  -- Where one worker is free, and two clients without a worker ask for one, with no message of a
  -- worker between their requests, the first gets that worker, and the second ends the router with
  -- an IndexError.
  pub from_frontend-starved :
      (spawned spawned' worker : Text) (request_id request_id' : Frame)
      (frames frames' : List Frame) (payload payload' : Payload X) (key key' : Text) (r : Router)
      → formats.loads (last_frame request_id frames) ≡ ok payload
      → payload.worker ≡ none
      → client_key formats payload ≡ ok (some key)
      → formats.loads (last_frame request_id' frames') ≡ ok payload'
      → payload'.worker ≡ none
      → client_key formats payload' ≡ ok (some key')
      → r.workers_available ≡ worker ∷ []
      → lookup key r.client_worker_map ≡ none
      → lookup key' r.client_worker_map ≡ none
      → (key == key') ≡ false
      → (r' : Router) × (from_frontend formats spawned (request_id ∷ frames) r ≡ ok r')
        × (from_frontend formats spawned' (request_id' ∷ frames') r' ≡ err index_error)
  unfolding take_worker spawn_worker remember forward send_backend
  from_frontend-starved spawned spawned' worker request_id request_id' frames frames' payload
        payload' key key' r loaded unassigned client loaded' unassigned' client' one new new'
        different =
      let r' = forward formats request_id payload (
        worker,
        spawn_worker spawned (record r {
          workers_available = [];
          client_worker_map = insert key worker r.client_worker_map;
        }),
      ) in
      (
        r',
        from_frontend-new spawned request_id frames payload key r loaded unassigned client new
            ∙ ap
                (λ available. take_worker spawned (some key) available r >>= λ a.
                  ok (forward formats request_id payload a))
                one,
        from_frontend-new spawned' request_id' frames' payload' key' r' loaded' unassigned' client'
            (ground (arith, lookup-insert key key' worker r.client_worker_map, different, new')),
      )
