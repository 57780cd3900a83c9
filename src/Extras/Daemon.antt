-- ===== src/Extras/Daemon.antt =====
-- grizzly_extras/async_message/daemon.py: the router between clients and workers, and its workers. A
-- frame is a list of bytes, and an identity is ASCII, so its bytes are its characters. JSON and
-- `urlparse` are the record `Formats`.
pub mod Worker
pub mod Apart
pub mod Moved
pub mod Sessions
pub mod Answers
mod Examples
use grizzly.Common.{
  ℕ, Bool, true, false, List, [], ◌∷◌, ◌++◌, Option, none, some, if◌then◌else◌, list_eq, nat_eq,
  ◌==◌, drop, length, Result, ok, err, ◌>>=◌,
}
use grizzly.Common.Dict.{Dict, lookup, insert}
use grizzly.Common.Int.{ℤ}
use grizzly.Common.Text.{Text, codes}
use grizzly.Common.Decimal.{show}
use grizzly.Exceptions.{Exception, index_error}

abbrev pub Frame : Type 0
Frame = List ℕ

abbrev pub lru_ready : Frame
lru_ready = 1 ∷ []

abbrev pub splitter_frame : Frame
splitter_frame = []

-- A request; `url` is that of its context, and `rest` is the rest of the dictionary.
pub record Payload (X : Type 0) : Type 0 where
  pub worker : Option Text
  pub client : Option ℤ
  pub url : Option Text
  pub rest : X

pub record Formats (X : Type 0) : Type 0 where
  pub loads : Frame → Result Exception (Payload X)
  pub dumps : Payload X → Frame
  pub scheme : Option Text → Result Exception Text

-- The variables of `router`; the lists have the last element first. A thread stands as its identity.
pub record Router : Type 0 where
  pub workers_available : List Text
  pub client_worker_map : Dict Text Text
  pub worker_threads : List Text
  pub frontend_sent : List (List Frame)
  pub backend_sent : List (List Frame)

-- spawn_worker, for the uuid that it draws
unfoldable pub spawn_worker : Text → Router → Router
spawn_worker identity r = record r { worker_threads = identity ∷ r.worker_threads }

-- Before the loop.
unfoldable pub start : Text → Router
start identity = spawn_worker identity (record {
  workers_available = [];
  client_worker_map = [];
  worker_threads = [];
  frontend_sent = [];
  backend_sent = [];
})

-- The reply behind the identity and the delimiter.
unfoldable pub after_reply : Text → List Frame → Router → Result Exception Router
after_reply worker_id [] r = err index_error
after_reply worker_id (first ∷ reply) r =
    if first == lru_ready
    then ok (record r { workers_available = worker_id ∷ r.workers_available })
    else ok (record r { frontend_sent = (first ∷ reply) ∷ r.frontend_sent })

-- A message of the backend; an empty one is passed over.
unfoldable pub from_backend : List Frame → Router → Result Exception Router
from_backend [] r = ok r
from_backend (worker_id ∷ frames) r = after_reply worker_id (drop 1 frames) r

-- request_worker_id
unfoldable pub request_worker : Option Text → Option Text → Dict Text Text → Option Text
request_worker (some worker) client_key workers = some worker
request_worker none none workers = none
request_worker none (some key) workers = lookup key workers

unfoldable pub remember : Option Text → Text → Dict Text Text → Dict Text Text
remember none worker_id workers = workers
remember (some key) worker_id workers = insert key worker_id workers

-- A worker for a request that has none; `identity` is the uuid of the worker that may be spawned.
unfoldable pub take_worker :
    Text → Option Text → List Text → Router → Result Exception (Text × Router)
take_worker identity client_key [] r = err index_error
take_worker identity client_key (worker_id ∷ rest) r =
    let taken = record r {
      workers_available = rest;
      client_worker_map = remember client_key worker_id r.client_worker_map;
    } in
    ok (worker_id, elim rest [ [] ↦ spawn_worker identity taken | _ ∷ _ ↦ taken ])

unfoldable pub assign : Text → Option Text → Option Text → Router → Result Exception (Text × Router)
assign identity client_key (some worker_id) r = ok (worker_id, r)
assign identity client_key none r = take_worker identity client_key r.workers_available r

unfoldable pub send_backend : List Frame → Router → Router
send_backend frames r = record r { backend_sent = frames ∷ r.backend_sent }

-- msg[-1]
unfoldable pub last_frame : Frame → List Frame → Frame
last_frame frame [] = frame
last_frame frame (next ∷ frames) = last_frame next frames

module _ {X : Type 0} (formats : Formats X) where
  -- The key of the client in client_worker_map.
  unfoldable pub client_key : Payload X → Result Exception (Option Text)
  client_key payload = elim payload.client [
    | none ↦ ok none
    | some client ↦ do
      scheme ← formats.scheme payload.url
      ok (some (show client ++ (codes "::" ++ scheme)))
  ]

  -- The request for the worker that it is assigned to.
  unfoldable pub backend_request : Frame → Payload X → Text → List Frame
  backend_request request_id payload worker_id =
      worker_id
      ∷ splitter_frame
      ∷ request_id
      ∷ splitter_frame
      ∷ formats.dumps (record payload { worker = some worker_id })
      ∷ []

  unfoldable pub forward : Frame → Payload X → Text × Router → Router
  forward request_id payload (worker_id, r) =
      send_backend (backend_request request_id payload worker_id) r

  -- A message of the frontend.
  unfoldable pub from_frontend : Text → List Frame → Router → Result Exception Router
  from_frontend identity [] r = err index_error
  from_frontend identity (request_id ∷ frames) r = do
    payload ← formats.loads (last_frame request_id frames)
    key ← client_key payload
    assigned ← assign identity key (request_worker payload.worker key r.client_worker_map) r
    ok (forward request_id payload assigned)

-- What a socket gives in one round of the loop: nothing, `zmq.Again`, or a message.
pub data Socket : Type 0 where
  idle : Socket
  again : Socket
  received : List Frame → Socket

pub record Polled : Type 0 where
  pub backend : Socket
  pub frontend : Socket
  pub identity : Text

module _ {X : Type 0} (formats : Formats X) where
  unfoldable pub poll_frontend : Text → Socket → Router → Result Exception Router
  poll_frontend identity idle r = ok r
  poll_frontend identity again r = ok r
  poll_frontend identity (received message) r = from_frontend formats identity message r

  -- One round of the loop; `zmq.Again` and an empty message of the backend start the next one.
  unfoldable pub poll_backend : Text → Socket → Socket → Router → Result Exception Router
  poll_backend identity idle frontend r = poll_frontend identity frontend r
  poll_backend identity again frontend r = ok r
  poll_backend identity (received []) frontend r = ok r
  poll_backend identity (received (worker_id ∷ frames)) frontend r =
      from_backend (worker_id ∷ frames) r >>= λ r'. poll_frontend identity frontend r'

  unfoldable pub iteration : Polled → Router → Result Exception Router
  iteration p r = poll_backend p.identity p.backend p.frontend r

  -- The loop, for what the sockets give in each round of it.
  unfoldable pub rounds : List Polled → Router → Result Exception Router
  rounds [] r = ok r
  rounds (p ∷ ps) r = iteration p r >>= λ r'. rounds ps r'
