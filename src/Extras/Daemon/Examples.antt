-- ===== src/Extras/Daemon/Examples.antt =====
-- Two clients of a daemon with two workers, and a daemon whose only free worker both clients want. The
-- JSON of a request is its client and its worker.
use grizzly.Common.{
  ℕ, suc, ◌≡◌, refl, false, List, [], ◌∷◌, ◌++◌, Option, none, some, list_eq, nat_eq, ◌==◌,
  contains, Result, ok, err,
}
use grizzly.Common.Dict.{lookup, insert}
use grizzly.Common.Decimal.{show, show_ℕ, digits_of}
use grizzly.Common.Int.{ℤ, pos, negsuc}
use grizzly.Common.Text.{Text, codes}
use grizzly.Exceptions.{Exception, index_error, value_error}
use grizzly.Extras.Daemon.Answers.{Sockets, on_message-from_backend, from_frontend-starved}
use grizzly.Extras.Daemon.Moved.{AnnouncedOnce, announced, announced_by, with_announced}
use grizzly.Extras.Daemon.Sessions.{from_frontend-session}
use grizzly.Extras.Daemon.Worker.{refused, handled, Integrations, on_message}
use grizzly.Extras.Daemon.{
  Frame, lru_ready, splitter_frame, Payload, Formats, Router, start, spawn_worker, after_reply,
  from_backend, request_worker, remember, take_worker, assign, send_backend, last_frame, client_key,
  backend_request, forward, from_frontend, idle, received, Polled, poll_frontend, poll_backend,
  iteration, rounds,
}

abbrev payload_of : ℕ → Option Text → Payload Text
payload_of client worker = record {
  worker = worker;
  client = some (pos client);
  url = some (codes "mq://h");
  rest = [];
}

abbrev load : Frame → Result Exception (Payload Text)
load [] = err value_error
load (client ∷ []) = ok (payload_of client none)
load (client ∷ w ∷ ws) = ok (payload_of client (some (w ∷ ws)))

abbrev client_of : Option ℤ → ℕ
client_of none = 0
client_of (some (pos n)) = n
client_of (some (negsuc n)) = 0

abbrev dump_worker : Option Text → Frame
dump_worker none = []
dump_worker (some worker) = worker

abbrev formats : Formats Text
formats = record {
  loads = load;
  dumps = λ p. client_of p.client ∷ dump_worker p.worker;
  scheme = λ url. ok (codes "mq");
}

abbrev ready_message : Text → Polled
ready_message worker = record {
  backend = received (worker ∷ [] ∷ lru_ready ∷ []);
  frontend = idle;
  identity = [];
}

abbrev request_of : ℕ → List Frame
request_of client = [] ∷ (client ∷ []) ∷ []

abbrev key_of : ℕ → Text
key_of client = show (pos client) ++ (codes "::" ++ codes "mq")

abbrev sent_to : Text → ℕ → Text → List Frame
sent_to request_id client worker = worker ∷ [] ∷ request_id ∷ [] ∷ (client ∷ worker) ∷ []

-- The routers with the first worker, after the first client, with the second worker, and after the
-- second client.
abbrev router_first : Router
router_first = record {
  workers_available = codes "a" ∷ [];
  client_worker_map = [];
  worker_threads = codes "a" ∷ [];
  frontend_sent = [];
  backend_sent = [];
}

abbrev router_second : Router
router_second = record {
  workers_available = [];
  client_worker_map = (key_of 1, codes "a") ∷ [];
  worker_threads = codes "b" ∷ codes "a" ∷ [];
  frontend_sent = [];
  backend_sent = sent_to (codes "x") 1 (codes "a") ∷ [];
}

abbrev router_third : Router
router_third = record router_second { workers_available = codes "b" ∷ [] }

abbrev router_fourth : Router
router_fourth = record {
  workers_available = [];
  client_worker_map = (key_of 1, codes "a") ∷ (key_of 2, codes "b") ∷ [];
  worker_threads = codes "c" ∷ codes "b" ∷ codes "a" ∷ [];
  frontend_sent = [];
  backend_sent = sent_to (codes "y") 2 (codes "b") ∷ sent_to (codes "x") 1 (codes "a") ∷ [];
}

to_first : rounds formats (ready_message (codes "a") ∷ []) (start (codes "a")) ≡ ok router_first
unfolding rounds iteration poll_backend poll_frontend from_backend after_reply start spawn_worker
to_first = refl

to_second :
    from_frontend formats (codes "b") (codes "x" ∷ request_of 1) router_first ≡ ok router_second
unfolding from_frontend last_frame client_key assign take_worker request_worker remember forward
    backend_request send_backend spawn_worker lookup insert show show_ℕ digits_of
to_second = refl

to_third : rounds formats (ready_message (codes "b") ∷ []) router_second ≡ ok router_third
unfolding rounds iteration poll_backend poll_frontend from_backend after_reply
to_third = refl

to_fourth :
    from_frontend formats (codes "c") (codes "y" ∷ request_of 2) router_third ≡ ok router_fourth
unfolding from_frontend last_frame client_key assign take_worker request_worker remember forward
    backend_request send_backend spawn_worker lookup insert show show_ℕ digits_of
to_fourth = refl

client_key_lem : (n : ℕ) → client_key formats (payload_of n none) ≡ ok (some (key_of n))
unfolding client_key
client_key_lem n = refl

announced_once : AnnouncedOnce [] (ready_message (codes "a") ∷ ready_message (codes "b") ∷ [])
unfolding AnnouncedOnce announced announced_by with_announced contains
announced_once = (refl, (refl, tt))

loaded :
    (client : ℕ) (request_id : Frame)
    → formats.loads (last_frame request_id (request_of client)) ≡ ok (payload_of client none)
unfolding last_frame
loaded client request_id = refl

from_frontend-session_example :
    (worker : Text) × (worker' : Text) × (router_second.backend_sent
      ≡ backend_request formats (codes "x") (payload_of 1 none) worker ∷ router_first.backend_sent)
    × (router_fourth.backend_sent
        ≡ backend_request formats (codes "y") (payload_of 2 none) worker'
          ∷ router_third.backend_sent)
    × ((worker == worker') ≡ (key_of 1 == key_of 2))
from_frontend-session_example =
    from_frontend-session formats (codes "a") (codes "b") (codes "c")
      (ready_message (codes "a") ∷ []) (ready_message (codes "b") ∷ []) (codes "x") (codes "y")
      (request_of 1) (request_of 2) (payload_of 1 none) (payload_of 2 none) (key_of 1) (key_of 2)
      router_first router_second router_third router_fourth announced_once (loaded 1 (codes "x"))
      refl (client_key_lem 1) (loaded 2 (codes "y")) refl (client_key_lem 2) to_first to_second
      to_third to_fourth

no_second : lookup (key_of 2) router_first.client_worker_map ≡ none
unfolding lookup
no_second = refl

no_first : lookup (key_of 1) router_first.client_worker_map ≡ none
unfolding lookup
no_first = refl

other_key : (key_of 1 == key_of 2) ≡ false
unfolding show show_ℕ digits_of
other_key = refl

from_frontend-starved_example :
    (r' : Router) × (from_frontend formats (codes "b") (codes "x" ∷ request_of 1) router_first
      ≡ ok r')
    × (from_frontend formats (codes "c") (codes "y" ∷ request_of 2) r' ≡ err index_error)
from_frontend-starved_example =
    from_frontend-starved formats (codes "b") (codes "c") (codes "a") (codes "x") (codes "y")
      (request_of 1) (request_of 2) (payload_of 1 none) (payload_of 2 none) (key_of 1) (key_of 2)
      router_first (loaded 1 (codes "x")) refl (client_key_lem 1) (loaded 2 (codes "y")) refl
      (client_key_lem 2) refl no_first no_second other_key

-- An integration that counts the requests.
abbrev counting : Integrations Text ℕ ℕ
counting = record {
  queue_handler = λ identity. ok 0;
  service_bus_handler = λ identity. ok 0;
  handle = λ n request. (n, suc n);
  dumps_answer = λ answer. elim answer [ refused refusal ↦ [] | handled n ↦ n ∷ [] ];
}

abbrev delivered : List Frame → Option (Text × List Frame)
delivered [] = none
delivered (identity ∷ []) = none
delivered (identity ∷ delimiter ∷ frames) = some (identity, frames)

abbrev zmq : Sockets
zmq = record { to_worker = delivered; from_worker = λ identity frames. identity ∷ [] ∷ frames }

on_message-from_backend_example :
    (frames : List Frame) × (reply : List Frame) × (zmq.to_worker
        (backend_request formats (codes "x") (payload_of 1 none) (codes "a"))
      ≡ some (codes "a", frames))
    × (on_message formats counting (codes "a") frames (some 4) ≡ ok (some reply, some 5))
    × (from_backend (zmq.from_worker (codes "a") reply) router_third
        ≡ ok (record router_third {
          frontend_sent = (codes "x" ∷ splitter_frame ∷ (4 ∷ []) ∷ []) ∷ [];
        }))
on_message-from_backend_example =
    on_message-from_backend formats counting zmq (codes "x") (payload_of 1 none) (codes "a") 4
      router_third (λ identity frames. refl) (λ identity frames. refl) refl refl
