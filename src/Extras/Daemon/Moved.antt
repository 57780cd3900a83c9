-- ===== src/Extras/Daemon/Moved.antt =====
-- What a round of the router, and each part of it, leaves: workers apart, and clients with their workers.
use grizzly.Common.{
  ◌++◌, ◌≡◌, refl, true, false, List, [], ◌∷◌, Option, none, some, arith, if◌then◌else◌, list_eq,
  nat_eq, ◌==◌, contains, drop, ok, Ensures, Ensures-weaken, Ensures-chain, Ensures-always,
}
use grizzly.Common.Dict.{Dict, lookup, lookup-insert}
use grizzly.Common.Equality.{list_beq_iff}
use grizzly.Common.Text.{Text}
use grizzly.Exceptions.{Exception}
use grizzly.Extras.Daemon.Apart.{Apart, Apart-ready, Apart-remember}
use grizzly.Extras.Daemon.{
  Frame, lru_ready, Formats, Router, spawn_worker, after_reply, from_backend, request_worker,
  remember, take_worker, assign, send_backend, last_frame, client_key, forward, from_frontend,
  Socket, idle, again, received, Polled, poll_frontend, poll_backend, iteration, rounds,
}

-- The router after a round or a part of it: still apart, and no client has lost its worker.
pub record Moved (r : Router) (ready : List Text) (r' : Router) : Type 0 where
  pub apart : Apart r'.workers_available r'.client_worker_map ready
  pub kept :
      (k w : Text) → lookup k r.client_worker_map ≡ some w → lookup k r'.client_worker_map ≡ some w

-- An assignment for a request without a worker: its client, if it has one, has the worker now.
pub record Assigned (key : Option Text) (r : Router) (ready : List Text) (worker : Text)
    (r' : Router) : Type 0 where
  pub moved : Moved r ready r'
  pub sent : r'.backend_sent ≡ r.backend_sent
  pub known : (k : Text) → key ≡ some k → lookup k r'.client_worker_map ≡ some worker

lookup-remember :
    (key : Option Text) (worker k w : Text) (workers : Dict Text Text)
    → request_worker none key workers ≡ none
    → lookup k workers ≡ some w
    → lookup k (remember key worker workers) ≡ some w
unfolding remember request_worker
lookup-remember none worker k w workers unknown h = h
lookup-remember (some key) worker k w workers unknown h =
    ground (arith, lookup-insert key k worker workers, list_beq_iff key k, unknown, h)

lookup-remember_self :
    (key : Option Text) (worker k : Text) (workers : Dict Text Text)
    → key ≡ some k
    → lookup k (remember key worker workers) ≡ some worker
unfolding remember
lookup-remember_self none worker k workers h = absurd (ground (arith, h))
lookup-remember_self (some key) worker k workers h =
    ground (arith, lookup-insert key k worker workers, list_beq_iff key k, h)

take_worker-Assigned :
    (identity : Text) (key : Option Text) (available : List Text) (r : Router) (ready : List Text)
    → request_worker none key r.client_worker_map ≡ none
    → Apart available r.client_worker_map ready
    → Ensures (λ a. Assigned key r ready a.0 a.1) (take_worker identity key available r)
unfolding take_worker spawn_worker
take_worker-Assigned identity key [] r ready unknown apart = tt
take_worker-Assigned identity key (w ∷ []) r ready unknown apart = record {
  moved = record {
    apart = Apart-remember key w [] r.client_worker_map ready unknown apart;
    kept = λ k v h. lookup-remember key w k v r.client_worker_map unknown h;
  };
  sent = refl;
  known = λ k h. lookup-remember_self key w k r.client_worker_map h;
}
take_worker-Assigned identity key (w ∷ v ∷ rest) r ready unknown apart = record {
  moved = record {
    apart = Apart-remember key w (v ∷ rest) r.client_worker_map ready unknown apart;
    kept = λ k u h. lookup-remember key w k u r.client_worker_map unknown h;
  };
  sent = refl;
  known = λ k h. lookup-remember_self key w k r.client_worker_map h;
}

-- The worker that a message of the backend announces.
unfoldable pub announced_by : Text → List Frame → Option Text
announced_by worker_id [] = none
announced_by worker_id (first ∷ reply) = if first == lru_ready then some worker_id else none

unfoldable pub announced : Socket → Option Text
announced idle = none
announced again = none
announced (received []) = none
announced (received (worker_id ∷ frames)) = announced_by worker_id (drop 1 frames)

unfoldable pub with_announced : Option Text → List Text → List Text
with_announced none ready = ready
with_announced (some worker) ready = worker ∷ ready

abbrev pub IsNew : Option Text → List Text → Type 0
IsNew none ready = Unit
IsNew (some worker) ready = contains worker ready ≡ false

-- No worker says twice that it is ready, nor one that has said so before.
unfoldable pub AnnouncedOnce : List Text → List Polled → Type 0
unfolding announced with_announced
AnnouncedOnce ready [] = Unit
AnnouncedOnce ready (p ∷ ps) =
    IsNew (announced p.backend) ready
    × AnnouncedOnce (with_announced (announced p.backend) ready) ps

-- The workers that have said that they are ready.
unfoldable pub all_announced : List Text → List Polled → List Text
all_announced ready [] = ready
all_announced ready (p ∷ ps) = all_announced (with_announced (announced p.backend) ready) ps

pub AnnouncedOnce-append :
    (ready : List Text) (ps qs : List Polled)
    → AnnouncedOnce ready (ps ++ qs)
    → AnnouncedOnce ready ps × AnnouncedOnce (all_announced ready ps) qs
unfolding AnnouncedOnce all_announced
AnnouncedOnce-append ready [] qs once = (tt, once)
AnnouncedOnce-append ready (p ∷ ps) qs once =
    let rest = AnnouncedOnce-append (with_announced (announced p.backend) ready) ps qs once.1 in
    ((once.0, rest.0), rest.1)

-- A router, by its lists.
abbrev pub IsApart : Router → List Text → Type 0
IsApart r ready = Apart r.workers_available r.client_worker_map ready

pub unmoved : (r : Router) (ready : List Text) → IsApart r ready → Moved r ready r
unmoved r ready apart = record { apart = apart; kept = λ k w h. h }

pub Moved-trans :
    (r r' r'' : Router) (ready ready' : List Text)
    → Moved r ready r'
    → Moved r' ready' r''
    → Moved r ready' r''
Moved-trans r r' r'' ready ready' first second = record {
  apart = second.apart;
  kept = λ k w h. second.kept k w (first.kept k w h);
}

after_reply-Moved :
    (worker_id : Text) (reply : List Frame) (r : Router) (ready : List Text)
    → IsNew (announced_by worker_id reply) ready
    → IsApart r ready
    → Ensures
        (Moved r (with_announced (announced_by worker_id reply) ready))
        (after_reply worker_id reply r)
unfolding after_reply announced_by with_announced
after_reply-Moved worker_id [] r ready new apart = tt
after_reply-Moved worker_id (first ∷ reply) r ready new apart =
    (elim (first == lru_ready)
        as (λ b.
          IsNew (if b then some worker_id else none) ready
          → Ensures {E = Exception}
              (Moved r (with_announced (if b then some worker_id else none) ready))
              (if b
                then ok (record r { workers_available = worker_id ∷ r.workers_available })
                else ok (record r { frontend_sent = (first ∷ reply) ∷ r.frontend_sent }))) [
                  | true ↦ λ new. record {
                    apart =
                        Apart-ready r.workers_available r.client_worker_map ready worker_id new
                          apart;
                    kept = λ k w h. h;
                  }
                  | false ↦ λ new. record { apart = apart; kept = λ k w h. h }
                ])
      new

request_worker-known :
    (key : Option Text) (workers : Dict Text Text) (k w : Text)
    → request_worker none key workers ≡ some w
    → key ≡ some k
    → lookup k workers ≡ some w
unfolding request_worker
request_worker-known none workers k w h same = absurd (ground (arith, same))
request_worker-known (some key) workers k w h same = ground (arith, h, same)

pub assign-Assigned :
    (identity : Text) (key found : Option Text) (r : Router) (ready : List Text)
    → request_worker none key r.client_worker_map ≡ found
    → IsApart r ready
    → Ensures (λ a. Assigned key r ready a.0 a.1) (assign identity key found r)
unfolding assign
assign-Assigned identity key none r ready unknown apart =
    take_worker-Assigned identity key r.workers_available r ready unknown apart
assign-Assigned identity key (some w) r ready known apart = record {
  moved = unmoved r ready apart;
  sent = refl;
  known = λ k h. request_worker-known key r.client_worker_map k w known h;
}

-- An assignment for a request that names its worker changes nothing.
assign-Moved :
    (identity : Text) (worker key : Option Text) (r : Router) (ready : List Text)
    → IsApart r ready
    → Ensures
        (λ a. Moved r ready a.1)
        (assign identity key (request_worker worker key r.client_worker_map) r)
unfolding assign request_worker
assign-Moved identity (some w) key r ready apart = unmoved r ready apart
assign-Moved identity none key r ready apart =
    Ensures-weaken (λ a. Assigned key r ready a.0 a.1) (λ a. Moved r ready a.1) (λ a h. h.moved)
      (assign identity key (request_worker none key r.client_worker_map) r)
      (assign-Assigned identity key (request_worker none key r.client_worker_map) r ready refl
        apart)

module _ {X : Type 0} (formats : Formats X) (identity : Text) where
  from_frontend-Moved :
      (message : List Frame) (r : Router) (ready : List Text)
      → IsApart r ready
      → Ensures (Moved r ready) (from_frontend formats identity message r)
  unfolding from_frontend forward send_backend
  from_frontend-Moved [] r ready apart = tt
  from_frontend-Moved (request_id ∷ frames) r ready apart =
      Ensures-chain (λ _. Unit) (Moved r ready) (formats.loads (last_frame request_id frames)) _
        (Ensures-always (formats.loads (last_frame request_id frames)))
        λ payload _.
          Ensures-chain (λ _. Unit) (Moved r ready) (client_key formats payload) _
            (Ensures-always (client_key formats payload))
            λ key _.
              Ensures-chain (λ a. Moved r ready a.1) (Moved r ready)
                (assign identity key (request_worker payload.worker key r.client_worker_map) r) _
                (assign-Moved identity payload.worker key r ready apart)
                λ a h. record { apart = h.apart; kept = h.kept }

  poll_frontend-Moved :
      (frontend : Socket) (r : Router) (ready : List Text)
      → IsApart r ready
      → Ensures (Moved r ready) (poll_frontend formats identity frontend r)
  unfolding poll_frontend
  poll_frontend-Moved idle r ready apart = unmoved r ready apart
  poll_frontend-Moved again r ready apart = unmoved r ready apart
  poll_frontend-Moved (received message) r ready apart = from_frontend-Moved message r ready apart

  poll_backend-Moved :
      (backend frontend : Socket) (r : Router) (ready : List Text)
      → IsNew (announced backend) ready
      → IsApart r ready
      → Ensures
          (Moved r (with_announced (announced backend) ready))
          (poll_backend formats identity backend frontend r)
  unfolding poll_backend announced with_announced from_backend
  poll_backend-Moved idle frontend r ready new apart = poll_frontend-Moved frontend r ready apart
  poll_backend-Moved again frontend r ready new apart = unmoved r ready apart
  poll_backend-Moved (received []) frontend r ready new apart = unmoved r ready apart
  poll_backend-Moved (received (worker_id ∷ frames)) frontend r ready new apart =
      let ready' = with_announced (announced_by worker_id (drop 1 frames)) ready in
      Ensures-chain (Moved r ready') (Moved r ready') (after_reply worker_id (drop 1 frames) r) _
        (after_reply-Moved worker_id (drop 1 frames) r ready new apart)
        λ r' moved.
          Ensures-weaken (Moved r' ready') (Moved r ready')
            (λ r'' moved'. Moved-trans r r' r'' ready' ready' moved moved')
            (poll_frontend formats identity frontend r')
            (poll_frontend-Moved frontend r' ready' moved.apart)

module _ {X : Type 0} (formats : Formats X) where
  pub rounds-Moved :
      (ps : List Polled) (r : Router) (ready : List Text)
      → AnnouncedOnce ready ps
      → IsApart r ready
      → Ensures (Moved r (all_announced ready ps)) (rounds formats ps r)
  unfolding AnnouncedOnce all_announced rounds iteration
  rounds-Moved [] r ready once apart = unmoved r ready apart
  rounds-Moved (p ∷ ps) r ready once apart =
      let ready' = with_announced (announced p.backend) ready in
      Ensures-chain (Moved r ready') (Moved r (all_announced ready' ps)) (iteration formats p r) _
        (poll_backend-Moved formats p.identity p.backend p.frontend r ready once.0 apart)
        λ r' moved.
          Ensures-weaken (Moved r' (all_announced ready' ps)) (Moved r (all_announced ready' ps))
            (λ r'' moved'. Moved-trans r r' r'' ready' (all_announced ready' ps) moved moved')
            (rounds formats ps r') (rounds-Moved ps r' ready' once.1 moved.apart)
