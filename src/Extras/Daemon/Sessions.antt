-- ===== src/Extras/Daemon/Sessions.antt =====
-- Every client keeps a worker of its own, however the messages of clients and workers interleave.
use grizzly.Common.{
  ◌≡◌, refl, ap, sym, List, [], ◌∷◌, ◌++◌, none, some, arith, list_eq, nat_eq, ◌==◌, Result, ok,
  ◌>>=◌, Ensures, Ensures-chain,
}
use grizzly.Common.Dict.{lookup}
use grizzly.Extras.Daemon.Moved.{
  Moved, Assigned, IsApart, AnnouncedOnce, AnnouncedOnce-append, all_announced, assign-Assigned,
  rounds-Moved,
}
use std.Path.{subst}
use grizzly.Common.Equality.{list_beq_iff}
use grizzly.Common.Text.{Text}
use grizzly.Exceptions.{Exception}
use grizzly.Extras.Daemon.Apart.{Apart-start}
use grizzly.Extras.Daemon.{
  Frame, Payload, Formats, Router, spawn_worker, request_worker, assign, send_backend, last_frame,
  client_key, backend_request, forward, from_frontend, Polled, rounds, start,
}

module _ {X : Type 0} (formats : Formats X) where
  -- A request of a client for a worker, and the worker that it is sent to.
  record Sent (payload : Payload X) (request_id : Frame) (key : Text) (r : Router)
      (ready : List Text) (r' : Router) : Type 0 where
    worker : Text
    client : lookup key r'.client_worker_map ≡ some worker
    message : r'.backend_sent ≡ backend_request formats request_id payload worker ∷ r.backend_sent
    moved : Moved r ready r'

  from_frontend-Sent :
      (identity : Text) (request_id : Frame) (frames : List Frame) (payload : Payload X)
      (key : Text) (r : Router) (ready : List Text)
      → formats.loads (last_frame request_id frames) ≡ ok payload
      → payload.worker ≡ none
      → client_key formats payload ≡ ok (some key)
      → IsApart r ready
      → Ensures
          (Sent payload request_id key r ready)
          (from_frontend formats identity (request_id ∷ frames) r)
  unfolding from_frontend forward send_backend
  from_frontend-Sent identity request_id frames payload key r ready loaded unassigned client apart =
      rw (from_frontend, loaded)
        (rw client (
          subst
            (λ worker. Ensures (Sent payload request_id key r ready) (
              assign identity (some key) (request_worker worker (some key) r.client_worker_map) r
              >>= λ a. ok (forward formats request_id payload a)))
            (sym unassigned)
            (Ensures-chain (λ a. Assigned (some key) r ready a.0 a.1)
              (Sent payload request_id key r ready)
              (assign identity (some key) (request_worker none (some key) r.client_worker_map) r) _
              (assign-Assigned identity (some key)
                (request_worker none (some key) r.client_worker_map) r ready refl apart)
              λ a h. record {
                worker = a.0;
                client = h.known key refl;
                message = ap (λ sent. backend_request formats request_id payload a.0 ∷ sent) h.sent;
                moved = record { apart = h.moved.apart; kept = h.moved.kept };
              })))

-- What holds of all results holds of the one that is returned.
returned :
    {A : Type 0} (P : A → Type 0) (result : Result Exception A) {a : A}
    → Ensures P result
    → result ≡ ok a
    → P a
returned P result h same = subst (Ensures P) same h

IsApart-start : (identity : Text) → IsApart (start identity) []
unfolding start spawn_worker
IsApart-start identity = Apart-start

module _ {X : Type 0} (formats : Formats X) where
  -- From the start on, two requests of clients that name no worker, with any rounds before and between
  -- them in which no worker says twice that it is ready: where both requests are read from their JSON,
  -- their clients have a key, and the rounds and the two requests are handled without an exception, each
  -- is sent to a worker, and to the same worker exactly where the two clients have the same key.
  pub from_frontend-session :
      (identity spawned spawned' : Text) (before between : List Polled)
      (request_id request_id' : Frame) (frames frames' : List Frame) (payload payload' : Payload X)
      (key key' : Text) (r₁ r₂ r₃ r₄ : Router)
      → AnnouncedOnce [] (before ++ between)
      → formats.loads (last_frame request_id frames) ≡ ok payload
      → payload.worker ≡ none
      → client_key formats payload ≡ ok (some key)
      → formats.loads (last_frame request_id' frames') ≡ ok payload'
      → payload'.worker ≡ none
      → client_key formats payload' ≡ ok (some key')
      → rounds formats before (start identity) ≡ ok r₁
      → from_frontend formats spawned (request_id ∷ frames) r₁ ≡ ok r₂
      → rounds formats between r₂ ≡ ok r₃
      → from_frontend formats spawned' (request_id' ∷ frames') r₃ ≡ ok r₄
      → (worker : Text) × (worker' : Text) × (r₂.backend_sent
          ≡ backend_request formats request_id payload worker ∷ r₁.backend_sent)
        × (r₄.backend_sent ≡ backend_request formats request_id' payload' worker' ∷ r₃.backend_sent)
        × ((worker == worker') ≡ (key == key'))
  from_frontend-session identity spawned spawned' before between request_id request_id' frames
        frames' payload payload' key key' r₁ r₂ r₃ r₄ once loaded unassigned client loaded'
        unassigned' client' to₁ to₂ to₃ to₄ =
      let split = AnnouncedOnce-append [] before between once in
      let first =
        returned (Moved (start identity) (all_announced [] before))
          (rounds formats before (start identity))
          (rounds-Moved formats before (start identity) [] split.0 (IsApart-start identity)) to₁ in
      let ready = all_announced [] before in
      let sent =
        returned (Sent formats payload request_id key r₁ ready) _
          (from_frontend-Sent formats spawned request_id frames payload key r₁ ready loaded
            unassigned client first.apart)
          to₂ in
      let ready' = all_announced ready between in
      let third =
        returned (Moved r₂ ready') _
          (rounds-Moved formats between r₂ ready split.1 sent.moved.apart) to₃ in
      let sent' =
        returned (Sent formats payload' request_id' key' r₃ ready') _
          (from_frontend-Sent formats spawned' request_id' frames' payload' key' r₃ ready' loaded'
            unassigned' client' third.apart)
          to₄ in
      let kept = sent'.moved.kept key sent.worker (third.kept key sent.worker sent.client) in
      (
        sent.worker,
        sent'.worker,
        sent.message,
        sent'.message,
        ground (
          arith,
          list_beq_iff sent.worker sent'.worker,
          list_beq_iff key key',
          sent'.moved.apart.own key key' sent.worker,
          sent'.client,
          kept,
        ),
      )
