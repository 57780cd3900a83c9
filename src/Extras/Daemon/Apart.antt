-- ===== src/Extras/Daemon/Apart.antt =====
-- The workers that are free and those of clients are apart, and no two clients have the same.
use grizzly.Common.{
  ◌≡◌, refl, true, false, List, [], ◌∷◌, Option, none, some, arith, list_eq, nat_eq, contains,
}
use grizzly.Common.Dict.{Dict, lookup, insert, lookup-insert}
use grizzly.Common.Equality.{list_beq_iff}
use grizzly.Common.Text.{Text}
use grizzly.Extras.Daemon.{request_worker, remember}

-- No worker stands twice.
pub NoDup : List Text → Type 0
NoDup [] = Unit
NoDup (w ∷ ws) = (contains w ws ≡ false) × NoDup ws

-- The workers that are free, those of clients, and those that have said that they are ready.
pub record Apart (available : List Text) (workers : Dict Text Text) (ready : List Text)
    : Type 0 where
  pub own : (k j w : Text) → lookup k workers ≡ some w → lookup j workers ≡ some w → k ≡ j
  pub taken : (k w : Text) → lookup k workers ≡ some w → contains w available ≡ false
  pub distinct : NoDup available
  pub client_ready : (k w : Text) → lookup k workers ≡ some w → contains w ready ≡ true
  pub available_ready : (w : Text) → contains w available ≡ true → contains w ready ≡ true

pub Apart-start : Apart [] [] []
unfolding NoDup lookup contains
Apart-start = record {
  own = λ k j w hk hj. absurd (ground (arith, hk));
  taken = λ k w h. refl;
  distinct = tt;
  client_ready = λ k w h. absurd (ground (arith, h));
  available_ready = λ w h. absurd (ground (arith, h));
}

-- A worker that has not been ready before becomes available.
pub Apart-ready :
    (available : List Text) (workers : Dict Text Text) (ready : List Text) (worker : Text)
    → contains worker ready ≡ false
    → Apart available workers ready
    → Apart (worker ∷ available) workers (worker ∷ ready)
unfolding NoDup contains
Apart-ready available workers ready worker new apart = record {
  own = apart.own;
  taken = λ k w h.
      ground (arith, list_beq_iff worker w, apart.taken k w h, apart.client_ready k w h, new);
  distinct = (ground (arith, apart.available_ready worker, new), apart.distinct);
  client_ready = λ k w h. ground (arith, apart.client_ready k w h);
  available_ready = λ w h. ground (arith, apart.available_ready w, h);
}

-- A free worker is taken for a client that has none.
Apart-insert :
    (key worker : Text) (rest : List Text) (workers : Dict Text Text) (ready : List Text)
    → lookup key workers ≡ none
    → Apart (worker ∷ rest) workers ready
    → Apart rest (insert key worker workers) ready
unfolding NoDup contains
Apart-insert key worker rest workers ready unknown apart = record {
  own = λ k j w hk hj. ground (
    arith,
    list_beq_iff key k,
    list_beq_iff key j,
    lookup-insert key k worker workers,
    lookup-insert key j worker workers,
    apart.own k j w,
    apart.taken k w,
    apart.taken j w,
    list_beq_iff worker w,
    hk,
    hj,
  );
  taken = λ k w h. ground (
    arith,
    list_beq_iff key k,
    lookup-insert key k worker workers,
    apart.taken k w,
    list_beq_iff worker w,
    apart.distinct,
    h,
  );
  distinct = apart.distinct.1;
  client_ready = λ k w h. ground (
    arith,
    list_beq_iff key k,
    lookup-insert key k worker workers,
    apart.client_ready k w,
    apart.available_ready worker,
    list_beq_iff worker w,
    list_beq_iff worker worker,
    h,
  );
  available_ready = λ w h. ground (arith, apart.available_ready w, h);
}

-- A free worker is taken, for a client that has none or for a request without a client.
pub Apart-remember :
    (key : Option Text) (worker : Text) (rest : List Text) (workers : Dict Text Text)
    (ready : List Text)
    → request_worker none key workers ≡ none
    → Apart (worker ∷ rest) workers ready
    → Apart rest (remember key worker workers) ready
unfolding NoDup contains remember request_worker
Apart-remember none worker rest workers ready unknown apart = record {
  own = apart.own;
  taken = λ k w h. ground (arith, apart.taken k w h);
  distinct = apart.distinct.1;
  client_ready = apart.client_ready;
  available_ready = λ w h. ground (arith, apart.available_ready w, h);
}
Apart-remember (some key) worker rest workers ready unknown apart =
    Apart-insert key worker rest workers ready unknown apart
