-- ===== src/Testdata/Keystore/Replay.antt =====
-- The keystore as its clients see it: what a key holds is what the requests for that key alone made of
-- it, in their order, whatever was asked of other keys in between.
use grizzly.Common.{
  ◌≡◌, Bool, false, List, [], ◌∷◌, Option, none, some, arith, list_eq, nat_eq, if◌then◌else◌, ◌==◌,
  Result, ok, err, ◌>>=◌, >>=-eq-ok, ◌∙◌, refl, ap,
}
use grizzly.Common.Dict.{lookup, lookup-insert}
use grizzly.Common.Equality.{list_beq_iff}
use grizzly.Common.Int.{pos}
use grizzly.Common.Text.{Text}
use grizzly.Exceptions.{Exception}
use grizzly.Testdata.{Value, null, integer}
use grizzly.Testdata.Keystore.{
  Action, get, set, inc, unknown, Request, Store, or_else, increment, handle_get, handle_set,
  handle_inc, handle_keystore, keystore_get,
}

-- The loop of the producer over requests for the keystore, which ends with the first exception.
unfoldable pub serve : List Request → Store → Result Exception Store
serve [] store = ok store
serve (request ∷ requests) store =
    let (reply, store') = handle_keystore request store in reply >>= λ _. serve requests store'

-- What a key holds after a request for it, by what it held before.
unfoldable pub replay_inc : Value → Option Value → Option Value
replay_inc step held = elim (increment (or_else (integer (pos 0)) held) step) [
  | err e ↦ held
  | ok none ↦ held
  | ok (some n) ↦ some (integer n)
]

unfoldable pub replay_own : Request → Option Value → Option Value
replay_own request held = elim request.action [
  | set ↦ some (or_else null request.data_value)
  | inc ↦ replay_inc (or_else (integer (pos 1)) request.data_value) held
  | _ ↦ held
]

unfoldable pub is_for : Text → Option Text → Bool
is_for key none = false
is_for key (some other) = other == key

-- The requests for other keys are passed over.
unfoldable pub replay : Text → List Request → Option Value → Option Value
replay key [] held = held
replay key (request ∷ requests) held =
    replay key requests (if is_for key request.key then replay_own request held else held)

lookup-handle_keystore :
    (key : Text) (action : Action) (target : Option Text) (argument : Option Value) (store : Store)
    → lookup key
        (handle_keystore (record { action = action; key = target; data_value = argument }) store).1
      ≡ (if is_for key target
          then replay_own
              (record { action = action; key = target; data_value = argument })
              (lookup key store)
          else lookup key store)
unfolding handle_keystore handle_get handle_set handle_inc replay_own replay_inc is_for
lookup-handle_keystore key get none argument store = refl
lookup-handle_keystore key get (some target) argument store = ground arith
lookup-handle_keystore key set none argument store = refl
lookup-handle_keystore key set (some target) argument store =
    lookup-insert target key (or_else null argument) store
lookup-handle_keystore key inc none argument store = refl
lookup-handle_keystore key inc (some target) argument store =
    grind (arith, list_beq_iff target key, λ (v : Value). lookup-insert target key v store)
lookup-handle_keystore key unknown none argument store = refl
lookup-handle_keystore key unknown (some target) argument store = ground arith

lookup-serve :
    (key : Text) (requests : List Request) (store store' : Store)
    → serve requests store ≡ ok store'
    → lookup key store' ≡ replay key requests (lookup key store)
unfolding serve replay
lookup-serve key [] store store' h = ground (arith, h)
lookup-serve key (request ∷ requests) store store' h =
    let (reply, replied, rest) =
      >>=-eq-ok (handle_keystore request store).0
        (λ _. serve requests (handle_keystore request store).1) h in
    lookup-serve key requests (handle_keystore request store).1 store' rest
    ∙ ap (replay key requests)
        (lookup-handle_keystore key request.action request.key request.data_value store)

-- Where a sequence of requests is served without an exception, a get of a key after it replies what
-- the requests for that key alone, replayed on what the key held before, leave; it changes nothing.
pub keystore_get-serve :
    (key : Text) (requests : List Request) (store store' : Store)
    → serve requests store ≡ ok store'
    → keystore_get key store' ≡ (ok (or_else null (replay key requests (lookup key store))), store')
unfolding keystore_get handle_keystore handle_get
keystore_get-serve key requests store store' h =
    ap (λ held. (ok (or_else null held), store')) (lookup-serve key requests store store' h)
