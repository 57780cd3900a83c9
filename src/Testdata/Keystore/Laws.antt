-- ===== src/Testdata/Keystore/Laws.antt =====
-- What consumers read back from the keystore.
use grizzly.Common.{ℕ, zero, suc, ◌≡◌, ◌≢◌, none, some, arith, list_eq, nat_eq, ok, ap, refl, []}
use grizzly.Common.Dict.{lookup, insert, lookup-insert_self, lookup-insert_ne}
use grizzly.Common.Int.{ℤ, pos, ◌+ℤ◌}
use grizzly.Common.Text.{Text}
use grizzly.Testdata.{Value, integer, null}
use grizzly.Testdata.Keystore.{
  Request, Store, increment, handle_get, handle_set, handle_inc, handle_keystore, keystore_get,
  keystore_set, keystore_inc,
}
use grizzly.Variables.Incrementer.Sequence.{value_at, value_at-zero, value_at-suc}

-- A consumer that gets a key reads the value that was set last, and reading changes nothing.
pub keystore_get-set :
    (key : Text) (value : Value) (store : Store)
    → keystore_get key (keystore_set key value store) ≡ (ok value, keystore_set key value store)
unfolding keystore_get keystore_set handle_keystore handle_get handle_set
keystore_get-set key value store = rw (lookup-insert_self key value store)

-- An empty store has no value for a key.
pub keystore_get_missing : (key : Text) → keystore_get key [] ≡ (ok null, [])
unfolding keystore_get handle_keystore handle_get lookup
keystore_get_missing key = refl

-- Whatever a request with a key does, and whether it raises or not, every other key keeps its value.
handle_keystore_other :
    (request : Request) (key other : Text) (store : Store)
    → request.key ≡ some key
    → key ≢ other
    → lookup other (handle_keystore request store).1 ≡ lookup other store
unfolding handle_keystore handle_get handle_set handle_inc
handle_keystore_other request key other store has ne =
    grind (arith, λ (v : Value). lookup-insert_ne key other v store ne)

-- The store after `k` increments of the key by the step.
incremented : Text → ℤ → ℕ → Store → Store
incremented key step zero store = store
incremented key step (suc k) store = incremented key step k (keystore_inc key step store).1

keystore_inc_present :
    (key : Text) (step n : ℤ) (store : Store)
    → lookup key store ≡ some (integer n)
    → keystore_inc key step store
      ≡ (ok (integer (n +ℤ step)), insert key (integer (n +ℤ step)) store)
unfolding keystore_inc handle_keystore handle_inc increment
keystore_inc_present key step n store h = ground arith

keystore_inc_absent :
    (key : Text) (step : ℤ) (store : Store)
    → lookup key store ≡ none
    → keystore_inc key step store
      ≡ (ok (integer (pos 0 +ℤ step)), insert key (integer (pos 0 +ℤ step)) store)
unfolding keystore_inc handle_keystore handle_inc increment
keystore_inc_absent key step store h = ground arith

keystore_inc-incremented :
    (key : Text) (step n : ℤ) (k : ℕ) (store : Store)
    → lookup key store ≡ some (integer n)
    → (keystore_inc key step (incremented key step k store)).0
      ≡ ok (integer (value_at n step (suc k)))
unfolding incremented
keystore_inc-incremented key step n zero store h =
    rw (← value_at-suc n step 0, value_at-zero (n +ℤ step) step)
      (ap (λ r. r.0) (keystore_inc_present key step n store h))
keystore_inc-incremented key step n (suc k) store h =
    rw (← value_at-suc n step (suc k), keystore_inc_present key step n store h)
      (keystore_inc-incremented key step (n +ℤ step) k (insert key (integer (n +ℤ step)) store)
        (lookup-insert_self key (integer (n +ℤ step)) store))

-- From a store without the key, the increment that follows `k` others returns (k + 1) * step.
keystore_inc_counts :
    (key : Text) (step : ℤ) (k : ℕ) (store : Store)
    → lookup key store ≡ none
    → (keystore_inc key step (incremented key step k store)).0
      ≡ ok (integer (value_at (pos 0) step (suc k)))
unfolding incremented
keystore_inc_counts key step zero store h =
    rw (← value_at-suc (pos 0) step 0, value_at-zero (pos 0 +ℤ step) step)
      (ap (λ r. r.0) (keystore_inc_absent key step store h))
keystore_inc_counts key step (suc k) store h =
    rw (← value_at-suc (pos 0) step (suc k), keystore_inc_absent key step store h)
      (keystore_inc-incremented key step (pos 0 +ℤ step) k
        (insert key (integer (pos 0 +ℤ step)) store)
        (lookup-insert_self key (integer (pos 0 +ℤ step)) store))
