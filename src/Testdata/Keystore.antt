-- ===== src/Testdata/Keystore.antt =====
-- `TestdataProducer._handle_request_keystore` of grizzly/testdata/communication.py, and the requests
-- that `TestdataConsumer.keystore_get`, `keystore_set` and `keystore_inc` make of it. The reply is the
-- request with its `data` changed. Of `str.isnumeric` this has the ASCII digits.
pub mod Laws
pub mod Replay
mod Examples
use grizzly.Common.{
  ℕ, Bool, true, false, ◌&&◌, List, [], ◌∷◌, Option, none, some, if◌then◌else◌, leb, list_eq,
  nat_eq, Result, ok, err,
}
use grizzly.Common.Dict.{Dict, lookup, insert}
use grizzly.Common.Int.{ℤ, pos, negsuc, ◌+ℤ◌}
use grizzly.Common.Text.{Text}
use grizzly.Common.Decimal.{read_int}
use grizzly.Exceptions.{Exception, key_error, type_error, value_error}
use grizzly.Testdata.{Value, null, boolean, integer, text, row}

pub data Action : Type 0 where
  get set inc unknown : Action

-- `none` where the dictionary of the request has no such key. The consumer sends no key that is None.
pub record Request : Type 0 where
  pub action : Action
  pub key : Option Text
  pub data_value : Option Value

abbrev pub Store : Type 0
Store = Dict Text Value

abbrev all_digits : Text → Bool
all_digits [] = true
all_digits (c ∷ t) = leb 48 c && leb c 57 && all_digits t

is_numeric : Text → Bool
is_numeric [] = false
is_numeric (c ∷ t) = all_digits (c ∷ t)

-- A `bool` is an `int`.
abbrev int_of : Value → Option ℤ
int_of (integer n) = some n
int_of (boolean true) = some (pos 1)
int_of (boolean false) = some (pos 0)
int_of _ = none

-- `value + step`
abbrev add_step : ℤ → Value → Result Exception ℤ
add_step n step = elim (int_of step) [ none ↦ err type_error | some k ↦ ok (n +ℤ k) ]

-- What `inc` makes of a stored value; `ok none` where it cannot be incremented.
pub increment : Value → Value → Result Exception (Option ℤ)
increment value step = elim (int_of value) [
  | some n ↦ elim (add_step n step) [ ok m ↦ ok (some m) | err e ↦ err e ]
  | none ↦ elim value [
    | text t ↦
        if is_numeric t
        then elim (read_int t) [
          | none ↦ err value_error
          | some n ↦ elim (add_step n step) [ ok m ↦ ok (some m) | err e ↦ err e ]
        ]
        else ok none
    | _ ↦ ok none
  ]
]

abbrev pub or_else : Value → Option Value → Value
or_else d none = d
or_else d (some v) = v

handle_get : Request → Store → Result Exception Request × Store
handle_get request store = elim request.key [
  | none ↦ (err key_error, store)
  | some key ↦ (ok (record request { data_value = some (or_else null (lookup key store)) }), store)
]

handle_set : Request → Store → Result Exception Request × Store
handle_set request store = elim request.key [
  | none ↦ (ok request, store)
  | some key ↦ (ok request, insert key (or_else null request.data_value) store)
]

handle_inc : Request → Store → Result Exception Request × Store
handle_inc request store =
    let cleared = record request { data_value = some null } in
    elim request.key [
      | none ↦ (ok cleared, store)
      | some key ↦
          elim (increment (or_else (integer (pos 0)) (lookup key store))
            (or_else (integer (pos 1)) request.data_value)) [
              | err e ↦ (err e, store)
              | ok none ↦ (ok cleared, store)
              | ok (some n) ↦ (
                ok (record request { data_value = some (integer n) }),
                insert key (integer n) store,
              )
            ]
    ]

pub handle_keystore : Request → Store → Result Exception Request × Store
handle_keystore request store = elim request.action [
  | get ↦ handle_get request store
  | set ↦ handle_set request store
  | inc ↦ handle_inc request store
  | unknown ↦ (ok (record request { data_value = some null }), store)
]

abbrev pub get_request : Text → Request
get_request key = record { action = get; key = some key; data_value = none }

abbrev pub set_request : Text → Value → Request
set_request key value = record { action = set; key = some key; data_value = some value }

abbrev pub inc_request : Text → ℤ → Request
inc_request key step = record { action = inc; key = some key; data_value = some (integer step) }

-- `(response or {}).get('data', None)`
abbrev reply_data : Result Exception Request → Result Exception Value
reply_data (ok reply) = ok (or_else null reply.data_value)
reply_data (err e) = err e

-- TestdataConsumer.keystore_get, keystore_set
pub keystore_get : Text → Store → Result Exception Value × Store
keystore_get key store =
    let (reply, store') = handle_keystore (get_request key) store in (reply_data reply, store')

pub keystore_set : Text → Value → Store → Store
keystore_set key value store = (handle_keystore (set_request key value) store).1

-- TestdataConsumer.keystore_inc, whose reply holds an integer or None
pub keystore_inc : Text → ℤ → Store → Result Exception Value × Store
keystore_inc key step store =
    let (reply, store') = handle_keystore (inc_request key step) store in (reply_data reply, store')
