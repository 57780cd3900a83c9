-- ===== src/Testdata/Keystore/Examples.antt =====
-- The theorems on the keystore at a concrete store.
use grizzly.Common.{◌≡◌, refl, [], ◌∷◌, List, some, ok, list_eq, nat_eq}
use grizzly.Common.Dict.{lookup, insert}
use grizzly.Common.Int.{pos, ◌+ℤ◌}
use grizzly.Common.Text.{codes}
use grizzly.Testdata.{text, integer, null}
use grizzly.Testdata.Keystore.{
  Store, Request, or_else, set_request, inc_request, handle_keystore, keystore_get, handle_set,
  handle_inc, increment,
}
use grizzly.Testdata.Keystore.Replay.{
  serve, replay, replay_own, replay_inc, is_for, keystore_get-serve,
}

abbrev greetings : Store
greetings = (codes "greeting", text (codes "hello")) ∷ []

-- A greeting, a counter that is set and and a greeting that is a word.
abbrev asked : List Request
asked =
    set_request (codes "counter") (integer (pos 4))
    ∷ set_request (codes "greeting") (text (codes "hi"))
    ∷ inc_request (codes "counter") (pos 2)
    ∷ []

abbrev left : Store
left = (codes "greeting", text (codes "hi")) ∷ (codes "counter", integer (pos 6)) ∷ []

served : serve asked greetings ≡ ok left
unfolding serve handle_keystore insert ◌+ℤ◌ handle_set handle_inc increment lookup
served = refl

counter_replayed :
    replay (codes "counter") asked (lookup (codes "counter") greetings) ≡ some (integer (pos 6))
unfolding replay replay_own replay_inc is_for lookup ◌+ℤ◌ increment
counter_replayed = refl

keystore_get-serve_example : keystore_get (codes "counter") left ≡ (
  ok (or_else null (replay (codes "counter") asked (lookup (codes "counter") greetings))),
  left,
)
keystore_get-serve_example = keystore_get-serve (codes "counter") asked greetings left served
