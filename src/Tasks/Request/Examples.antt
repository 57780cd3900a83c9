-- ===== src/Tasks/Request/Examples.antt =====
-- A request for JSON with one more argument.
use grizzly.Common.{
  ◌≡◌, ◌≢◌, refl, true, List, [], ◌∷◌, ◌++◌, none, some, list_eq, nat_eq, arith, ok,
}
use grizzly.Arguments.Plain.{IsPlain, is_plain, is_plain_char, is_plain-IsPlainChar}
use grizzly.Arguments.Format.{format_arguments, ArePlain, assign_all}
use grizzly.Common.Dict.{lookup, insert, remove}
use grizzly.Common.Text.{Text, codes, strip, lstrip, rstrip, is_space, last?}
use grizzly.Extras.Transformers.{json, from_string}
use grizzly.Arguments.{unquote}
use grizzly.Tasks.Request.{new_response, is_multipart, construct}
use grizzly.Tasks.Request.Endpoint.{is_complete, construct-format_arguments}

abbrev pairs : List (Text × Text)
pairs = (codes "content_type", codes "json") ∷ (codes "a", codes "b") ∷ []

abbrev arguments : Text
arguments = codes " content_type=json, a=b"

pairs-some : pairs ≢ []
pairs-some e = cc

written : strip arguments ≡ format_arguments pairs
unfolding strip lstrip rstrip format_arguments
written = refl

found : lookup (codes "content_type") (assign_all [] pairs) ≡ some (codes "json")
unfolding lookup assign_all insert
found = refl

plain_json : unquote (codes "json") ≡ ok (codes "json")
unfolding unquote last?
plain_json = refl

is_json : from_string (codes "json") ≡ ok json
unfolding from_string
is_json = refl

complete : is_complete json (remove (codes "content_type") (assign_all [] pairs)) ≡ true
unfolding is_complete is_multipart
complete = refl

IsPlain-content_type : IsPlain (codes "content_type")
unfolding is_plain is_plain_char is_space
IsPlain-content_type = ((λ e. cc), is_plain-IsPlainChar (codes "content_type") refl)

IsPlain-json : IsPlain (codes "json")
unfolding is_plain is_plain_char is_space
IsPlain-json = ((λ e. cc), is_plain-IsPlainChar (codes "json") refl)

IsPlain-a : IsPlain (codes "a")
unfolding is_plain is_plain_char is_space
IsPlain-a = ((λ e. cc), is_plain-IsPlainChar (codes "a") refl)

IsPlain-b : IsPlain (codes "b")
unfolding is_plain is_plain_char is_space
IsPlain-b = ((λ e. cc), is_plain-IsPlainChar (codes "b") refl)

pairs-ArePlain : ArePlain pairs
pairs-ArePlain = ((IsPlain-content_type, IsPlain-json), ((IsPlain-a, IsPlain-b), tt))

construct-format_arguments_example :
    construct {N = Unit} {P = Unit} tt (codes "n") (codes "/api |" ++ arguments) none
    ≡ ok (record {
      method = tt;
      name = codes "n";
      endpoint = strip (codes "/api ");
      template = none;
      source = none;
      arguments = some (remove (codes "content_type") (assign_all [] pairs));
      metadata = [];
      response = record new_response { content_type = json };
      content_type = json;
    })
construct-format_arguments_example =
    construct-format_arguments tt (codes "n") (codes "/api ") (codes "content_type=json, a=b") b' '
      none pairs (codes "json") (codes "json") json (omega arith) (omega arith) refl written
      pairs-some pairs-ArePlain found plain_json is_json complete
