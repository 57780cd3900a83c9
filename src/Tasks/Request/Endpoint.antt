-- ===== src/Tasks/Request/Endpoint.antt =====
-- A request whose endpoint has arguments.
use grizzly.Common.{
  ◌≡◌, ◌≢◌, ◌||◌, ℕ, refl, Bool, true, false, not, ◌&&◌, List, [], ◌∷◌, ◌++◌, Option, none, some,
  arith, list_eq, nat_eq, ok,
}
use grizzly.Arguments.{is_operator, unquote}
use grizzly.Arguments.Format.{
  format_arguments, ArePlain, assign_all, parse_arguments-format_arguments,
}
use grizzly.Arguments.Separator.{has_separator-append, split_value-append}
use grizzly.Common.Dict.{Dict, lookup, remove, has_key}
use grizzly.Common.Text.{Text, codes, strip}
use grizzly.Common.Text.Laws.{Lacks}
use grizzly.Extras.Transformers.{ContentType, from_string}
use grizzly.Tasks.Request.{
  new_response, raised_by, is_multipart, check_multipart, take_content_type, with_parts,
  read_endpoint, construct,
}

-- A multipart request needs two arguments.
unfoldable pub is_complete : ContentType → Dict Text Text → Bool
is_complete content_type arguments =
    not (is_multipart content_type)
    || (has_key (codes "multipart_form_data_name") arguments
        && has_key (codes "multipart_form_data_filename") arguments)

check_multipart-is_complete :
    (content_type : ContentType) (arguments : Dict Text Text)
    → is_complete content_type arguments ≡ true
    → check_multipart content_type arguments ≡ ok (arguments, content_type)
unfolding check_multipart is_complete
check_multipart-is_complete content_type arguments complete = ground (arith, complete)

take_content_type-some :
    (arguments : Dict Text Text) (value unquoted : Text) (content_type : ContentType)
    → unquote value ≡ ok unquoted
    → from_string unquoted ≡ ok content_type
    → is_complete content_type (remove (codes "content_type") arguments) ≡ true
    → take_content_type arguments (some value)
      ≡ ok (remove (codes "content_type") arguments, content_type)
unfolding take_content_type raised_by
take_content_type-some arguments value unquoted content_type unquotes reads complete =
    rw (take_content_type, unquotes)
      (rw reads (
        check_multipart-is_complete content_type (remove (codes "content_type") arguments)
          complete))

-- An endpoint of a value, a separator and plain arguments, one at least, of which the content type is
-- one that is known and where a multipart request has the two arguments that it needs: the request has
-- the value as its endpoint, that content type, which its response has too, and the other arguments.
pub construct-format_arguments :
    {N P : Type 0} (method : N) (name before behind : Text) (first : ℕ) (source : Option Text)
    (ps : List (Text × Text)) (value unquoted : Text) (content_type : ContentType)
    → Lacks b'|' before
    → Lacks b'|' (first ∷ behind)
    → is_operator first ≡ false
    → strip (first ∷ behind) ≡ format_arguments ps
    → ps ≢ []
    → ArePlain ps
    → lookup (codes "content_type") (assign_all [] ps) ≡ some value
    → unquote value ≡ ok unquoted
    → from_string unquoted ≡ ok content_type
    → is_complete content_type (remove (codes "content_type") (assign_all [] ps)) ≡ true
    → construct {P = P} method name (before ++ (b'|' ∷ first ∷ behind)) source
      ≡ ok (record {
        method = method;
        name = name;
        endpoint = strip before;
        template = none;
        source = source;
        arguments = some (remove (codes "content_type") (assign_all [] ps));
        metadata = [];
        response = record new_response { content_type = content_type };
        content_type = content_type;
      })
unfolding construct read_endpoint with_parts raised_by
construct-format_arguments method name before behind first source ps value unquoted content_type
      lacks lacks' no_operator formats some_arguments plain found unquotes reads complete =
    rw (has_separator-append before first behind lacks no_operator) (
      rw (split_value-append before (first ∷ behind) lacks lacks') (
        rw formats (
          rw (parse_arguments-format_arguments true ps some_arguments plain) (
            rw found (
              rw
                (take_content_type-some (assign_all [] ps) value unquoted content_type unquotes
                  reads complete)
                refl)))))
