-- ===== src/Tasks/Request.antt =====
-- grizzly/tasks/request.py: a request with its status codes, the arguments of its endpoint, and its
-- source with the template that is made of it. A template has type P, and `template_of` is jinja2's.
pub mod Endpoint
mod Examples
use grizzly.Common.{
  ℕ, suc, ◌+◌, Bool, true, false, not, ◌&&◌, ◌||◌, List, [], ◌∷◌, ◌++◌, Option, none, some,
  if◌then◌else◌, ◌=ℕ◌, list_eq, nat_eq, ◌==◌, Result, ok, err, ◌>>=◌,
}
unfoldable use grizzly.Common.{contains}
use grizzly.Arguments.{
  ArgumentError, index_error, has_separator, split_value, unquote, parse_arguments,
}
use grizzly.Common.Dict.{Dict, lookup, insert, remove, has_key}
use grizzly.Common.Int.{ℤ, pos, negsuc}
use grizzly.Common.Text.{Text, codes}
use grizzly.Exceptions as exceptions
use grizzly.Exceptions.{Exception}
use grizzly.Extras.Transformers.{ContentType, undefined, multipart_form_data, from_string}

-- RequestTaskResponse without its handlers
pub record Response : Type 0 where
  pub status_codes : List ℕ
  pub content_type : ContentType

unfoldable pub new_response : Response
new_response = record { status_codes = 200 ∷ []; content_type = undefined }

-- status_codes.pop(status_codes.index(status)); `index` raises a ValueError
unfoldable pub pop_code : ℕ → List ℕ → Result Exception (List ℕ)
pop_code status [] = err exceptions.value_error
pop_code status (code ∷ rest) =
    let popped = pop_code status rest in
    if code =ℕ status then ok rest else popped >>= λ others. ok (code ∷ others)

-- add_status_code: the list has only codes that are not negative.
unfoldable pub add_status_code : ℤ → List ℕ → Result Exception (List ℕ)
add_status_code (pos status) codes =
    ok (if contains status codes then codes else codes ++ (status ∷ []))
add_status_code (negsuc n) codes = pop_code (suc n) codes

-- RequestTask; N is the type of its method, and P that of templates.
pub record Request (N P : Type 0) : Type 0 where
  pub method : N
  pub name : Text
  pub endpoint : Text
  pub template : Option P
  pub source : Option Text
  pub arguments : Option (Dict Text Text)
  pub metadata : Dict Text Text
  pub response : Response
  pub content_type : ContentType

-- What is raised for a text that is not a list of arguments.
unfoldable pub raised_by : {A : Type 0} → Result ArgumentError A → Result Exception A
raised_by (ok a) = ok a
raised_by (err index_error) = err exceptions.index_error
raised_by (err e) = err exceptions.value_error

unfoldable pub is_multipart : ContentType → Bool
is_multipart multipart_form_data = true
is_multipart _ = false

unfoldable pub check_multipart :
    ContentType → Dict Text Text → Result Exception (Dict Text Text × ContentType)
check_multipart content_type arguments =
    if is_multipart content_type
      && not (
          has_key (codes "multipart_form_data_name") arguments
          && has_key (codes "multipart_form_data_filename") arguments)
    then err exceptions.assertion_error
    else ok (arguments, content_type)

-- The content type is taken out of the arguments.
unfoldable pub take_content_type :
    Dict Text Text → Option Text → Result Exception (Dict Text Text × ContentType)
take_content_type arguments none = ok (arguments, undefined)
take_content_type arguments (some value) = do
  unquoted ← raised_by (unquote value)
  content_type ← from_string unquoted
  check_multipart content_type (remove (codes "content_type") arguments)

unfoldable pub with_parts :
    List Text → Result Exception (Text × Option (Dict Text Text) × ContentType)
with_parts (value ∷ value_arguments ∷ []) = do
  arguments ← raised_by (parse_arguments value_arguments (codes "=") true)
  taken ← take_content_type arguments (lookup (codes "content_type") arguments)
  ok (value, some taken.0, taken.1)
with_parts parts = err exceptions.value_error

-- The endpoint, its arguments and the content type.
unfoldable pub read_endpoint :
    Text → Result Exception (Text × Option (Dict Text Text) × ContentType)
read_endpoint endpoint =
    if has_separator (codes "|") endpoint
    then raised_by (split_value endpoint (codes "|")) >>= with_parts
    else ok (endpoint, none, undefined)

-- The template, made of a source where there is none yet.
unfoldable pub template_for : {P : Type 0} → (Text → P) → Option Text → Option P → Option P
template_for template_of none template = none
template_for template_of (some source) (some template) = some template
template_for template_of (some source) none = some (template_of source)

-- Without a source nothing is kept.
unfoldable pub kept_template : {P : Type 0} → (Text → P) → Option Text → Option P → Option P
kept_template template_of none template = template
kept_template template_of (some source) template = template_for template_of (some source) template

module _ {N P : Type 0} where
  -- RequestTask.__init__
  unfoldable pub construct : N → Text → Text → Option Text → Result Exception (Request N P)
  construct method name endpoint source = do
    parts ← read_endpoint endpoint
    ok (record {
      method = method;
      name = name;
      endpoint = parts.0;
      template = none;
      source = source;
      arguments = parts.1;
      metadata = [];
      response = record new_response { content_type = parts.2 };
      content_type = parts.2;
    })

  unfoldable pub set_source : Option Text → Request N P → Request N P
  set_source value r = record r { template = none; source = value }

  unfoldable pub add_metadata : Text → Text → Request N P → Request N P
  add_metadata key value r = record r { metadata = insert key value r.metadata }

  unfoldable pub get_template : (Text → P) → Request N P → Option P × Request N P
  get_template template_of r = (
    template_for template_of r.source r.template,
    record r { template = kept_template template_of r.source r.template },
  )
