-- ===== src/Http/RequestBuilder.antt =====
-- src/http/request-builder.ts. Path and query values are association lists; a header list holds the
-- values that are set, in order.
pub mod Paths
pub mod Operations
use teslatlas_sdk_typescript.Prelude.{
  ℕ, zero, suc, ◌≡◌, Bool, true, false, ◌&&◌, ◌||◌, not, Option, none, some, String, List, [], ◌∷◌,
  ◌++◌, ◌==◌, if◌then◌else◌, any, length, map,
}
use teslatlas_sdk_typescript.Js.Text.{Text, codes, text_eq, starts_with, includes, cut_at}
use teslatlas_sdk_typescript.Js.Uri.{encode_uri_component, form_encode, decimal_text}
use teslatlas_sdk_typescript.Core.Errors.{
  SdkError, Result, ok, err, ◌>>=◌, ◌>>◌, throw_if, invalid_request_path, invalid_request_body,
  foreign, is_empty,
}

abbrev pub Values : Type 0
Values = List (Text × Text)

pub record ReadDescriptor : Type 0 where
  pub path_template : Text
  pub query_names : List Text
  pub versioned : Bool

pub data Method : Type 0 where
  get post put delete : Method

pub record WriteDescriptor : Type 0 where
  pub path_template : Text
  pub method : Method
  pub has_json_body : Bool

pub data QueryValue : Type 0 where
  undefined : QueryValue
  text : Text → QueryValue
  number : ℕ → QueryValue
  texts : List Text → QueryValue

abbrev pub QueryValues : Type 0
QueryValues = List (Text × QueryValue)

-- What `FetchTransport.request` is given. Redirects are refused by each request.
pub record BuiltRequest : Type 0 where
  pub path : Text
  pub method : Method
  pub headers : Values
  pub body : Option Text
  pub if_none_match : Option Text

unfoldable pub lookup {ℓ} : {A : Type ℓ} → Text → List (Text × A) → Option A
lookup name [] = none
lookup name ((key, value) ∷ rest) = if text_eq key name then some value else lookup name rest

-- What `encodeURIComponent` throws for a lone surrogate: a `URIError`.
abbrev pub uri_error : SdkError
uri_error = foreign 1

abbrev pub or_throw {ℓ} : {A : Type ℓ} → Option A → SdkError → Result A
or_throw none e = err e
or_throw (some a) e = ok a

pub or_throw-eq-ok {ℓ} :
    {A : Type ℓ} (o : Option A) (e : SdkError) {a : A} → or_throw o e ≡ ok a → o ≡ some a
or_throw-eq-ok none e h = cc
or_throw-eq-ok (some a) e h = cc

-- `/\{([^}]+)\}/` behind a brace: the name, and what follows the closing brace.
pub placeholder : Text → Option (Text × Text)
placeholder [] = none
placeholder (c ∷ s) = if c == b'}' then none else cut_at b'}' (c ∷ s)

-- `template.replace(…)` on fuel: the path, and the names used.
pub substitute : ℕ → Values → Text → Result (Text × List Text)
substitute zero values template = ok ([], [])
substitute (suc fuel) values [] = ok ([], [])
substitute (suc fuel) values (c ∷ s) = elim (if c == b'{' then placeholder s else none) [
  | none ↦ do (path, used) ← substitute fuel values s; ok (c ∷ path, used)
  | some (name, after) ↦ do
    value ← or_throw (lookup name values) invalid_request_path
    encoded ← or_throw (encode_uri_component value) uri_error
    (path, used) ← substitute fuel values after
    ok (encoded ++ path, name ∷ used)
]

-- Not root-relative, or some value is not used.
pub is_unusable : Text → List Text → Values → Bool
is_unusable path used values =
    not (starts_with path (codes "/"))
    || (starts_with path (codes "//") || any (λ pair. not (includes used pair.0)) values)

-- Each round takes a unit of the template, so its length is fuel enough.
unfoldable pub interpolate_path : Text → Values → Result Text
unfolding substitute placeholder is_unusable cut_at lookup starts_with includes text_eq
interpolate_path template values = do
  (path, used) ← substitute (length template) values template
  throw_if (is_unusable path used values) invalid_request_path
  ok path

append_query : Text → QueryValue → List (Text × Text)
append_query name undefined = []
append_query name (text value) = (name, value) ∷ []
append_query name (number value) = (name, decimal_text value) ∷ []
append_query name (texts values) = map (λ value. (name, value)) values

query_value : QueryValues → Text → QueryValue
query_value values name = elim (lookup name values) [ none ↦ undefined | some value ↦ value ]

query_pairs : List Text → QueryValues → List (Text × Text)
query_pairs [] values = []
query_pairs (name ∷ names) values =
    append_query name (query_value values name) ++ query_pairs names values

-- `query.toString()`
unfoldable pub query_text : List (Text × Text) → Text
query_text [] = []
query_text ((name, value) ∷ []) = form_encode name ++ (b'=' ∷ form_encode value)
query_text ((name, value) ∷ next ∷ rest) =
    form_encode name ++ (b'=' ∷ (form_encode value ++ (b'&' ∷ query_text (next ∷ rest))))

abbrev pub version_header : Text
version_header = codes "Teslatlas-Protocol-Version"

abbrev with_query : Text → Text → Text
with_query path [] = path
with_query path (c ∷ s) = path ++ (b'?' ∷ c ∷ s)

unfoldable pub build_read_request :
    ReadDescriptor → Values → QueryValues → Text → Option Text → Result BuiltRequest
unfolding query_pairs append_query query_value query_text lookup text_eq
build_read_request operation path_values query_values protocol_version if_none_match = do
  path ← interpolate_path operation.path_template path_values
  ok (record {
    path = with_query path (query_text (query_pairs operation.query_names query_values));
    method = get;
    headers = if operation.versioned then (version_header, protocol_version) ∷ [] else [];
    body = none;
    if_none_match = if_none_match;
  })

-- `options.body`: absent, or the body of the snapshot that is taken of it. A value that has no JSON
-- form is refused, as `snapshotJsonRequest` does.
pub data RequestBody : Type 0 where
  absent lossy : RequestBody
  snapshot : Text → RequestBody

abbrev optional_header : String → Option Text → Values
optional_header name none = []
optional_header name (some value) = (codes name, value) ∷ []

json_body : Bool → RequestBody → Result (Option Text)
json_body true absent = err invalid_request_body
json_body true lossy = err invalid_request_body
json_body true (snapshot body) = ok (some body)
json_body false absent = ok none
json_body false _ = err invalid_request_body

unfoldable pub build_write_request :
    WriteDescriptor → Values → Text → RequestBody → Option Text → Option Text → Result BuiltRequest
unfolding json_body
build_write_request operation path_values protocol_version body if_match idempotency_key = do
  path ← interpolate_path operation.path_template path_values
  content ← json_body operation.has_json_body body
  ok (record {
    path = path;
    method = operation.method;
    headers =
        (version_header, protocol_version) ∷ []
        ++ (optional_header "If-Match" if_match
            ++ (optional_header "Idempotency-Key" idempotency_key
                ++ (if operation.has_json_body
                    then (codes "Content-Type", codes "application/json") ∷ []
                    else [])));
    body = content;
    if_none_match = none;
  })
