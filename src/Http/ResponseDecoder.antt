-- ===== src/Http/ResponseDecoder.antt =====
-- src/http/response-decoder.ts and `readBoundedJson` of src/http/bounded-json.ts. Parameters: the
-- resolution of a location, the parse of a body's text (`TextDecoder` and `JSON.parse`), and the
-- generated validator of problems. A `catch` that keeps an abort looks at the signal once more.
pub mod Laws
pub mod Problems
use teslatlas_sdk_typescript.Prelude.{
  ℕ, ℤ, pos, negsuc, Bool, true, false, ◌&&◌, ◌||◌, not, Option, none, some, String, List, [], ◌∷◌,
  leb, ◌==◌, if◌then◌else◌, all,
}
use teslatlas_sdk_typescript.Js.Text.{Text, codes, text_eq, decimal_from}
use teslatlas_sdk_typescript.Js.Json.{
  Json, Number, null, boolean, number, string, array, object, integer, fraction, infinite, field,
}
use teslatlas_sdk_typescript.Core.Errors.{
  SdkError, Result, ok, err, ◌>>=◌, ◌>>◌, throw_if, dotted, protocol_validation, protocol_http,
  aborted, HttpProblem, is_protocol_validation, as_protocol_error_code, as_safe_request_id,
}
use teslatlas_sdk_typescript.Core.OpaqueValues.{strip_weak}
use teslatlas_sdk_typescript.Core.Version.{is_numeral}
use teslatlas_sdk_typescript.Http.BoundedBody.{
  Bytes, Stream, read_bounded, require_empty_response_body,
}
use teslatlas_sdk_typescript.Http.JsonWalk.{assert_finite_numbers, decode_protocol_value}
use teslatlas_sdk_typescript.Http.Response.{Response, Headers, Aborts, require_media_type}
use teslatlas_sdk_typescript.Http.ResponseMetadata.{
  ResponseMetadata, Requirements, LocationUrl, read_response_metadata, or_validation,
}

pub data ReadResult : Type 0 where
  modified : Json → ResponseMetadata → ReadResult
  not_modified : ResponseMetadata → ReadResult

abbrev pub max_json_response_bytes : ℕ
max_json_response_bytes = 16777216

abbrev pub max_retry_after_seconds : ℕ
max_retry_after_seconds = 86400

retry_after_header : Text → Result (Option ℤ)
retry_after_header header =
    if is_numeral header && leb (decimal_from 0 header) max_retry_after_seconds
    then ok (some (pos (decimal_from 0 header)))
    else err (protocol_validation "validateProblem.retryAfter")

-- The `Retry-After` header, or else the field of the problem, of a failure that can be retried.
unfoldable pub read_retry_after_seconds : Response → Bool → Option ℤ → Result (Option ℤ)
unfolding retry_after_header is_numeral decimal_from
read_retry_after_seconds response false fallback = ok none
read_retry_after_seconds response true fallback = elim response.headers.retry_after [
  | none ↦ ok fallback
  | some header ↦ retry_after_header header
]

safe_fields_error : SdkError
safe_fields_error = protocol_validation "validateProblem.safeFields"

-- The `typeof` tests on the fields of a problem.
text_field : Option Json → Result Text
unfolding safe_fields_error
text_field (some (string s)) = ok s
text_field _ = err safe_fields_error

bool_field : Option Json → Result Bool
unfolding safe_fields_error
bool_field (some (boolean b)) = ok b
bool_field _ = err safe_fields_error

seconds_field : Option Json → Result (Option ℤ)
unfolding safe_fields_error
seconds_field none = ok none
seconds_field (some (number (integer n))) = ok (some n)
seconds_field _ = err safe_fields_error

-- `problem.status === response.status`
is_status : Option Json → ℕ → Bool
is_status (some (number (integer (pos n)))) status = n == status
is_status _ status = false

-- `problem.status`, which is a number where the comparison lets it through.
status_number : Option Json → ℕ
status_number (some (number (integer (pos n)))) = n
status_number _ = 0

-- The error that the problem becomes, or what is thrown on the way to it.
problem_error : Response → ℕ → Text → Text → Bool → Option ℤ → Result HttpProblem
problem_error response status code request_id retryable seconds = do
  retry_after ← read_retry_after_seconds response retryable seconds
  safe_code ← as_protocol_error_code code
  safe_request_id ← as_safe_request_id request_id
  ok (record {
    code = safe_code;
    status = status;
    request_id = safe_request_id;
    retryable = retryable;
    retry_after_seconds = retry_after;
  })

thrown : Result HttpProblem → SdkError
unfolding safe_fields_error
thrown (ok problem) = protocol_http problem
thrown (err e) = safe_fields_error

-- The `catch` of `readJson`.
or_abort : Bool → String → Result Json → Result Json
or_abort aborted_now name (ok value) = ok value
or_abort true name (err e) = err aborted
or_abort false name (err e) =
    if is_protocol_validation e then err e else err (protocol_validation name)

pub is_same_tag : Option Text → Option Text → Bool
is_same_tag (some requested) (some found) = text_eq (strip_weak requested) (strip_weak found)
is_same_tag _ _ = false

abbrev pub with_entity_tag : Requirements → Requirements
with_entity_tag needed = record {
  entity_tag = true;
  strong_entity_tag = needed.strong_entity_tag;
  location = needed.location;
  accepted_versions = needed.accepted_versions;
}

module _ (parse_json : Bytes → Option Json) where
  parsed : Option Json → String → Result Json
  parsed none name = err (protocol_validation name)
  parsed (some value) name = elim (assert_finite_numbers value name) [
    | ok x ↦ ok value
    | err e ↦ err (protocol_validation name)
  ]

  unfoldable pub read_bounded_json : Bool → Option Stream → String → Result Json
  unfolding parsed
  read_bounded_json abort_first body name = do
    bytes ← read_bounded name max_json_response_bytes abort_first body
    parsed (parse_json bytes) name

  unfoldable pub read_json : Response → Aborts → String → Result Json
  unfolding read_bounded_json or_abort
  read_json response aborts name =
      or_abort aborts.after_failure name (read_bounded_json aborts.at_body response.body name)

  decode_problem : (Json → Bool) → Response → Aborts → Result HttpProblem
  decode_problem validate_problem response aborts = do
    require_media_type response (codes "application/problem+json") "validateProblem"
    body ← read_json response aborts "validateProblem"
    problem ← decode_protocol_value body validate_problem "validateProblem"
    throw_if (not (is_status (field problem (codes "status")) response.status))
        (protocol_validation "validateProblem.status")
    code ← text_field (field problem (codes "code"))
    request_id ← text_field (field problem (codes "request_id"))
    retryable ← bool_field (field problem (codes "retryable"))
    seconds ← seconds_field (field problem (codes "retry_after_seconds"))
    let status = status_number (field problem (codes "status"))
    err (thrown (problem_error response status code request_id retryable seconds))

  -- It never returns: the error is the whole result.
  unfoldable pub decode_protocol_problem_response : (Json → Bool) → Response → Aborts → SdkError
  unfolding decode_problem thrown problem_error text_field bool_field seconds_field is_status
      status_number
  decode_protocol_problem_response validate_problem response aborts =
      elim (decode_problem validate_problem response aborts) [
        | ok problem ↦ protocol_http problem
        | err e ↦ e
      ]

  module _ (resolve_location : Text → Option LocationUrl) (validate_problem : Json → Bool) where
    decode_json_success :
        Response → (Json → Bool) → String → Aborts → Requirements → Result (Json × ResponseMetadata)
    decode_json_success response validator name aborts needed = do
      throw_if aborts.at_start aborted
      require_media_type response (codes "application/json") name
      metadata ← read_response_metadata resolve_location response name needed
      body ← read_json response aborts name
      value ← decode_protocol_value body validator name
      throw_if aborts.at_end aborted
      ok (value, metadata)

    pub decode_not_modified :
        Response → String → Aborts → Requirements → Option Text → Result ReadResult
    decode_not_modified response name aborts needed if_none_match = do
      require_empty_response_body (dotted name ".304") aborts.at_body response.body
      metadata ← read_response_metadata resolve_location response name needed
      throw_if (not (is_same_tag if_none_match metadata.etag))
          (protocol_validation (dotted name ".304.etag"))
      throw_if aborts.at_end aborted
      ok (not_modified metadata)

    pub decode_modified :
        Response → (Json → Bool) → String → Aborts → Requirements → Result ReadResult
    unfolding decode_json_success
    decode_modified response validator name aborts needed = do
      (value, metadata) ← decode_json_success response validator name aborts needed
      ok (modified value metadata)

    unfoldable pub decode_read_response :
        Response → (Json → Bool) → String → Aborts → Requirements → Option Text → Result ReadResult
    unfolding decode_not_modified decode_modified is_same_tag
    decode_read_response response validator name aborts needed if_none_match =
        if response.status == 304
        then decode_not_modified response name aborts (with_entity_tag needed) if_none_match
        else if response.status == 200
        then decode_modified response validator name aborts (with_entity_tag needed)
        else err (decode_protocol_problem_response validate_problem response aborts)

    unfoldable pub decode_write_response :
        Response
        → (Json → Bool)
        → String
        → Aborts
        → Requirements
        → ℕ
        → Result (Json × ResponseMetadata)
    unfolding decode_json_success
    decode_write_response response validator name aborts needed success_status =
        if response.status == success_status
        then decode_json_success response validator name aborts needed
        else err (decode_protocol_problem_response validate_problem response aborts)
