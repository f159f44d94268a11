-- ===== src/Tests/HttpTests.antt =====
-- Requests, bodies and responses on concrete inputs.
use teslatlas_sdk_typescript.Prelude.{
  ℕ, pos, ◌≡◌, ◌≤◌, refl, Bool, true, false, not, Option, none, some, [], ◌∷◌, arith, length, all,
}
use teslatlas_sdk_typescript.Js.Text.{Text, codes, text_eq, starts_with, includes, cut_at, has_unit}
use teslatlas_sdk_typescript.Js.Uri.{
  is_encoded_unit, encode_uri_component, code_points, is_unreserved,
}
use teslatlas_sdk_typescript.Js.Json.{
  Json, boolean, number, string, array, object, integer, infinite, end, member, is_finite,
}
use teslatlas_sdk_typescript.Core.Errors.{
  SdkError, ok, ◌>>◌, AllOk, throw_if, aborted, foreign, protocol_validation, dotted,
  contains_control_characters,
}
use teslatlas_sdk_typescript.Http.RequestBuilder.{Values, interpolate_path, lookup}
use teslatlas_sdk_typescript.Http.RequestBuilder.Paths.{count_unit, interpolate_path_shape}
use teslatlas_sdk_typescript.Http.BoundedBody.{Stream, closed, chunk, Bytes, read_bounded}
use teslatlas_sdk_typescript.Http.BoundedBody.Refines.{
  collect, contents, IsQuiet, read_bounded-eq-collect, read_bounded_sound, read_bounded_complete,
}
use teslatlas_sdk_typescript.Http.JsonWalk.{visit_json, assert_finite_numbers}
use teslatlas_sdk_typescript.Http.JsonWalk.Enough.{
  each, json_numbers, visit_json-each, assert_finite_numbers-eq-all,
}
use teslatlas_sdk_typescript.Http.Response.{Response, Aborts}
use teslatlas_sdk_typescript.Js.Trim.{lower}
use teslatlas_sdk_typescript.Http.ResponseMetadata.{Requirements, LocationUrl}
use teslatlas_sdk_typescript.Http.ResponseDecoder.{
  decode_read_response, decode_protocol_problem_response,
}
use teslatlas_sdk_typescript.Http.ResponseDecoder.Laws.{IsRead, decode_read_response-IsRead}
use teslatlas_sdk_typescript.Http.ResponseDecoder.Problems.{
  IsResponseError, decode_protocol_problem_response-IsResponseError,
}
use teslatlas_sdk_typescript.Http.HeaderValue.{checked_value, header_value}
use teslatlas_sdk_typescript.Http.FetchTransport.{
  Target, Dispatch, FetchEnvironment, request, authorization_header, checked_request, send_checked,
  prepare_dispatch, new_headers, notified_dispatch, fetch_dispatch, resolve_request_url, has_header,
  apply_if_none_match, authorized, set_header,
}
use teslatlas_sdk_typescript.Http.FetchTransport.Sent.{values_of, IsSentAs, request-IsAuthorized}

abbrev two_chunks : Stream
two_chunks = chunk false (1 ∷ 2 ∷ []) (chunk false (3 ∷ []) (closed false))

collect_example :
    read_bounded "Body" 8 false (some two_chunks)
    ≡ (throw_if false aborted >> collect "Body" 8 two_chunks [] 0)
collect_example = read_bounded-eq-collect "Body" 8 false two_chunks

sound_example :
    AllOk
      (λ bytes. (bytes ≡ contents two_chunks) × (length bytes ≤ 8))
      (read_bounded "Body" 8 false (some two_chunks))
sound_example = read_bounded_sound "Body" 8 false two_chunks

two_chunks-IsQuiet : IsQuiet two_chunks
unfolding IsQuiet
two_chunks-IsQuiet = (refl, omega arith, (refl, omega arith, refl))

two_chunks_fit : length (contents two_chunks) ≤ 8
unfolding contents
two_chunks_fit = omega arith

complete_example : read_bounded "Body" 8 false (some two_chunks) ≡ ok (contents two_chunks)
complete_example = read_bounded_complete "Body" 8 two_chunks two_chunks-IsQuiet two_chunks_fit

abbrev value : Json
value = object (
    member (codes "a") (array (member (codes "0") (number (integer (pos 1))) end))
      (member (codes "b") (number (infinite 0)) end))

visit_example :
    visit_json (λ n. throw_if (not (is_finite n)) aborted) value
    ≡ some (each (λ n. throw_if (not (is_finite n)) aborted) (json_numbers value))
visit_example = visit_json-each (λ n. throw_if (not (is_finite n)) aborted) value

finite_example :
    assert_finite_numbers value "V"
    ≡ throw_if
        (not (all is_finite (json_numbers value)))
        (protocol_validation (dotted "V" ".number"))
finite_example = assert_finite_numbers-eq-all value "V"

abbrev template : Text
template = codes "/v1/drives/{drive_id}/positions"

abbrev plain_values : Values
plain_values = (codes "drive_id", codes "42") ∷ []

abbrev escaped_values : Values
escaped_values = (codes "drive_id", codes "a/b") ∷ []

slash_encoded : is_encoded_unit b'/' ≡ false
unfolding is_unreserved has_unit
slash_encoded = refl

plain_path : interpolate_path template plain_values ≡ ok (codes "/v1/drives/42/positions")
unfolding interpolate_path encode_uri_component is_unreserved has_unit code_points lookup text_eq
    cut_at includes starts_with
plain_path = refl

escaped_path : interpolate_path template escaped_values ≡ ok (codes "/v1/drives/a%2Fb/positions")
unfolding interpolate_path encode_uri_component is_unreserved has_unit code_points lookup text_eq
    cut_at includes starts_with
escaped_path = refl

shape_example :
    count_unit b'/' (codes "/v1/drives/42/positions")
    ≡ count_unit b'/' (codes "/v1/drives/a%2Fb/positions")
shape_example =
    interpolate_path_shape b'/' template plain_values escaped_values
      (codes "/v1/drives/42/positions") (codes "/v1/drives/a%2Fb/positions") slash_encoded
      plain_path escaped_path

-- One problem stands for every body, and the validators take all values.
abbrev parse_body : Bytes → Option Json
parse_body bytes = some (
    object (
      member (codes "status") (number (integer (pos 503))) (
        member (codes "code") (string (codes "busy")) (
          member (codes "request_id") (string (codes "r-1"))
            (member (codes "retryable") (boolean true) end)))))

abbrev no_location : Text → Option LocationUrl
no_location text = none

abbrev accepts : Json → Bool
accepts json = true

abbrev response_of : ℕ → Text → Response
response_of status media_type = record {
  status = status;
  headers = record {
    content_type = some media_type;
    etag = some (codes "\"tag\"");
    request_id = none;
    protocol_version = none;
    location = none;
    retry_after = some (codes "30");
    cache_control = none;
  };
  body = some two_chunks;
}

abbrev not_aborted : Aborts
not_aborted = record { at_start = false; at_body = false; after_failure = false; at_end = false }

abbrev requirements : Requirements
requirements = record {
  entity_tag = false;
  strong_entity_tag = true;
  location = false;
  accepted_versions = none;
}

decode_example :
    AllOk
      (IsRead parse_body (response_of 200 (codes "application/json")) accepts requirements none)
      (decode_read_response parse_body no_location accepts
        (response_of 200 (codes "application/json"))
        accepts
        "Drive"
        not_aborted
        requirements
        none)
decode_example =
    decode_read_response-IsRead parse_body no_location accepts
      (response_of 200 (codes "application/json")) accepts "Drive" not_aborted requirements none

problem_example : IsResponseError (response_of 503 (codes "application/problem+json")) (
    decode_protocol_problem_response parse_body accepts
      (response_of 503 (codes "application/problem+json"))
      not_aborted)
problem_example =
    decode_protocol_problem_response-IsResponseError parse_body accepts
      (response_of 503 (codes "application/problem+json")) not_aborted

abbrev base_origin : Text
base_origin = codes "https://hub.test"

abbrev resolve : Text → Option Target
resolve path = some (record { origin = base_origin; href = path })

abbrev never_abort_error : SdkError → Bool
never_abort_error e = false

abbrev environment : FetchEnvironment
environment = record {
  aborted_first = false;
  authorization = ok (some (codes "Bearer t"));
  aborted_authorized = false;
  on_dispatch = ok tt;
  fetched = ok (response_of 200 (codes "application/json"));
  aborted_failure = false;
}

abbrev dispatched : Dispatch
dispatched = record {
  target = record { origin = base_origin; href = codes "/v1/vehicles" };
  headers =
      (codes "Accept", codes "application/json") ∷ (codes "Authorization", codes "Bearer t") ∷ [];
}

is_dispatched :
    (request base_origin resolve never_abort_error
      (codes "/v1/vehicles")
      (foreign 1)
      ((codes "Accept", codes "application/json") ∷ [])
      none
      environment).0.dispatch
    ≡ some dispatched
unfolding request checked_request new_headers checked_value header_value send_checked
    prepare_dispatch fetch_dispatch notified_dispatch resolve_request_url has_header
    apply_if_none_match authorized set_header contains_control_characters starts_with text_eq lower
is_dispatched = refl

request_example :
    (dispatched.target.origin ≡ base_origin)
    × (environment.aborted_first ≡ false)
    × (environment.aborted_authorized ≡ false)
    × ((answer : Option Text) × (environment.authorization ≡ ok answer)
        × IsSentAs answer (values_of dispatched.headers authorization_header))
request_example =
    request-IsAuthorized base_origin resolve never_abort_error (codes "/v1/vehicles") (foreign 1)
      ((codes "Accept", codes "application/json") ∷ []) none environment dispatched is_dispatched
