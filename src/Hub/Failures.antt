-- ===== src/Hub/Failures.antt =====
-- The answers that are not a success in src/hub/client.ts: `#throwHubError`,
-- `#throwClaimExtractorError`, `statusForHubError`. Parameters: `JSON.parse`, `TextDecoder` and the
-- generated validator of errors.
use teslatlas_sdk_typescript.Prelude.{
  ℕ, Bool, true, ◌&&◌, ◌||◌, not, Option, none, some, String, List, [], ◌∷◌, ◌==◌, if◌then◌else◌,
}
use teslatlas_sdk_typescript.Js.Text.{Text, codes, text_eq, includes}
use teslatlas_sdk_typescript.Js.Json.{Json, string, field}
use teslatlas_sdk_typescript.Core.Errors.{
  SdkError, Result, ok, err, ◌>>=◌, ◌>>◌, throw_if, protocol_validation, hub_http_error, foreign,
  is_empty,
}
use teslatlas_sdk_typescript.Http.BoundedBody.{Bytes, read_bounded}
use teslatlas_sdk_typescript.Http.Response.{Response, require_media_type}
use teslatlas_sdk_typescript.Hub.Sessions.{Session, Operation, assert_operation}
use teslatlas_sdk_typescript.Hub.Validate.{decode_hub_json}

-- What an assertion of an operation looks at: the client as it is then, and the signal.
pub record Instant : Type 0 where
  pub session : Session
  pub aborted : Bool

unfoldable pub assert_at : Operation → Instant → Result (Unit {0})
assert_at operation moment = assert_operation moment.session operation moment.aborted

-- The signal at the start of the body, and the moment behind its end.
pub record BodyInstants : Type 0 where
  pub at_body : Bool
  pub after_body : Instant

pub data Route : Type 0 where
  discovery_route drives_route other_route : Route

abbrev pub maximum_response_bytes : ℕ
maximum_response_bytes = 1048576

abbrev pub service_unavailable : Text
service_unavailable = codes "service_unavailable"

abbrev pub unknown_error : Text
unknown_error = codes "hub_http_error"

abbrev pub bad_request_codes : List Text
bad_request_codes =
    codes "invalid_query"
    ∷ codes "invalid_time_range"
    ∷ codes "invalid_limit"
    ∷ codes "invalid_cursor"
    ∷ []

unfoldable pub status_for_hub_error : Text → Result ℕ
unfolding includes text_eq
status_for_hub_error code =
    if includes bad_request_codes code
    then ok 400
    else if text_eq code (codes "vehicle_not_found")
    then ok 404
    else if text_eq code service_unavailable
    then ok 503
    else err (protocol_validation "HubError.code")

-- The condition of the error "HubError.status", but for the status of the code.
unfoldable pub is_refused : Route → ℕ → Text → Bool
unfolding text_eq
is_refused discovery_route status code = not (text_eq code service_unavailable)
is_refused drives_route status code = status == 503 && not (text_eq code service_unavailable)
is_refused other_route status code = true

-- `envelope.error.code` of an envelope that the validator let through.
pub code_field : Option Json → Result Text
code_field (some (string code)) = ok code
code_field _ = err (foreign 0)

pub nested_field : Option Json → Text → Option Json
nested_field (some value) key = field value key
nested_field none key = none

module _ (parse : Text → Option Json) (decode_text : Bytes → Text) where
  -- `readBody`
  unfoldable pub read_body : Response → Bool → String → Result Text
  read_body response at_body name = do
    bytes ← read_bounded name maximum_response_bytes at_body response.body
    ok (decode_text bytes)

  module _ (validate_error : Json → Bool) where
    unfoldable pub envelope_code : Response → Route → Text → Result Text
    unfolding code_field nested_field status_for_hub_error is_refused
    envelope_code response route body = do
      require_media_type response (codes "application/json") "HubError"
      envelope ← decode_hub_json parse body validate_error "HubError"
      code ← code_field (nested_field (field envelope (codes "error")) (codes "code"))
      expected ← status_for_hub_error code
      throw_if (not (expected == response.status) || is_refused route response.status code)
          (protocol_validation "HubError.status")
      ok code

    -- The code of the `HubHttpError`, or what is thrown in place of it.
    unfoldable pub hub_error_code : Response → Route → Operation → BodyInstants → Result Text
    unfolding envelope_code read_body assert_at
    hub_error_code response route operation moments = do
      body ← read_body response moments.at_body "HubError"
      assert_at operation moments.after_body
      if is_empty body then ok unknown_error else envelope_code response route body

  unfoldable pub claim_extractor_code : Response → Operation → BodyInstants → Result Text
  unfolding read_body assert_at
  claim_extractor_code response operation moments = do
    body ← read_body response moments.at_body "HubError"
    assert_at operation moments.after_body
    require_media_type response (codes "text/plain") "HubError"
    throw_if (is_empty body) (protocol_validation "HubError.body")
    ok unknown_error

-- Neither of the two returns.
unfoldable pub thrown_code : Response → Result Text → SdkError
thrown_code response (ok code) = hub_http_error response.status code
thrown_code response (err e) = e
